-- ===== src/Cdp/Input/Tests.antt =====
-- Typing and pasting into a page that enters what it is sent.
use prax_sandbox.Base.{
  ◌≡◌, refl, Bool, true, false, [], ◌∷◌, ◌++◌, Option, none, some, contains, if◌then◌else◌,
}
use prax_sandbox.Text
use prax_sandbox.Text.{Text, codes}
use prax_sandbox.Cdp.Input.{
  Command, key_char, dispatch_key, paste_down, write_clipboard, insert, SendReply, typed, pasted,
  insert_failed, clicked, scrolled, click_at, type_chars, insert_text, type_text, scroll_page,
}

input_runs : Unit {0}
unfolding Text.text_beq click_at type_chars insert_text type_text scroll_page contains
input_runs = tt

record Page : Type 0 where
  field_text : Text
  clipboard : Text

abbrev reply : Option Text → SendReply
reply value = record { error = none; value = value }

-- Whether the page lets the clipboard be written.
abbrev send : Bool → Page → Command → Page × SendReply
send allowed p (dispatch_key key_char key t) =
    (record { field_text = p.field_text ++ t; clipboard = p.clipboard }, reply none)
send allowed p (write_clipboard t) =
    if allowed
    then (record { field_text = p.field_text; clipboard = t }, reply (some (codes "ok")))
    else (p, reply (some (codes "refused: x")))
send allowed p paste_down =
    (record { field_text = p.field_text ++ p.clipboard; clipboard = p.clipboard }, reply none)
send allowed p (insert t) =
    if allowed then (p, reply none) else (p, record { error = some (codes "no"); value = none })
send allowed p _ = (p, reply none)

abbrev page : Page
page = record { field_text = codes "x"; clipboard = [] }

typing_tests :
    ((type_text (send true) page (codes "ab")).0.field_text ≡ codes "xab")
    × ((type_text (send true) page (codes "ab")).1 ≡ typed 2)
    × ((type_text (send true) page (10 ∷ codes "b")).0.field_text ≡ codes "x" ++ (10 ∷ codes "b"))
    × ((type_text (send true) page (10 ∷ codes "b")).1 ≡ pasted 2)
    × ((insert_text (send false) page (codes "b")).1 ≡ insert_failed (codes "no"))
    × ((scroll_page (send true) page (codes "down") 300).1 ≡ scrolled (codes "down") 300)
    × ((click_at (send true) page 1 2).1 ≡ clicked 1 2)
unfolding input_runs
typing_tests = (refl, refl, refl, refl, refl, refl, refl)
