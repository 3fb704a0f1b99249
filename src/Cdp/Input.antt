-- ===== src/Cdp/Input.antt =====
-- Typing, pasting, clicking and scrolling in prax_sandbox/cdp_service.py, over a browser as a
-- parameter: what a command makes of it, and its reply. Coordinates and amounts are not negative.
mod Tests
use prax_sandbox.Base.{
  ℕ, Bool, true, false, List, [], ◌∷◌, Option, none, some, if◌then◌else◌, ◌==◌, is_empty, length,
  contains, nat_eq,
}
use prax_sandbox.Text.{Text, codes, text_eq}

pub data KeyStage : Type 0 where
  key_down key_char key_up : KeyStage

pub data Command : Type 0 where
  -- The type, the key and the text.
  dispatch_key : KeyStage → Text → Text → Command
  -- Control and V, with the browser's own paste command, and the release.
  paste_down paste_up : Command
  mouse_pressed mouse_released : ℕ → ℕ → Command
  -- Up, and by how much.
  mouse_wheel : Bool → ℕ → Command
  -- `navigator.clipboard.writeText` of the text, with a user's gesture.
  write_clipboard : Text → Command
  insert : Text → Command

-- The error, and the value of a result.
pub record SendReply : Type 0 where
  pub error : Option Text
  pub value : Option Text

pub data Status : Type 0 where
  typed pasted inserted : ℕ → Status
  insert_failed : Text → Status
  clicked : ℕ → ℕ → Status
  scrolled : Text → ℕ → Status
  error_reply : Text → Status

abbrev pub is_ok : Option Text → Bool
is_ok none = false
is_ok (some value) = value == codes "ok"

abbrev pub inserted_reply : ℕ → Option Text → Status
inserted_reply n none = inserted n
inserted_reply n (some e) = if is_empty e then inserted n else insert_failed e

module _ {B : Type 0} (send : B → Command → B × SendReply) where
  abbrev pub sent : B → Command → B
  sent b command = (send b command).0

  -- `click_at`
  unfoldable pub click_at : B → ℕ → ℕ → B × Status
  click_at b x y = (sent (sent b (mouse_pressed x y)) (mouse_released x y), clicked x y)

  abbrev pub type_char : B → ℕ → B
  type_char b c =
      sent
        (sent (sent b (dispatch_key key_down (c ∷ []) []))
          (dispatch_key key_char (c ∷ []) (c ∷ [])))
        (dispatch_key key_up (c ∷ []) [])

  unfoldable pub type_chars : B → Text → B
  type_chars b [] = b
  type_chars b (c ∷ text) = type_chars (type_char b c) text

  abbrev pub paste_or_insert : B × SendReply → Text → B × Status
  paste_or_insert (b, written) text =
      if is_ok written.value
      then (sent (sent b paste_down) paste_up, pasted (length text))
      else (let (b', r) = send b (insert text) in (b', inserted_reply (length text) r.error))

  unfoldable pub insert_text : B → Text → B × Status
  insert_text b text = paste_or_insert (send b (write_clipboard text)) text

  unfoldable pub type_text : B → Text → B × Status
  unfolding insert_text type_chars
  type_text b text =
      if contains text 10 then insert_text b text else (type_chars b text, typed (length text))

  unfoldable pub scroll_page : B → Text → ℕ → B × Status
  scroll_page b direction amount =
      let (b', r) =
        send b (mouse_wheel (if direction == codes "down" then false else true) amount) in
      (b', elim r.error [ some e ↦ error_reply e | none ↦ scrolled direction amount ])
