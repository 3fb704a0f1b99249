-- ===== src/Clipboard/Tests.antt =====
-- The clipboard between a desktop and two browsers, and the theorems about it there.
use prax_sandbox.Base.{◌≡◌, refl, true, false, [], ◌∷◌, ◌++◌, none, contains}
use prax_sandbox.Text.{codes, text_beq}
use prax_sandbox.Clipboard.{
  clipboard, set_ok, Bridge, copied, poll_read, poll_compare, set_begun, set_done, xsel_get,
  compare_clipboard, add_client, bridge_step, bridge_run,
}
use prax_sandbox.Clipboard.Laws.{poll, IsCompared, bridge_run-poll}

abbrev bridge : Bridge
bridge = record {
  clients = 1 ∷ 2 ∷ [];
  last_clipboard = codes "old";
  desktop = codes "old";
  current = none;
}

bridge_runs : Unit {0}
unfolding text_beq contains compare_clipboard add_client bridge_step bridge_run
bridge_runs = tt

-- A poll that reads before `xsel_set` is done sends the old text to all, and the next one the new
-- text; and a text that `xsel` did not take is answered as if it had.
clipboard_tests :
    ((bridge_run bridge (copied (codes "x") ∷ poll)).1
      ≡ (1, clipboard (codes "x")) ∷ (2, clipboard (codes "x")) ∷ [])
    × ((bridge_run bridge (
          (set_begun (codes "new")
            ∷ poll_read true
            ∷ set_done 1 (codes "new") true
            ∷ poll_compare
            ∷ [])
          ++ poll)).1
        ≡ (1, set_ok)
          ∷ (1, clipboard (codes "old"))
          ∷ (2, clipboard (codes "old"))
          ∷ (1, clipboard (codes "new"))
          ∷ (2, clipboard (codes "new"))
          ∷ [])
    × ((bridge_run bridge (set_begun (codes "new") ∷ set_done 1 (codes "new") false ∷ [])).1
        ≡ (1, set_ok) ∷ [])
    × ((bridge_run bridge (copied (codes "x") ∷ poll_read false ∷ poll_compare ∷ [])).1 ≡ [])
unfolding bridge_runs
clipboard_tests = (refl, refl, refl, refl)

-- A text is copied between what the poll reads and its comparison.
abbrev between : Bridge
between =
    (bridge_run (bridge_step bridge (poll_read true)).0
      (copied (codes "x") ∷ set_begun (codes "y") ∷ [])).0

bridge_run-poll_example :
    IsCompared between (xsel_get bridge true) (bridge_step between poll_compare)
bridge_run-poll_example =
    bridge_run-poll bridge true (copied (codes "x") ∷ set_begun (codes "y") ∷ []) (tt, (tt, tt))
