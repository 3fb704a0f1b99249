-- ===== src/Cdp/Keys/Tests.antt =====
-- Keys and shortcuts, after tests/test_keyboard.py, and the theorem about them there.
use prax_sandbox.Base.{◌≡◌, refl, List, [], ◌∷◌, map}
use prax_sandbox.Text.{codes, text_beq, lower, upper, decimal, split, strip}
use prax_sandbox.Cdp.Keys.{
  control, shift, entry, unknown_modifier, unknown_key, not_one_character, parsed, parse_parts,
  parse_key, KeyEvent, press_modifiers, release_modifiers, press_events, pressed, press_parsed,
  press_key,
}
use prax_sandbox.Cdp.Keys.Pressing.{PressEffect, press_key-effect}

keys_run : Unit {0}
unfolding text_beq lower upper decimal split strip entry parse_parts parse_key press_modifiers
    release_modifiers press_events press_parsed press_key
keys_run = tt

parse_tests :
    (parse_key (codes "Enter") ≡ parsed [] (codes "Enter") (codes "Enter") 13 (13 ∷ []))
    × (parse_key (codes "Control++") ≡ parsed (control ∷ []) (codes "+") [] 0 (codes "+"))
    × (parse_key (codes "shift+a") ≡ parsed (shift ∷ []) (codes "A") (codes "KeyA") 65 (codes "A"))
    × (parse_key (codes "Control+F12") ≡ parsed (control ∷ []) (codes "F12") (codes "F12") 123 [])
    × (parse_key (codes "Hyper+a") ≡ unknown_modifier (codes "Hyper"))
    × (parse_key (codes "Bogus") ≡ unknown_key (codes "Bogus"))
    × (parse_key (223 ∷ []) ≡ not_one_character)
unfolding keys_run
parse_tests = (refl, refl, refl, refl, refl, refl, refl)

abbrev to_end : List KeyEvent
to_end = press_events (control ∷ shift ∷ []) (codes "End") (codes "End") 35 []

press_tests :
    (press_key (codes "Control+Shift+End") ≡ pressed to_end)
    × (map KeyEvent.modifiers to_end ≡ 2 ∷ 10 ∷ 10 ∷ 10 ∷ 2 ∷ 0 ∷ [])
unfolding keys_run
press_tests = (refl, refl)

press_key-effect_example : PressEffect (parse_key (codes "Control+Shift+End")) to_end
press_key-effect_example = press_key-effect (codes "Control+Shift+End") to_end press_tests.0
