-- ===== src/Cdp/Keys.antt =====
-- Pressing a key or a shortcut: `_parse_key` and `press_key` in prax_sandbox/cdp_service.py. The
-- classes of characters are Python's below code point 256, and none above.
pub mod Bits
pub mod Parsing
pub mod Pressing
mod Tests
use prax_sandbox.Base.{
  ℕ, ◌+◌, ◌-◌, ◌/◌, ◌%◌, Bool, true, false, not, ◌&&◌, ◌||◌, List, [], ◌∷◌, ◌++◌, Option, none,
  some, leb, if◌then◌else◌, ◌==◌, nat_eq, is_empty, any, map,
}
use prax_sandbox.Text.{Text, codes, text_eq, lower, upper, decimal, split, strip, is_space}

-- A modifier: its bit, and its own key.
pub record Modifier : Type 0 where
  pub bit : ℕ
  pub key : Text
  pub code : Text
  pub vk : ℕ

abbrev modifier : ℕ → Text → Text → ℕ → Modifier
modifier bit key code vk = record { bit = bit; key = key; code = code; vk = vk }

abbrev pub alt : Modifier
alt = modifier 1 (codes "Alt") (codes "AltLeft") 18

abbrev pub control : Modifier
control = modifier 2 (codes "Control") (codes "ControlLeft") 17

abbrev pub meta : Modifier
meta = modifier 4 (codes "Meta") (codes "MetaLeft") 91

abbrev pub shift : Modifier
shift = modifier 8 (codes "Shift") (codes "ShiftLeft") 16

-- d.get(k)
unfoldable pub entry {ℓ} : {V : Type ℓ} → Text → List (Text × V) → Option V
entry k [] = none
entry k ((j, v) ∷ d) = let rest = entry k d in if j == k then some v else rest

abbrev pub modifiers : List (Text × Modifier)
modifiers =
    (codes "alt", alt)
    ∷ (codes "option", alt)
    ∷ (codes "control", control)
    ∷ (codes "ctrl", control)
    ∷ (codes "meta", meta)
    ∷ (codes "cmd", meta)
    ∷ (codes "command", meta)
    ∷ (codes "shift", shift)
    ∷ []

abbrev pub key_aliases : List (Text × Text)
key_aliases =
    (codes "esc", codes "Escape")
    ∷ (codes "return", codes "Enter")
    ∷ (codes "del", codes "Delete")
    ∷ (codes "space", codes "Space")
    ∷ (codes "up", codes "ArrowUp")
    ∷ (codes "down", codes "ArrowDown")
    ∷ (codes "left", codes "ArrowLeft")
    ∷ (codes "right", codes "ArrowRight")
    ∷ (codes "pageup", codes "PageUp")
    ∷ (codes "pagedown", codes "PageDown")
    ∷ []

abbrev function_key : ℕ → Text × (Text × ℕ)
function_key i = let name = codes "F" ++ decimal i in (name, (name, 111 + i))

-- The code and the virtual key code by name.
abbrev pub named_keys : List (Text × (Text × ℕ))
named_keys =
    (codes "Enter", (codes "Enter", 13))
    ∷ (codes "Tab", (codes "Tab", 9))
    ∷ (codes "Escape", (codes "Escape", 27))
    ∷ (codes "Backspace", (codes "Backspace", 8))
    ∷ (codes "Delete", (codes "Delete", 46))
    ∷ (codes "Insert", (codes "Insert", 45))
    ∷ (codes "Home", (codes "Home", 36))
    ∷ (codes "End", (codes "End", 35))
    ∷ (codes "PageUp", (codes "PageUp", 33))
    ∷ (codes "PageDown", (codes "PageDown", 34))
    ∷ (codes "ArrowUp", (codes "ArrowUp", 38))
    ∷ (codes "ArrowDown", (codes "ArrowDown", 40))
    ∷ (codes "ArrowLeft", (codes "ArrowLeft", 37))
    ∷ (codes "ArrowRight", (codes "ArrowRight", 39))
    ∷ (codes " ", (codes "Space", 32))
    ∷ (codes "Space", (codes "Space", 32))
    ∷ map function_key (1 ∷ 2 ∷ 3 ∷ 4 ∷ 5 ∷ 6 ∷ 7 ∷ 8 ∷ 9 ∷ 10 ∷ 11 ∷ 12 ∷ [])

pub data Parsed : Type 0 where
  unknown_modifier unknown_key : Text → Parsed
  -- `ord` raises on the two characters that `ß` has in upper case.
  not_one_character : Parsed
  parsed : List Modifier → Text → Text → ℕ → Text → Parsed

-- `s.isalpha()` and `s.isdigit()` for one character
abbrev pub is_alpha : ℕ → Bool
is_alpha c =
    leb 65 c && leb c 90
    || leb 97 c && leb c 122
    || c == 170
    || c == 181
    || c == 186
    || leb 192 c && leb c 214
    || leb 216 c && leb c 246
    || leb 248 c && leb c 255

abbrev pub is_digit : ℕ → Bool
is_digit c = leb 48 c && leb c 57 || c == 178 || c == 179 || c == 185

-- `"Control++"` presses `+`: the last two parts become one.
abbrev pub plus_key : List Text → List Text
plus_key [] = []
plus_key (p ∷ []) = p ∷ []
plus_key (p ∷ q ∷ []) = if is_empty q then codes "+" ∷ [] else p ∷ q ∷ []
plus_key (p ∷ q ∷ r ∷ ps) = p ∷ plus_key (q ∷ r ∷ ps)

abbrev pub trimmed : Text → Text
trimmed p = let t = strip is_space p in if is_empty t then p else t

-- `*mods, key = parts`
abbrev pub last_apart : Text → List Text → List Text × Text
last_apart p [] = ([], p)
last_apart p (q ∷ ps) = let (mods, key) = last_apart q ps in (p ∷ mods, key)

abbrev pub parse_one : List Modifier → ℕ → Parsed
parse_one mods c =
    let shifted = any (λ m. m.bit == 8) mods in
    if is_alpha c
    then elim (upper (c ∷ [])) [
      | [] ↦ not_one_character
      | u ∷ us ↦
          if is_empty us
          then (let key = if shifted then upper (c ∷ []) else lower (c ∷ []) in
              parsed mods key (codes "Key" ++ upper (c ∷ [])) u key)
          else not_one_character
    ]
    else if is_digit c
    then parsed mods (c ∷ []) (codes "Digit" ++ (c ∷ [])) c (c ∷ [])
    else parsed mods (c ∷ []) [] 0 (c ∷ [])

-- A key with its entry in `named_keys`, or a single character.
abbrev pub named : List Modifier → Text → Option (Text × ℕ) → Parsed
named mods key (some (code, vk)) =
    let space = code == codes "Space" in
    let text = if key == codes "Enter" then 13 ∷ [] else if space then codes " " else [] in
    parsed mods (if space then codes " " else key) code vk text
named mods [] none = unknown_key []
named mods (c ∷ more) none = if is_empty more then parse_one mods c else unknown_key (c ∷ more)

abbrev pub with_alias : Text → Text
with_alias key = elim (entry (lower key) key_aliases) [ none ↦ key | some name ↦ name ]

-- The modifiers, read one by one, and then the key.
unfoldable pub parse_parts : List Modifier → List Text → Text → Parsed
parse_parts found [] key = let name = with_alias key in named found name (entry name named_keys)
parse_parts found (m ∷ mods) key = elim (entry (lower m) modifiers) [
  | none ↦ unknown_modifier m
  | some modifier ↦ parse_parts (found ++ (modifier ∷ [])) mods key
]

unfoldable pub parse_key : Text → Parsed
unfolding parse_parts
parse_key spec = elim (map trimmed (plus_key (split b'+' spec))) [
  | [] ↦ unknown_key spec
  | p ∷ ps ↦ let (mods, key) = last_apart p ps in parse_parts [] mods key
]

pub data EventType : Type 0 where
  key_down raw_key_down key_up : EventType

pub record KeyEvent : Type 0 where
  pub type : EventType
  pub key : Text
  pub code : Text
  pub vk : ℕ
  pub modifiers : ℕ
  pub text : Option Text

-- `bits | bit` and `bits & ~bit` for one bit
abbrev pub has_bit : ℕ → ℕ → Bool
has_bit bits b = bits / b % 2 == 1

abbrev pub set_bit : ℕ → ℕ → ℕ
set_bit bits b = if has_bit bits b then bits else bits + b

abbrev pub clear_bit : ℕ → ℕ → ℕ
clear_bit bits b = if has_bit bits b then bits - b else bits

abbrev pub mod_event : EventType → Modifier → ℕ → KeyEvent
mod_event type m bits = record {
  type = type;
  key = m.key;
  code = m.code;
  vk = m.vk;
  modifiers = bits;
  text = none;
}

-- The two loops over the modifiers: the events, and the bits at the end.
unfoldable pub press_modifiers : ℕ → List Modifier → List KeyEvent × ℕ
press_modifiers bits [] = ([], bits)
press_modifiers bits (m ∷ ms) =
    let bits' = set_bit bits m.bit in
    let (events, end) = press_modifiers bits' ms in (mod_event raw_key_down m bits' ∷ events, end)

unfoldable pub release_modifiers : ℕ → List Modifier → List KeyEvent × ℕ
release_modifiers bits [] = ([], bits)
release_modifiers bits (m ∷ ms) =
    let bits' = clear_bit bits m.bit in
    let (events, end) = release_modifiers bits' ms in (mod_event key_up m bits' ∷ events, end)

-- `reversed`
abbrev pub reverse_onto {ℓ} : {A : Type ℓ} → List A → List A → List A
reverse_onto [] ys = ys
reverse_onto (x ∷ xs) ys = reverse_onto xs (x ∷ ys)

-- A shortcut (any modifier but Shift) does not type its character.
abbrev pub is_typing : List Modifier → Text → Bool
is_typing mods text =
    not (is_empty text) && not (any (λ m. m.bit == 1 || m.bit == 2 || m.bit == 4) mods)

unfoldable pub press_events : List Modifier → Text → Text → ℕ → Text → List KeyEvent
press_events mods name code vk text =
    let typing = is_typing mods text in
    let (downs, bits) = press_modifiers 0 mods in
    let (ups, end) = release_modifiers bits (reverse_onto mods []) in
    let event : EventType → Option Text → KeyEvent = λ type t. record {
      type = type;
      key = name;
      code = code;
      vk = vk;
      modifiers = bits;
      text = t;
    } in
    downs
    ++ (event (if typing then key_down else raw_key_down) (if typing then some text else none)
        ∷ event key_up none
        ∷ ups)

pub data Pressed : Type 0 where
  pressed : List KeyEvent → Pressed
  -- The error of `_parse_key` is returned, or its exception raised, and nothing is sent.
  not_pressed : Parsed → Pressed

unfoldable pub press_parsed : Parsed → Pressed
unfolding press_events
press_parsed (parsed mods name code vk text) = pressed (press_events mods name code vk text)
press_parsed other = not_pressed other

unfoldable pub press_key : Text → Pressed
press_key spec = press_parsed (parse_key spec)
