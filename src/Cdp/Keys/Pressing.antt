-- ===== src/Cdp/Keys/Pressing.antt =====
-- What a page sees of `press_key` in prax_sandbox/cdp_service.py.
use prax_sandbox.Base.{
  ℕ, ◌<◌, ◌≡◌, refl, sym, ap, ◌∙◌, Bool, true, false, ◌||◌, List, [], ◌∷◌, ◌++◌, Option, none, some,
  arith, if◌then◌else◌, ◌==◌, nat_eq, All, map,
}
use prax_sandbox.Text.{Text, text_eq}
use prax_sandbox.Cdp.Keys.{
  Modifier, Parsed, parsed, unknown_modifier, unknown_key, not_one_character, parse_key,
  press_parsed, EventType, key_down, raw_key_down, key_up, KeyEvent, has_bit, set_bit, clear_bit,
  press_modifiers, release_modifiers, reverse_onto, is_typing, press_events, pressed, press_key,
}
use prax_sandbox.Cdp.Keys.Bits.{
  IsBit, HasBit, bit_in, modifiers-bits, set_bit-bound, has_bit-set_bit,
}
use prax_sandbox.Cdp.Keys.Parsing.{read_modifiers, parse_key-HasBit}

-- The keys that are held down, the last one first; a key that goes up is the last one.
abbrev let_go : List Text → Text → Option (List Text)
let_go [] k = none
let_go (j ∷ ks) k = if j == k then some ks else none

abbrev held_after : List Text → EventType → Text → Option (List Text)
held_after ks key_up k = let_go ks k
held_after ks key_down k = some (k ∷ ks)
held_after ks raw_key_down k = some (k ∷ ks)

unfoldable pub held : List Text → List KeyEvent → Option (List Text)
held ks [] = some ks
held ks (e ∷ es) = elim (held_after ks e.type e.key) [ none ↦ none | some ks' ↦ held ks' es ]

text_eq-same : (k : Text) → (k == k) ≡ true
text_eq-same k = (text_eq.equals_iff k k).1 refl

held-down :
    (bits : ℕ) (ms : List Modifier) (ks : List Text) (rest : List KeyEvent)
    → held ks ((press_modifiers bits ms).0 ++ rest)
      ≡ held (reverse_onto (map Modifier.key ms) ks) rest
unfolding held press_modifiers
held-down bits [] ks rest = refl
held-down bits (m ∷ ms) ks rest = held-down (set_bit bits m.bit) ms (m.key ∷ ks) rest

held-up :
    (bits : ℕ) (ms : List Modifier)
    → held (map Modifier.key ms) (release_modifiers bits ms).0 ≡ some []
unfolding held release_modifiers
held-up bits [] = refl
held-up bits (m ∷ ms) = rw (text_eq-same m.key, held) (held-up (clear_bit bits m.bit) ms)

map-reverse_onto :
    (ms ns : List Modifier)
    → map Modifier.key (reverse_onto ms ns)
      ≡ reverse_onto (map Modifier.key ms) (map Modifier.key ns)
map-reverse_onto [] ns = refl
map-reverse_onto (m ∷ ms) ns = map-reverse_onto ms (m ∷ ns)

abbrev key_event : EventType → Text → Text → ℕ → ℕ → Option Text → KeyEvent
key_event type key code vk bits text = record {
  type = type;
  key = key;
  code = code;
  vk = vk;
  modifiers = bits;
  text = text;
}

held-press :
    (typing : Bool) (name code : Text) (vk bits : ℕ) (t : Option Text) (ks : List Text)
    (rest : List KeyEvent)
    → held ks (
        key_event (if typing then key_down else raw_key_down) name code vk bits t
        ∷ key_event key_up name code vk bits none
        ∷ rest)
      ≡ held ks rest
unfolding held
held-press true name code vk bits t ks rest = rw (text_eq-same name, held) refl
held-press false name code vk bits t ks rest = rw (text_eq-same name, held) refl

press_events-held :
    (mods : List Modifier) (name code : Text) (vk : ℕ) (text : Text)
    → held [] (press_events mods name code vk text) ≡ some []
unfolding press_events
press_events-held mods name code vk text =
    let bits = (press_modifiers 0 mods).1 in
    let ups = (release_modifiers bits (reverse_onto mods [])).0 in
    let typing = is_typing mods text in
    let t : Option Text = if typing then some text else none in
    held-down 0 mods [] _
    ∙ held-press typing name code vk bits t (reverse_onto (map Modifier.key mods) []) ups
    ∙ ap (λ ks. held ks ups) (sym (map-reverse_onto mods []))
    ∙ held-up bits (reverse_onto mods [])

-- The bits of the last event.
abbrev pub last_bits : ℕ → List KeyEvent → ℕ
last_bits n [] = n
last_bits n (e ∷ es) = last_bits e.modifiers es

last_bits-append :
    (n : ℕ) (es : List KeyEvent) (e : KeyEvent) (es' : List KeyEvent)
    → last_bits n (es ++ (e ∷ es')) ≡ last_bits e.modifiers es'
last_bits-append n [] e es' = refl
last_bits-append n (d ∷ es) e es' = last_bits-append d.modifiers es e es'

last_bits-release :
    (n : ℕ) (ms : List Modifier)
    → last_bits n (release_modifiers n ms).0 ≡ (release_modifiers n ms).1
unfolding release_modifiers
last_bits-release n [] = refl
last_bits-release n (m ∷ ms) = last_bits-release (clear_bit n m.bit) ms

-- The key of an event, with its code, and whether it goes down or up.
abbrev pub IsOf : EventType → Text → Text → ℕ → KeyEvent → Type 0
IsOf type key code vk e = (e.type ≡ type) × (e.key ≡ key) × (e.code ≡ code) × (e.vk ≡ vk)

-- One event for each of the modifiers, in their order, none of them with a text.
abbrev pub AreOf : EventType → List Modifier → List KeyEvent → Type 0
AreOf type [] [] = Unit
AreOf type (m ∷ ms) (e ∷ es) = IsOf type m.key m.code m.vk e × (e.text ≡ none) × AreOf type ms es
AreOf type ms es = ⊥

-- Each event has its own bit and those of the events before it.
abbrev pub AreAdded : (ℕ → Bool) → List Modifier → List KeyEvent → Type 0
AreAdded has (m ∷ ms) (e ∷ es) =
    let has' : ℕ → Bool = λ c. m.bit == c || has c in
    ((c : ℕ) → IsBit c → has_bit e.modifiers c ≡ has' c) × AreAdded has' ms es
AreAdded has ms es = Unit

-- The modifiers go down in their order, then the key goes down and up, with the bits of all
-- modifiers, and then the modifiers go up, the last one first.
pub record IsPress (mods : List Modifier) (name code : Text) (vk : ℕ) (text : Text)
    (es : List KeyEvent) : Type 0 where
  pub before : List KeyEvent
  pub down : KeyEvent
  pub up : KeyEvent
  pub after : List KeyEvent
  pub parts : es ≡ before ++ (down ∷ up ∷ after)
  pub downs : AreOf raw_key_down mods before
  pub added : AreAdded (λ c. false) mods before
  pub pressed_key : IsOf (if is_typing mods text then key_down else raw_key_down) name code vk down
  pub with_modifiers : (c : ℕ) → IsBit c → has_bit down.modifiers c ≡ bit_in c mods
  pub typed : down.text ≡ (if is_typing mods text then some text else none)
  pub released_key : IsOf key_up name code vk up × (up.modifiers ≡ down.modifiers)
  pub ups : AreOf key_up (reverse_onto mods []) after

press_modifiers-AreOf :
    (bits : ℕ) (ms : List Modifier) → AreOf raw_key_down ms (press_modifiers bits ms).0
unfolding press_modifiers
press_modifiers-AreOf bits [] = tt
press_modifiers-AreOf bits (m ∷ ms) =
    ((refl, refl, refl, refl), refl, press_modifiers-AreOf (set_bit bits m.bit) ms)

release_modifiers-AreOf :
    (bits : ℕ) (ms : List Modifier) → AreOf key_up ms (release_modifiers bits ms).0
unfolding release_modifiers
release_modifiers-AreOf bits [] = tt
release_modifiers-AreOf bits (m ∷ ms) =
    ((refl, refl, refl, refl), refl, release_modifiers-AreOf (clear_bit bits m.bit) ms)

press_modifiers-AreAdded :
    (bits : ℕ) (has : ℕ → Bool) (ms : List Modifier)
    → bits < 16
    → ((c : ℕ) → IsBit c → has_bit bits c ≡ has c)
    → All HasBit ms
    → AreAdded has ms (press_modifiers bits ms).0
unfolding press_modifiers
press_modifiers-AreAdded bits has [] small same is = tt
press_modifiers-AreAdded bits has (m ∷ ms) small same (is, rest) =
    let now : (c : ℕ) → IsBit c → has_bit (set_bit bits m.bit) c ≡ (m.bit == c || has c) =
      λ c isc. has_bit-set_bit bits m.bit c small is isc ∙ ap (m.bit == c ||◌) (same c isc) in
    (
      now,
      press_modifiers-AreAdded (set_bit bits m.bit) (λ c. m.bit == c || has c) ms
          (set_bit-bound bits m.bit small is) now rest,
    )

press_events-IsPress :
    (mods : List Modifier) (name code : Text) (vk : ℕ) (text : Text)
    → All HasBit mods
    → IsPress mods name code vk text (press_events mods name code vk text)
unfolding press_events
press_events-IsPress mods name code vk text is =
    let bits = (press_modifiers 0 mods).1 in
    let typing = is_typing mods text in
    let t : Option Text = if typing then some text else none in
    record {
      before = (press_modifiers 0 mods).0;
      down = key_event (if typing then key_down else raw_key_down) name code vk bits t;
      up = key_event key_up name code vk bits none;
      after = (release_modifiers bits (reverse_onto mods [])).0;
      parts = refl;
      downs = press_modifiers-AreOf 0 mods;
      added = press_modifiers-AreAdded 0 (λ c. false) mods (omega arith) no_bit is;
      pressed_key = (refl, refl, refl, refl);
      released_key = ((refl, refl, refl, refl), refl);
      ups = release_modifiers-AreOf bits (reverse_onto mods []);
      with_modifiers = (modifiers-bits mods is).0;
      typed = refl;
    }
  where
    no_bit : (c : ℕ) → IsBit c → has_bit 0 c ≡ false
    no_bit c is = ground arith

press_events-last :
    (mods : List Modifier) (name code : Text) (vk : ℕ) (text : Text)
    → All HasBit mods
    → last_bits 0 (press_events mods name code vk text) ≡ 0
unfolding press_events
press_events-last mods name code vk text is =
    let bits = (press_modifiers 0 mods).1 in
    last_bits-append 0 (press_modifiers 0 mods).0 _ _
    ∙ last_bits-release bits (reverse_onto mods [])
    ∙ (modifiers-bits mods is).1

-- What was read, pressed.
abbrev pub PressEffect : Parsed → List KeyEvent → Type 0
PressEffect o es =
    (held [] es ≡ some [])
    × (last_bits 0 es ≡ 0)
    × ((mods : List Modifier) × (name : Text) × (code : Text) × (vk : ℕ) × (text : Text) × (o
          ≡ parsed mods name code vk text)
        × IsPress mods name code vk text es)

press_parsed-effect :
    (o : Parsed) (es : List KeyEvent)
    → All HasBit (read_modifiers o)
    → press_parsed o ≡ pressed es
    → PressEffect o es
unfolding press_parsed
press_parsed-effect (unknown_modifier m) es is h = cc
press_parsed-effect (unknown_key k) es is h = cc
press_parsed-effect not_one_character es is h = cc
press_parsed-effect (parsed mods name code vk text) es is h =
    let same : press_events mods name code vk text ≡ es = ground arith in
    rw (← same) (
      press_events-held mods name code vk text,
      press_events-last mods name code vk text is,
      (mods, name, code, vk, text, refl, press_events-IsPress mods name code vk text is),
    )

-- Where `press_key` sends events, it has read the key and its modifiers. The modifiers go down first,
-- in the order in which they were read, each with its own bit and the bits of those before it; then
-- the key goes down with the bits of all modifiers, and with its text if it types one, and up; then
-- the modifiers go up, the last one first. So every key that goes down goes up again, the last one
-- first, and no bit is set in the last event.
pub press_key-effect :
    (spec : Text) (es : List KeyEvent)
    → press_key spec ≡ pressed es
    → PressEffect (parse_key spec) es
unfolding press_key
press_key-effect spec es h = press_parsed-effect (parse_key spec) es (parse_key-HasBit spec) h
