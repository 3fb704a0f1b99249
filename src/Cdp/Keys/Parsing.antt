-- ===== src/Cdp/Keys/Parsing.antt =====
-- The modifiers that `_parse_key` of prax_sandbox/cdp_service.py reads.
use mathlib.Core.Path.{subst}
use prax_sandbox.Base.{
  ℕ, ◌≡◌, inl, inr, Bool, true, false, List, [], ◌∷◌, ◌++◌, Option, none, some, arith, All,
  Bool-cases, Option-cases, List-cases, ◌==◌, map, is_empty, if◌then◌else◌,
}
use prax_sandbox.Text.{Text, text_eq, upper, lower, split}
use prax_sandbox.Cdp.Keys.{
  Modifier, modifiers, entry, named_keys, Parsed, parsed, is_alpha, is_digit, parse_one, named,
  parse_parts, parse_key, with_alias, trimmed, plus_key, last_apart,
}
use prax_sandbox.Cdp.Keys.Bits.{HasBit}

-- The modifiers of what was read, none where it was not.
abbrev pub read_modifiers : Parsed → List Modifier
read_modifiers (parsed ms name code vk text) = ms
read_modifiers _ = []

entry-All :
    (P : Modifier → Type 0) (k : Text) (d : List (Text × Modifier)) (v : Modifier)
    → All (λ x. P x.1) d
    → entry k d ≡ some v
    → P v
unfolding entry
entry-All P k [] v h e = cc
entry-All P k ((j, w) ∷ d) v (h, hs) e = elim (Bool-cases (j == k)) [
  | inl same ↦ subst P ((ground arith)) h
  | inr other ↦ entry-All P k d v hs (ground arith)
]

modifiers-HasBit : All (λ x. HasBit x.1) modifiers
modifiers-HasBit = ground arith

abbrev Fine : Parsed → Type 0
Fine o = All HasBit (read_modifiers o)

if-Fine : (b : Bool) (x y : Parsed) → Fine x → Fine y → Fine (if b then x else y)
if-Fine true x y h k = h
if-Fine false x y h k = k

parse_one-Fine : (ms : List Modifier) (c : ℕ) → All HasBit ms → Fine (parse_one ms c)
parse_one-Fine ms c h =
    if-Fine (is_alpha c) _ _
      (elim (List-cases (upper (c ∷ []))) [
        | inl e ↦ rw e tt
        | inr (u, us, e) ↦ rw e (if-Fine (is_empty us) _ _ h tt)
      ])
      (if-Fine (is_digit c) _ _ h h)

named-Fine :
    (ms : List Modifier) (key : Text) (o : Option (Text × ℕ))
    → All HasBit ms
    → Fine (named ms key o)
named-Fine ms key (some x) h = h
named-Fine ms [] none h = tt
named-Fine ms (c ∷ more) none h = if-Fine (is_empty more) _ _ (parse_one-Fine ms c h) tt

All-append : (xs ys : List Modifier) → All HasBit xs → All HasBit ys → All HasBit (xs ++ ys)
All-append [] ys h k = k
All-append (x ∷ xs) ys (h, hs) k = (h, All-append xs ys hs k)

parse_parts-Fine :
    (found : List Modifier) (mods : List Text) (key : Text)
    → All HasBit found
    → Fine (parse_parts found mods key)
unfolding parse_parts
parse_parts-Fine found [] key h =
    named-Fine found (with_alias key) (entry (with_alias key) named_keys) h
parse_parts-Fine found (m ∷ mods) key h = elim (Option-cases (entry (lower m) modifiers)) [
  | inl e ↦ rw (e, parse_parts) tt
  | inr (v, e) ↦
      let is = entry-All HasBit (lower m) modifiers v modifiers-HasBit e in
      rw (e, parse_parts)
        (parse_parts-Fine (found ++ (v ∷ [])) mods key (All-append found (v ∷ []) h (is, tt)))
]

-- Each modifier that is read is one of the four bits.
pub parse_key-HasBit : (spec : Text) → All HasBit (read_modifiers (parse_key spec))
unfolding parse_key
parse_key-HasBit spec = elim (List-cases (map trimmed (plus_key (split b'+' spec)))) [
  | inl e ↦ rw (e, parse_key) tt
  | inr (p, ps, e) ↦
      let (mods, key) = last_apart p ps in rw (e, parse_key) (parse_parts-Fine [] mods key tt)
]
