-- ===== src/Text/Replace.antt =====
-- `str.replace`, where the old text is not empty, and its laws.
use prax_sandbox.Base.{
  ℕ, zero, suc, ◌-◌, ◌≡◌, refl, ap, true, false, [], ◌∷◌, ◌++◌, arith, if◌then◌else◌, length,
}
use prax_sandbox.Text.{Text, starts_with, has_text}
use prax_sandbox.Text.Laws.{starts_with-append}

-- The number is how much of the old text is left to pass.
replace_from : ℕ → Text → Text → Text → Text
replace_from k old new [] = []
replace_from (suc k) old new (c ∷ s) = replace_from k old new s
replace_from zero old new (c ∷ s) =
    let found = starts_with old (c ∷ s) in
    let rest = replace_from (if found then length old - 1 else 0) old new s in
    if found then new ++ rest else c ∷ rest

unfoldable pub replace : Text → Text → Text → Text
unfolding replace_from
replace old new s = replace_from zero old new s

-- Where the old text does not occur nothing changes.
pub replace-none : (old new s : Text) → has_text old s ≡ false → replace old new s ≡ s
unfolding replace has_text
replace-none old new [] h = refl
replace-none old new (c ∷ s) h =
    let here : starts_with old (c ∷ s) ≡ false = ground arith in
    rw (here, replace, replace_from) (ap (◌∷◌ c) (replace-none old new s (ground arith)))

replace_from-skip :
    (w old new t : Text) → replace_from (length w) old new (w ++ t) ≡ replace_from 0 old new t
unfolding replace_from
replace_from-skip [] old new t = refl
replace_from-skip (c ∷ w) old new t = replace_from-skip w old new t

-- A text that starts with the old one.
pub replace-prefix :
    (c : ℕ) (old new t : Text)
    → replace (c ∷ old) new ((c ∷ old) ++ t) ≡ new ++ replace (c ∷ old) new t
unfolding replace
replace-prefix c old new t =
    let here : starts_with (c ∷ old) (c ∷ (old ++ t)) ≡ true = starts_with-append (c ∷ old) t in
    let one : suc (length old) - 1 ≡ length old = omega arith in
    rw (here, replace, replace_from, one) (ap (new ++◌) (replace_from-skip old (c ∷ old) new t))
