-- ===== src/Text/Laws.antt =====
-- What the methods on texts do, stated by concatenation.
use prax_sandbox.Base.{
  ℕ, ◌≡◌, refl, ap, inl, inr, true, false, [], ◌∷◌, ◌++◌, none, some, arith, nat_eq, length, drop,
  Bool-cases, Option-cases,
}
use prax_sandbox.Text.{
  Text, text_beq, text_beq_iff, text_eq, starts_with, ends_with, lower_code, lower, cut, rcut,
  has_text,
}

pub starts_with-append : (p s : Text) → starts_with p (p ++ s) ≡ true
unfolding starts_with
starts_with-append [] s = refl
starts_with-append (a ∷ p) s = ground (arith, starts_with-append p s)

-- A text that starts with `p` is `p` and the rest.
pub starts_with-drop : (p s : Text) → starts_with p s ≡ true → s ≡ p ++ drop (length p) s
unfolding starts_with
starts_with-drop [] s h = refl
starts_with-drop (a ∷ p) [] h = cc
starts_with-drop (a ∷ p) (b ∷ s) h = ground (arith, starts_with-drop p s)

pub ends_with_split : (t s : Text) → ends_with t s ≡ true → (p : Text) × (s ≡ p ++ t)
unfolding ends_with
ends_with_split [] [] h = ([], refl)
ends_with_split (a ∷ t) [] h = cc
ends_with_split t (b ∷ s) h = elim (Bool-cases (text_beq (b ∷ s) t)) [
  | inl here ↦ ([], (text_beq_iff (b ∷ s) t).0 here)
  | inr later ↦ let (p, e) = ends_with_split t s (rw later at h) in (b ∷ p, ap (λ w. b ∷ w) e)
]

pub ends_with-append : (p t : Text) → ends_with t (p ++ t) ≡ true
unfolding ends_with
ends_with-append [] [] = refl
ends_with-append [] (a ∷ t) = ground (arith, text_beq_iff (a ∷ t) (a ∷ t))
ends_with-append (b ∷ p) t = ground (arith, ends_with-append p t)

lower_code_idem : (c : ℕ) → lower_code (lower_code c) ≡ lower_code c
unfolding lower_code
lower_code_idem c = ground arith

pub lower_idem : (s : Text) → lower (lower s) ≡ lower s
unfolding lower
lower_idem [] = refl
lower_idem (c ∷ s) = cc (lower_code_idem c, lower_idem s)

pub lower-append : (s t : Text) → lower (s ++ t) ≡ lower s ++ lower t
unfolding lower
lower-append [] t = refl
lower-append (c ∷ s) t = cc (lower-append s t)

-- What `cut` returns is the text on both sides of `sep`.
pub cut_join : (sep s a b : Text) → cut sep s ≡ some (a, b) → s ≡ a ++ (sep ++ b)
unfolding cut
cut_join [] [] a b h = ground arith
cut_join (x ∷ sep) [] a b h = ground arith
cut_join sep (c ∷ s) a b h = elim (Bool-cases (starts_with sep (c ∷ s))) [
  | inl here ↦ ground (arith, starts_with-drop sep (c ∷ s) here)
  | inr later ↦ elim (Option-cases (cut sep s)) [
    | inl e ↦ ground arith
    | inr ((p, q), e) ↦ ground (arith, cut_join sep s p q e)
  ]
]

-- Where `cut` finds nothing, `sep` does not occur.
pub cut-none : (sep s : Text) → cut sep s ≡ none → has_text sep s ≡ false
unfolding cut has_text
cut-none sep [] h = ground arith
cut-none sep (c ∷ s) h = ground (arith, cut-none sep s)

pub rcut_join : (c : ℕ) (s a b : Text) → rcut c s ≡ some (a, b) → s ≡ a ++ (c ∷ b)
unfolding rcut
rcut_join c [] a b h = ground arith
rcut_join c (x ∷ s) a b h = elim (Option-cases (rcut c s)) [
  | inl e ↦ ground arith
  | inr ((p, q), e) ↦ ground (arith, rcut_join c s p q e)
]
