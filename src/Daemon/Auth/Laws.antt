-- ===== src/Daemon/Auth/Laws.antt =====
-- Who passes `check_bearer` of prax_sandbox/daemon/auth.py.
use prax_sandbox.Base.{
  ◌≡◌, ◌≢◌, refl, sym, ap, ◌∙◌, inl, inr, true, false, [], ◌∷◌, ◌++◌, none, some, arith, Bool-cases,
  Option-cases, ◌==◌,
}
use prax_sandbox.Text.{Text, codes, text_eq, text_beq, lower, cut, partition, starts_with}
use prax_sandbox.Text.Laws.{cut_join}
use prax_sandbox.Daemon.Auth.{fits, check_bearer}

-- The header is a scheme `Bearer` in any case, one blank and the token.
pub record Presents (header token : Text) : Type 0 where
  pub scheme : Text
  pub is_bearer : lower scheme ≡ codes "bearer"
  pub parts : header ≡ scheme ++ (codes " " ++ token)

fits-parts :
    (scheme presented expected : Text)
    → fits scheme presented expected ≡ true
    → (lower scheme ≡ codes "bearer") × (presented ≡ expected) × (presented ≢ [])
unfolding fits
fits-parts scheme [] expected h = ground arith
fits-parts scheme (c ∷ presented) expected h = elim (Bool-cases (lower scheme == codes "bearer")) [
  | inr other ↦ ground arith
  | inl same ↦ (
    (text_eq.equals_iff (lower scheme) (codes "bearer")).0 same,
    (text_eq.equals_iff (c ∷ presented) expected).0 (ground arith),
    λ x. cc,
  )
]

fits-nothing : (scheme expected : Text) → fits scheme [] expected ≡ false
unfolding fits
fits-nothing scheme expected = ground arith

partition-some : (sep s a b : Text) → cut sep s ≡ some (a, b) → partition sep s ≡ (a, true, b)
partition-some sep s a b e = rw (e, partition) refl

partition-none : (sep s : Text) → cut sep s ≡ none → partition sep s ≡ (s, false, [])
partition-none sep s e = rw (e, partition) refl

-- A header that passes presents the token, which is not empty.
pub check_bearer-Presents :
    (header token : Text)
    → check_bearer (some header) token ≡ true
    → Presents header token × (token ≢ [])
unfolding check_bearer
check_bearer-Presents [] token h = cc
check_bearer-Presents (c ∷ s) token h = elim (Option-cases (cut (codes " ") (c ∷ s))) [
  | inl e ↦
      let fit : fits (c ∷ s) [] token ≡ true =
        ap (λ p. fits p.0 p.2 token) (sym (partition-none (codes " ") (c ∷ s) e)) ∙ h in
      ground (arith, fits-nothing (c ∷ s) token)
  | inr ((scheme, presented), e) ↦
      let fit : fits scheme presented token ≡ true =
        ap (λ p. fits p.0 p.2 token) (sym (partition-some (codes " ") (c ∷ s) scheme presented e))
        ∙ h in
      let (is_bearer, same, given) = fits-parts scheme presented token fit in
      let parts = cut_join (codes " ") (c ∷ s) scheme presented e in
      (
        (record { scheme = scheme; is_bearer = is_bearer; parts = rw (← same) parts }),
        rw (← same) given,
      )
]

-- The token of the header that a client with it sends.
pub check_bearer-own :
    (token : Text) → token ≢ [] → check_bearer (some (codes "Bearer " ++ token)) token ≡ true
unfolding check_bearer fits lower cut starts_with text_beq
check_bearer-own [] h = absurd (h refl)
check_bearer-own (c ∷ token) h = (text_eq.equals_iff (c ∷ token) (c ∷ token)).1 refl
