-- ===== src/Files/Kernel/Chains.antt =====
-- A path is found in parts.
use prax_sandbox.Base.{
  ℕ, zero, suc, ◌≤◌, ◌<◌, ◌≡◌, refl, sym, ◌∙◌, ◌⊎◌, inl, inr, List, [], ◌∷◌, ◌++◌, Option, none,
  some, arith, append_assoc, Option-cases,
}
use prax_sandbox.Text.{Text, split}
use prax_sandbox.Files.Disk.{FilePath, Disk}
use prax_sandbox.Files.Realpath.{start_of}
use prax_sandbox.Files.Kernel.{Lookup, stuck, at, through, look_up, find_names, kernel}

abbrev pub Found : Type 0
Found = Option (FilePath × ℕ)

-- What is found for the rest of the names, from where the first ones lead.
abbrev pub go_on : Disk → Found → List Text → Found
go_on d none names = none
go_on d (some (m, k)) names = kernel d k m names

pub Lookup-cases :
    (l : Lookup) → (l ≡ stuck) ⊎ ((q : FilePath) × (l ≡ at q)) ⊎ ((t : Text) × (l ≡ through t))
Lookup-cases stuck = inl refl
Lookup-cases (at q) = inr (inl (q, refl))
Lookup-cases (through t) = inr (inr (t, refl))

abbrev Finder : Type 0
Finder = FilePath → List Text → Found

abbrev IsChained : Disk → Finder → Type 0
IsChained d more = (p : FilePath) (a b : List Text) → more p (a ++ b) ≡ go_on d (more p a) b

module _ (d : Disk) (k : ℕ) (more : Finder) (chained : IsChained d more)
    (same : (p : FilePath) (names : List Text)
      → find_names d k more p names ≡ kernel d k p names) where
  find_names-append :
      (p : FilePath) (a b : List Text)
      → find_names d k more p (a ++ b) ≡ go_on d (find_names d k more p a) b
  unfolding find_names
  find_names-append p [] b = same p b
  find_names-append p (n ∷ a) b = elim (Lookup-cases (look_up d p n)) [
    | inl e ↦ rw (e, find_names) refl
    | inr (inl (q, e)) ↦ rw (e, find_names) (find_names-append q a b)
    | inr (inr (t, e)) ↦
        rw (e, find_names, ← append_assoc (split b'/' t) a b)
          (chained (start_of p t) (split b'/' t ++ a) b)
  ]

pub kernel-append :
    (d : Disk) (k : ℕ) (p : FilePath) (a b : List Text)
    → kernel d k p (a ++ b) ≡ go_on d (kernel d k p a) b
unfolding kernel
kernel-append d zero = find_names-append d 0 (λ p names. none) (λ p a b. refl) (λ p names. refl)
kernel-append d (suc k) =
    find_names-append d (suc k) (kernel d k) (kernel-append d k) (λ p names. refl)

abbrev IsBounded : Finder → ℕ → Type 0
IsBounded more k =
    (p : FilePath) (names : List Text) (m : FilePath) (k' : ℕ)
    → more p names ≡ some (m, k')
    → k' ≤ k

find_names-le :
    (d : Disk) (k : ℕ) (more : Finder) → IsBounded more k → IsBounded (find_names d k more) k
unfolding find_names
find_names-le d k more bounded p [] m k' h = ground arith
find_names-le d k more bounded p (n ∷ names) m k' h = elim (Lookup-cases (look_up d p n)) [
  | inl e ↦ let h' : ◌≡◌ {A = Found} none (some (m, k')) = rw (e, find_names) at h in cc
  | inr (inl (q, e)) ↦ find_names-le d k more bounded q names m k' (rw (e, find_names) at h)
  | inr (inr (t, e)) ↦ bounded (start_of p t) (split b'/' t ++ names) m k' (rw (e, find_names) at h)
]

-- No more links can be followed in the end than at first.
pub kernel-le :
    (d : Disk) (k : ℕ) (p : FilePath) (names : List Text) (m : FilePath) (k' : ℕ)
    → kernel d k p names ≡ some (m, k')
    → k' ≤ k
unfolding kernel
kernel-le d zero p names m k' h =
    find_names-le d 0 (λ p names. none) (λ p names m k' h. cc) p names m k' h
kernel-le d (suc k) p names m k' h =
    find_names-le d (suc k) (kernel d k)
      (λ p names m k' h. omega (arith, kernel-le d k p names m k' h)) p names m k' h

pub kernel-nil : (d : Disk) (k : ℕ) (p : FilePath) → kernel d k p [] ≡ some (p, k)
unfolding kernel find_names
kernel-nil d zero p = refl
kernel-nil d (suc k) p = refl

pub kernel-stuck :
    (d : Disk) (k : ℕ) (p : FilePath) (n : Text) (names : List Text)
    → look_up d p n ≡ stuck
    → kernel d k p (n ∷ names) ≡ none
unfolding kernel find_names
kernel-stuck d zero p n names e = rw (e, find_names) refl
kernel-stuck d (suc k) p n names e = rw (e, find_names) refl

pub kernel-at :
    (d : Disk) (k : ℕ) (p : FilePath) (n : Text) (names : List Text) (q : FilePath)
    → look_up d p n ≡ at q
    → kernel d k p (n ∷ names) ≡ kernel d k q names
unfolding kernel find_names
kernel-at d zero p n names q e = rw (e, find_names) refl
kernel-at d (suc k) p n names q e = rw (e, find_names) refl

-- Where a link is passed, one link fewer can be followed.
pub kernel-through :
    (d : Disk) (k : ℕ) (p : FilePath) (n : Text) (names : List Text) (t : Text) (x : FilePath × ℕ)
    → look_up d p n ≡ through t
    → kernel d k p (n ∷ names) ≡ some x
    → (j : ℕ) × (j < k) × (kernel d j (start_of p t) (split b'/' t ++ names) ≡ some x)
unfolding kernel find_names
kernel-through d zero p n names t x e h =
    let h' : ◌≡◌ {A = Found} none (some x) = rw (e, find_names) at h in cc
kernel-through d (suc k) p n names t x e h = (k, omega arith, rw (e, find_names) at h)

-- The first names lead somewhere if all do.
pub kernel-first :
    (d : Disk) (k : ℕ) (p : FilePath) (a b : List Text) (x : FilePath × ℕ)
    → kernel d k p (a ++ b) ≡ some x
    → (m : FilePath) × (j : ℕ) × (j ≤ k)
      × (kernel d k p a ≡ some (m, j))
      × (kernel d j m b ≡ some x)
kernel-first d k p a b x h =
    let h' : go_on d (kernel d k p a) b ≡ some x = sym (kernel-append d k p a b) ∙ h in
    elim (Option-cases (kernel d k p a)) [
      | inl e ↦ let h'' : ◌≡◌ {A = Found} none (some x) = rw e at h' in cc
      | inr ((m, j), e) ↦ (m, j, kernel-le d k p a m j e, e, rw e at h')
    ]
