-- ===== src/Files/Growth/Calls.antt =====
-- The calls of `os` on a path below the root.
pub mod Made
use prax_sandbox.Base.{
  ℕ, zero, suc, ◌≡◌, ◌≢◌, refl, sym, ap, ◌∙◌, ◌⊎◌, inl, inr, Bool, true, false, not, ◌||◌, List, [],
  ◌∷◌, ◌++◌, Option, none, some, arith, Bool-cases, Option-cases, if◌then◌else◌, ◌==◌,
}
use prax_sandbox.Text.{Text, split}
use prax_sandbox.Files.Disk.{
  FilePath, path_eq, Node, file, directory, link, special, Disk, node_at, link_at, parent,
}
use prax_sandbox.Files.Realpath.{start_of, is_skipped, is_up}
use prax_sandbox.Files.Kernel.{
  Lookup, stuck, at, through, is_directory, link_lookup, look_up, find_names, kernel, names_of,
  max_links,
}
use prax_sandbox.Files.Kernel.Chains.{Lookup-cases, kernel-first, Found}
use prax_sandbox.Files.Growth.{is_under, Grows}

is_directory-some : (o : Option Node) → is_directory o ≡ true → o ≡ some directory
is_directory-some none h = cc
is_directory-some (some (file t)) h = cc
is_directory-some (some directory) h = refl
is_directory-some (some (link t)) h = cc
is_directory-some (some special) h = cc

-- Something is found only in a directory.
pub look_up-directory :
    (d : Disk) (p : FilePath) (n : Text) → look_up d p n ≢ stuck → node_at d p ≡ some directory
unfolding look_up
look_up-directory d p n h = elim (Bool-cases (is_directory (node_at d p))) [
  | inl e ↦ is_directory-some (node_at d p) e
  | inr e ↦ absurd (h (rw (e, look_up) refl))
]

module _ (root : FilePath) (d d' : Disk) (g : Grows root d d') where
  look_up-Grows :
      (p : FilePath) (n : Text) (l : Lookup) → l ≢ stuck → look_up d p n ≡ l → look_up d' p n ≡ l
  unfolding look_up
  look_up-Grows p n l moved e =
      let was = look_up-directory d p n (λ e'. moved (sym e ∙ e')) in
      let is = g.directories p was in
      let e' : (if is_skipped n
            then at p
            else if is_up n
            then at (parent p)
            else link_lookup (link_at d (n ∷ p)) (n ∷ p))
          ≡ l =
        rw (was, look_up) at e in
      rw (is, g.links (n ∷ p), look_up) e'

  find_names-Grows :
      (k : ℕ) (more more' : FilePath → List Text → Found)
      → ((p : FilePath) (names : List Text) (x : FilePath × ℕ)
          → more p names ≡ some x
          → more' p names ≡ some x)
      → (p : FilePath) (names : List Text) (x : FilePath × ℕ) → find_names d k more p names ≡ some x
      → find_names d' k more' p names ≡ some x
  unfolding find_names
  find_names-Grows k more more' grow p [] x h = h
  find_names-Grows k more more' grow p (n ∷ names) x h = elim (Lookup-cases (look_up d p n)) [
    | inl e ↦ let h' : ◌≡◌ {A = Found} none (some x) = rw (e, find_names) at h in cc
    | inr (inl (q, e)) ↦
        rw (look_up-Grows p n (at q) (λ x. cc) e, find_names)
          (find_names-Grows k more more' grow q names x (rw (e, find_names) at h))
    | inr (inr (t, e)) ↦
        rw (look_up-Grows p n (through t) (λ x. cc) e, find_names)
          (grow (start_of p t) (split b'/' t ++ names) x (rw (e, find_names) at h))
  ]

  -- What the system found, it still finds.
  pub kernel-Grows :
      (k : ℕ) (p : FilePath) (names : List Text) (x : FilePath × ℕ)
      → kernel d k p names ≡ some x
      → kernel d' k p names ≡ some x
  unfolding kernel
  kernel-Grows zero = find_names-Grows 0 (λ p names. none) (λ p names. none) (λ p names x h. h)
  kernel-Grows (suc k) = find_names-Grows (suc k) (kernel d k) (kernel d' k) (kernel-Grows k)

-- A directory that the system finds by this path.
pub record IsRoot (d : Disk) (root : FilePath) : Type 0 where
  pub is_dir : node_at d root ≡ some directory
  pub left : ℕ
  pub found : kernel d max_links [] (names_of root) ≡ some (root, left)

pub IsRoot-Grows :
    (root : FilePath) (d d' : Disk) → Grows root d d' → IsRoot d root → IsRoot d' root
IsRoot-Grows root d d' g r = record {
  is_dir = g.directories root r.is_dir;
  left = r.left;
  found = kernel-Grows root d d' g max_links [] (names_of root) (root, r.left) r.found;
}
