-- ===== src/Files/Growth/Calls/Made.antt =====
-- Directories and files are made below the root, and nowhere else.
use prax_sandbox.Base.{
  ◌≡◌, ◌≢◌, refl, sym, ◌∙◌, inl, inr, true, [], ◌∷◌, Option, none, some, arith, Option-cases,
  if◌then◌else◌,
}
use prax_sandbox.Text.{Text}
use prax_sandbox.Files.Disk.{
  FilePath, path_eq, Node, file, directory, link, special, Disk, node_at, put,
}
use prax_sandbox.Files.Kernel.{stuck, look_up, is_directory, kernel, names_of, max_links}
use prax_sandbox.Files.Kernel.Chains.{kernel-first, kernel-stuck, Found}
use prax_sandbox.Files.Kernel.Agrees.{IsSafe}
use prax_sandbox.Files.Kernel.Agrees.Safe.{kernel-IsSafe}
use prax_sandbox.Files.System.{
  find_place, stat, exists, directory_at, make_entry, mkdir, or_is_directory, write_entry, written,
  open_write,
}
use prax_sandbox.Files.Growth.{is_under, Grows, Grows-refl, put-Grows}
use prax_sandbox.Files.Growth.Calls.{look_up-directory, IsRoot}

-- The system finds a safe path at its place, if it does.
pub find_place-IsSafe : (d : Disk) (p m : FilePath) → IsSafe d p → find_place d p ≡ some m → m ≡ p
unfolding find_place
find_place-IsSafe d p m safe h = elim (Option-cases (kernel d max_links [] (names_of p))) [
  | inl e ↦ let h' : ◌≡◌ {A = Option FilePath} none (some m) = rw (e, find_place) at h in cc
  | inr ((m', k), e) ↦
      let same : m' ≡ m = (let h' : some m' ≡ some m = rw (e, find_place) at h in ground arith) in
      sym same ∙ kernel-IsSafe d p max_links m' k safe e
]

pub directory_at-find :
    (d : Disk) (p m : FilePath) → IsSafe d p → directory_at d (find_place d p) ≡ some m → m ≡ p
directory_at-find d p m safe h = elim (Option-cases (find_place d p)) [
  | inl e ↦ let h' : ◌≡◌ {A = Option FilePath} none (some m) = rw e at h in cc
  | inr (m', e) ↦
      let there = find_place-IsSafe d p m' safe e in
      let h' : (if is_directory (node_at d m') then some m' else none) ≡ some m = rw e at h in
      let same : m' ≡ m = ground arith in sym same ∙ there
]

-- The root's parent is a directory that the system finds.
pub exists-above : (d : Disk) (n : Text) (p : FilePath) → IsRoot d (n ∷ p) → exists d p ≡ true
unfolding stat find_place
exists-above d n p r =
    let (m, j, le, first, then') =
      kernel-first d max_links [] (names_of p) (n ∷ []) (n ∷ p, r.left) r.found in
    let moves : look_up d m n ≢ stuck = λ e.
      let h : ◌≡◌ {A = Found} none (some (n ∷ p, r.left)) =
        sym (kernel-stuck d j m n [] e) ∙ then' in
      cc in
    rw (first, stat, find_place, look_up-directory d m n moves) refl

module _ (root : FilePath) (d : Disk) where
  make_entry-Grows :
      (n : Text) (p : FilePath) (o : Option FilePath) (d' : Disk)
      → is_under root (n ∷ p) ≡ true
      → ((m : FilePath) → o ≡ some m → m ≡ p)
      → make_entry d o n ≡ some d'
      → Grows root d d'
  unfolding make_entry
  make_entry-Grows n p none d' under only h = cc
  make_entry-Grows n p (some m) d' under only h = elim (Option-cases (node_at d (n ∷ m))) [
    | inr (x, e) ↦ let h' : ◌≡◌ {A = Option Disk} none (some d') = rw (e, make_entry) at h in cc
    | inl e ↦
        let h' : ◌≡◌ {A = Option Disk} (some (put d (n ∷ m) directory)) (some d') =
          rw (e, make_entry) at h in
        let same : put d (n ∷ m) directory ≡ d' = ground arith in
        let at_p : m ≡ p = only m refl in
        rw (← same) (put-Grows root d n m directory (rw at_p under) tt (rw e tt))
  ]

  or_is_directory-Grows :
      (p : FilePath) (o : Option Disk)
      → ((d' : Disk) → o ≡ some d' → Grows root d d')
      → Grows root d (or_is_directory d p o).0
  or_is_directory-Grows p none h = Grows-refl root d
  or_is_directory-Grows p (some d') h = h d' refl

  pub mkdir-Grows :
      (n : Text) (p : FilePath)
      → is_under root (n ∷ p) ≡ true
      → IsSafe d p
      → Grows root d (or_is_directory d (n ∷ p) (mkdir d (n ∷ p))).0
  unfolding mkdir
  mkdir-Grows n p under safe = or_is_directory-Grows (n ∷ p) (mkdir d (n ∷ p)) (λ d'.
      make_entry-Grows n p (directory_at d (find_place d p)) d' under
        (λ m. directory_at-find d p m safe))

  write_entry-Grows :
      (n : Text) (p : FilePath) (o : Option FilePath) (contents : Text)
      → is_under root (n ∷ p) ≡ true
      → ((m : FilePath) → o ≡ some m → m ≡ p)
      → Grows root d (write_entry d o n contents).0
  unfolding write_entry
  write_entry-Grows n p none contents under only = Grows-refl root d
  write_entry-Grows n p (some m) contents under only =
      let at_p : m ≡ p = only m refl in
      let under' : is_under root (n ∷ m) ≡ true = rw at_p under in
      elim (Option-cases (node_at d (n ∷ m))) [
        | inl e ↦
            rw (e, write_entry) (put-Grows root d n m (file (written contents)) under' tt (rw e tt))
        | inr (x, e) ↦ by_node m under' x e
      ]
    where
      by_node :
          (m : FilePath)
          → is_under root (n ∷ m) ≡ true
          → (x : Node) → node_at d (n ∷ m) ≡ some x
          → Grows root d (write_entry d (some m) n contents).0
      by_node m under' (file t) e =
          rw (e, write_entry) (put-Grows root d n m (file (written contents)) under' tt (rw e tt))
      by_node m under' directory e = rw (e, write_entry) (Grows-refl root d)
      by_node m under' (link t) e = rw (e, write_entry) (Grows-refl root d)
      by_node m under' special e = rw (e, write_entry) (Grows-refl root d)

  pub open_write-Grows :
      (p : FilePath) (contents : Text)
      → is_under root p ≡ true
      → IsSafe d p
      → Grows root d (open_write d p contents).0
  unfolding open_write
  open_write-Grows [] contents under safe = Grows-refl root d
  open_write-Grows (n ∷ p) contents under safe =
      write_entry-Grows n p (directory_at d (find_place d p)) contents under
        (λ m. directory_at-find d p m safe.0)
