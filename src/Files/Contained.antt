-- ===== src/Files/Contained.antt =====
-- Directories on the way to a path below the root, and the containment of the operations of
-- prax_sandbox/fileops.py.
pub mod Within
pub mod Operations
pub mod Reads
pub mod Confines
pub mod Writes
use prax_sandbox.Base.{
  ℕ, zero, suc, ◌≡◌, ◌≢◌, refl, sym, ap, ◌∙◌, ◌⊎◌, inl, inr, Bool, true, false, not, ◌||◌, ◌&&◌,
  List, [], ◌∷◌, ◌++◌, Option, none, some, arith, Bool-cases, Option-cases, if◌then◌else◌, ◌==◌,
  is_empty,
}
use prax_sandbox.Text.{Text}
use prax_sandbox.Files.Disk.{FilePath, path_eq, directory, Disk, node_at, link_at, parent}
use prax_sandbox.Files.Kernel.{kernel, names_of, max_links, is_directory, look_up, stuck}
use prax_sandbox.Files.Kernel.Chains.{kernel-first, kernel-stuck, Found}
use prax_sandbox.Files.Kernel.Agrees.{IsSafe}
use prax_sandbox.Files.Kernel.Agrees.Safe.{kernel-IsSafe}
use prax_sandbox.Files.System.{
  find_place, stat, is_there, exists, make_entry, mkdir, or_is_directory, make_last, make_dirs,
  open_write,
}
use prax_sandbox.Files.Confined.{
  is_below, is_within, after_dirs, confine_names, relative, write_confined,
}
use prax_sandbox.Files.Growth.{
  is_under, Grows, Grows-refl, Grows-trans, Keeps, Keeps-links, Keeps-parent,
}
use prax_sandbox.Files.Growth.Calls.{look_up-directory, IsRoot, IsRoot-Grows}
use prax_sandbox.Files.Growth.Calls.Made.{exists-above, mkdir-Grows, open_write-Grows}

IsRoot-parent : (d : Disk) (n : Text) (p : FilePath) → IsSafe d p → IsRoot d (n ∷ p) → IsRoot d p
IsRoot-parent d n p safe r =
    let (m, j, le, first, then') =
      kernel-first d max_links [] (names_of p) (n ∷ []) (n ∷ p, r.left) r.found in
    let same : m ≡ p = kernel-IsSafe d p max_links m j safe first in
    let moves : look_up d m n ≢ stuck = λ e.
      let h : ◌≡◌ {A = Found} none (some (n ∷ p, r.left)) =
        sym (kernel-stuck d j m n [] e) ∙ then' in
      cc in
    record {
      is_dir = rw same at (look_up-directory d m n moves);
      left = j;
      found = rw same at first;
    }

find_place-IsRoot : (d : Disk) (p : FilePath) → IsRoot d p → find_place d p ≡ some p
unfolding find_place
find_place-IsRoot d p r = rw (r.found, find_place) refl

pub stat-IsRoot : (d : Disk) (p : FilePath) → IsRoot d p → stat d p ≡ some directory
unfolding stat
stat-IsRoot d p r = rw (find_place-IsRoot d p r, stat) r.is_dir

mkdir-IsRoot :
    (d : Disk) (n : Text) (p : FilePath) → IsRoot d p → IsRoot d (n ∷ p) → mkdir d (n ∷ p) ≡ none
unfolding mkdir make_entry
mkdir-IsRoot d n p above r =
    rw (find_place-IsRoot d p above, mkdir, above.is_dir, make_entry, r.is_dir) refl

-- A directory that is found is left as it is.
pub make_dirs-IsRoot :
    (d : Disk) (p : FilePath) → IsSafe d p → IsRoot d p → make_dirs d p ≡ (d, true)
unfolding make_dirs make_last
make_dirs-IsRoot d [] safe r = refl
make_dirs-IsRoot d (n ∷ p) safe r =
    let above = IsRoot-parent d n p safe.0 r in
    let there : exists d p ≡ true = exists-above d n p r in
    let made : (if exists d p then (d, true) else make_dirs d p) ≡ (d, true) = rw there refl in
    ap (make_last n p) made
    ∙ ap (or_is_directory d (n ∷ p)) (mkdir-IsRoot d n p above r)
    ∙ rw (stat-IsRoot d (n ∷ p) r) refl

module _ (root : FilePath) where
  pub make_last-Grows :
      (d : Disk) (n : Text) (p : FilePath) (above : Disk × Bool)
      → is_under root (n ∷ p) ≡ true
      → Keeps d p
      → Grows root d above.0
      → Grows root d (make_last n p above).0
  unfolding make_last
  make_last-Grows d n p (d', true) under keeps g =
      Grows-trans root d d' _ g (mkdir-Grows root d' n p under (keeps d' g.links))
  make_last-Grows d n p (d', false) under keeps g = g

  is_under-parent :
      (n : Text) (p : FilePath)
      → is_under root (n ∷ p) ≡ true
      → ((n ∷ p) ≡ root) ⊎ (is_under root p ≡ true)
  unfolding is_below
  is_under-parent n p h = elim (Bool-cases ((n ∷ p) == root)) [
    | inl same ↦ inl ((path_eq.equals_iff (n ∷ p) root).0 same)
    | inr other ↦ inr (ground arith)
  ]

  pub make_dirs-Grows :
      (d : Disk) (p : FilePath)
      → IsRoot d root
      → Keeps d p
      → is_under root p ≡ true
      → Grows root d (make_dirs d p).0
  unfolding make_dirs
  make_dirs-Grows d [] r keeps under = Grows-refl root d
  make_dirs-Grows d (n ∷ p) r keeps under =
      let keeps' = Keeps-parent d n p keeps in
      let above : Disk × Bool = if exists d p then (d, true) else make_dirs d p in
      let grown : Grows root d above.0 = elim (Bool-cases (exists d p)) [
        | inl there ↦ rw there (Grows-refl root d)
        | inr gone ↦ elim (is_under-parent n p under) [
          | inl same ↦ let there = exists-above d n p (rw (← same) at r) in cc
          | inr under' ↦ rw gone (make_dirs-Grows d p r keeps' under')
        ]
      ] in
      make_last-Grows d n p above under keeps' grown
