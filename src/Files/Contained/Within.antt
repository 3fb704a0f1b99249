-- ===== src/Files/Contained/Within.antt =====
-- Paths within a root, and what `confine` of prax_sandbox/fileops.py returns.
use prax_sandbox.Base.{
  ◌≡◌, ap, inl, inr, true, List, [], ◌∷◌, ◌++◌, Option, none, some, arith, Bool-cases, ◌==◌, map,
}
use prax_sandbox.Text.{Text, split}
use prax_sandbox.Files.Disk.{FilePath, path_eq, Disk}
use prax_sandbox.Files.Realpath.{name, is_absolute, realpath}
use prax_sandbox.Files.Kernel.{names_of}
use prax_sandbox.Files.Confined.{is_below, is_within, within, confine_names, confine}
use prax_sandbox.Files.Growth.{is_under, Keeps, Keeps-realpath}

is_within-under : (root p : FilePath) → is_within root p ≡ true → is_under root p ≡ true
is_within-under root p h = ground arith

is_below_trans :
    (root dest p : FilePath)
    → is_under root dest ≡ true
    → is_below dest p ≡ true
    → is_below root p ≡ true
unfolding is_below
is_below_trans root dest [] above h = cc
is_below_trans root dest (n ∷ p) above h = elim (Bool-cases (p == dest)) [
  | inl same ↦
      let e : p ≡ dest = (path_eq.equals_iff p dest).0 same in
      let above' : is_under root p ≡ true = rw e above in ground arith
  | inr other ↦
      let h' : is_below dest p ≡ true = rw other at h in
      let below = is_below_trans root dest p above h' in ground arith
]

pub is_under_trans :
    (root dest p : FilePath)
    → is_under root dest ≡ true
    → is_under dest p ≡ true
    → is_under root p ≡ true
is_under_trans root dest p above h = elim (Bool-cases (p == dest)) [
  | inl same ↦ let e : p ≡ dest = (path_eq.equals_iff p dest).0 same in rw e above
  | inr other ↦
      let h' : is_below dest p ≡ true = rw other at h in
      let below = is_below_trans root dest p above h' in ground arith
]

-- What `confine` returns: a path within the root, which stays safe.
pub record IsConfined (d : Disk) (root p : FilePath) : Type 0 where
  pub under : is_under root p ≡ true
  pub keeps : Keeps d p

pub within-some :
    (root : FilePath) (o : Option FilePath) (p : FilePath)
    → within root o ≡ some p
    → (o ≡ some p) × (is_under root p ≡ true)
within-some root none p h = cc
within-some root (some q) p h = elim (Bool-cases (is_within root q)) [
  | inl e ↦
      let h' : ◌≡◌ {A = Option FilePath} (some q) (some p) = rw e at h in
      let same : q ≡ p = ground arith in (ap some same, rw (← same) (is_within-under root q e))
  | inr e ↦ let h' : ◌≡◌ {A = Option FilePath} none (some p) = rw e at h in cc
]

pub confine_names-IsConfined :
    (d : Disk) (root : FilePath) (names : List Text) (p : FilePath)
    → confine_names d root names ≡ some p
    → IsConfined d root p
confine_names-IsConfined d root names p h =
    let (found, under) = within-some root (realpath d [] (map name (names_of root ++ names))) p h in
    record { under = under; keeps = Keeps-realpath d (names_of root ++ names) p found }

pub confine-IsConfined :
    (d : Disk) (root : FilePath) (rel : Text) (p : FilePath)
    → confine d root rel ≡ some p
    → IsConfined d root p
unfolding confine
confine-IsConfined d root rel p h = elim (Bool-cases (is_absolute rel)) [
  | inl e ↦ let h' : ◌≡◌ {A = Option FilePath} none (some p) = rw (e, confine) at h in cc
  | inr e ↦ confine_names-IsConfined d root (split b'/' rel) p (rw (e, confine) at h)
]
