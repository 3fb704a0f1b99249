-- ===== src/Files/Confined.antt =====
-- The operations of prax_sandbox/fileops.py. `root_real` is a path; where the source compares texts
-- with a separator at the end, paths are compared by names. A tar is its members in order, as
-- `tarfile` reads them.
use prax_sandbox.Base.{
  ℕ, ◌+◌, Bool, true, false, not, ◌&&◌, ◌||◌, List, [], ◌∷◌, ◌++◌, Option, none, some, ltb,
  if◌then◌else◌, ◌==◌, is_empty, length, take, map, contains,
}
use prax_sandbox.Text.{Text, codes, text_eq, split}
use prax_sandbox.Files.Disk.{FilePath, path_eq, Node, file, Disk, parent}
use prax_sandbox.Files.Realpath.{name, is_absolute, realpath}
use prax_sandbox.Files.Kernel.{names_of}
use prax_sandbox.Files.System.{stat, make_dirs, open_write}

pub data FileError : Type 0 where
  -- `PathEscape`
  escape : FileError
  not_found too_big too_many : FileError
  os_error : FileError

pub data Result (A : Type 0) : Type 0 where
  ok : A → Result A
  err : FileError → Result A

-- Below the path, at any depth.
unfoldable pub is_below : FilePath → FilePath → Bool
is_below root [] = false
is_below root (n ∷ p) = p == root || is_below root p

-- `target == root or target.startswith(root + "/")`; below the root `/` that text has two separators.
abbrev pub is_within : FilePath → FilePath → Bool
is_within root p = p == root || not (is_empty root) && is_below root p

abbrev pub within : FilePath → Option FilePath → Option FilePath
within root none = none
within root (some p) = if is_within root p then some p else none

abbrev pub confine_names : Disk → FilePath → List Text → Option FilePath
confine_names d root names = within root (realpath d [] (map name (names_of root ++ names)))

-- `none` is `PathEscape`.
unfoldable pub confine : Disk → FilePath → Text → Option FilePath
confine d root rel = if is_absolute rel then none else confine_names d root (split b'/' rel)

-- `os.path.relpath(parent, root_real)`, for the parent of a path that is confined: it is within the
-- root, or the root's own parent.
unfoldable pub names_below : FilePath → FilePath → List Text
names_below root [] = []
names_below root (n ∷ p) = if p == root then n ∷ [] else names_below root p ++ (n ∷ [])

abbrev pub relative : FilePath → FilePath → List Text
relative root p =
    if p == root
    then codes "." ∷ []
    else if is_below root p
    then names_below root p
    else codes ".." ∷ []

abbrev pub after_dirs : FilePath → Text → Disk × Bool → Disk × Bool
after_dirs p contents (d, true) = open_write d p contents
after_dirs p contents (d, false) = (d, false)

-- The parent is confined again; then the directories and the file are made.
unfoldable pub write_confined : Disk → FilePath → FilePath → Text → Disk × Result (Unit {0})
write_confined d root p contents = elim (confine_names d root (relative root (parent p))) [
  | none ↦ (d, err escape)
  | some _ ↦
      let (d', done) = after_dirs p contents (make_dirs d (parent p)) in
      (d', (if done then ok tt else err os_error))
]

unfoldable pub write_file : Disk → FilePath → Text → Text → Disk × Result ℕ
unfolding write_confined
write_file d root rel contents = elim (confine d root rel) [
  | none ↦ (d, err escape)
  | some p ↦
      let (d', r) = write_confined d root p contents in
      (d', elim r [ ok _ ↦ ok (length contents) | err e ↦ err e ])
]

abbrev pub read_node : Option Node → ℕ → Result Text
read_node (some (file contents)) max_bytes =
    if ltb max_bytes (length contents) then err too_big else ok (take max_bytes contents)
read_node _ max_bytes = err not_found

unfoldable pub read_file : Disk → FilePath → Text → ℕ → Result Text
read_file d root rel max_bytes = elim (confine d root rel) [
  | none ↦ err escape
  | some p ↦ read_node (stat d p) max_bytes
]

pub data Kind : Type 0 where
  file_member dir_member other_member : Kind

pub record Member : Type 0 where
  pub kind : Kind
  pub member_name : Text
  pub contents : Text

abbrev pub max_members : ℕ
max_members = 50000

abbrev pub is_other : Kind → Bool
is_other other_member = true
is_other _ = false

abbrev pub is_unsafe : Member → Bool
is_unsafe m =
    is_other m.kind || is_absolute m.member_name || contains (split b'/' m.member_name) (codes "..")

-- What one member makes of the disk; a file counts 1.
abbrev pub extract_at : Disk → FilePath → FilePath → Kind → Text → Disk × Result ℕ
extract_at d dest p file_member contents =
    let (d', r) = write_confined d dest p contents in (d', elim r [ ok _ ↦ ok 1 | err e ↦ err e ])
extract_at d dest p _ contents =
    let (d', done) = make_dirs d p in (d', (if done then ok 0 else err os_error))

unfoldable pub extract_member : Disk → FilePath → Member → Disk × Result ℕ
unfolding write_confined
extract_member d dest m =
    if is_unsafe m then (d, err escape) else elim (confine d dest m.member_name) [
      | none ↦ (d, err escape)
      | some p ↦ extract_at d dest p m.kind m.contents
    ]

abbrev pub after_member : (Disk → ℕ → Disk × Result ℕ) → Disk × Result ℕ → Disk × Result ℕ
after_member more (d, ok n) = more d n
after_member more (d, err e) = (d, err e)

-- The loop: it stops at the first error, and what was made before stays.
unfoldable pub extract_all : Disk → FilePath → List Member → ℕ → Disk × Result ℕ
extract_all d dest [] count = (d, ok count)
extract_all d dest (m ∷ members) count =
    after_member (λ d' n. extract_all d' dest members (count + n)) (extract_member d dest m)

unfoldable pub push_tar : Disk → FilePath → List Member → Text → Disk × Result ℕ
unfolding extract_all
push_tar d root members rel = elim (confine d root rel) [
  | none ↦ (d, err escape)
  | some dest ↦
      let (d', made) = make_dirs d dest in
      if not made
      then (d', err os_error)
      else if ltb max_members (length members)
      then (d', err too_many)
      else extract_all d' dest members 0
]
