-- ===== src/Files/Listing.antt =====
-- `list_dir`, `grep` and `pull_tar` of prax_sandbox/fileops.py. The size and the time of an entry are
-- left out; `fnmatch` is a parameter, and so is what a `Storage` holds.
pub mod Packs
mod Turns
pub mod Hits
mod Tests
use prax_sandbox.Base.{
  ℕ, zero, suc, ◌+◌, ◌-◌, Bool, true, false, not, ◌||◌, ◌&&◌, List, [], ◌∷◌, ◌++◌, Option, none,
  some, ltb, leb, if◌then◌else◌, ◌==◌, nat_eq, is_empty, length, take, map, contains,
}
use prax_sandbox.Text.{Text, codes, text_eq, join, has_text, lower, strip, is_space}
use prax_sandbox.Files.Disk.{FilePath, path_eq, Node, file, directory, link, special, Disk, node_at}
use prax_sandbox.Files.System.{find_place, stat, exists}
use prax_sandbox.Files.Confined.{
  FileError, escape, os_error, Result, ok, err, confine, relative, names_below,
}
use prax_sandbox.Files.Walk.{isdir, islink, names_in, children, walk}

abbrev pub max_entries : ℕ
max_entries = 20000

-- `os.path.relpath(full, root_real)`, as a text.
unfoldable pub rel_text : FilePath → FilePath → Text
rel_text root p = join (codes "/") (relative root p)

-- The type of an entry; `unknown` where `lstat` fails.
pub data EntryType : Type 0 where
  dir_entry file_entry unknown_entry : EntryType

pub record Entry : Type 0 where
  pub path : Text
  pub type : EntryType

abbrev pub entry_type : Bool → Option Node → EntryType
entry_type is_dir none = unknown_entry
entry_type is_dir (some n) = if is_dir then dir_entry else file_entry

unfoldable pub entry_of : Disk → FilePath → FilePath → Entry
entry_of d root p = record { path = rel_text root p; type = entry_type (isdir d p) (node_at d p) }

-- `sorted`, on code points.
unfoldable pub text_le : Text → Text → Bool
text_le [] t = true
text_le (a ∷ s) [] = false
text_le (a ∷ s) (b ∷ t) = ltb a b || a == b && text_le s t

unfoldable pub insert_text : Text → List Text → List Text
insert_text t [] = t ∷ []
insert_text t (u ∷ ts) = let rest = insert_text t ts in if text_le t u then t ∷ u ∷ ts else u ∷ rest

unfoldable pub sorted : List Text → List Text
unfolding insert_text text_le
sorted [] = []
sorted (t ∷ ts) = insert_text t (sorted ts)

-- A file that is no directory makes `os.listdir` raise an error.
abbrev pub list_names : Disk → FilePath → FilePath → Result (List Entry)
list_names d root start =
    if isdir d start
    then ok (take max_entries (map (entry_of d root) (children start (sorted (names_in d start)))))
    else err os_error

unfoldable pub list_dir : Disk → FilePath → Text → Bool → Result (List Entry)
unfolding entry_of sorted
list_dir d root rel recursive = elim (confine d root rel) [
  | none ↦ err escape
  | some start ↦
      if not (exists d start)
      then ok []
      else if recursive
      then ok (take max_entries (map (entry_of d root) (walk d start)))
      else list_names d root start
]

-- `str.splitlines`, where `\r\n` is one end.
abbrev pub is_line_end : ℕ → Bool
is_line_end c = leb 10 c && leb c 13 || leb 28 c && leb c 30 || c == 133 || c == 8232 || c == 8233

abbrev pub cons_line : ℕ → List Text → List Text
cons_line c [] = (c ∷ []) ∷ []
cons_line c (l ∷ ls) = (c ∷ l) ∷ ls

abbrev pub starts_lf : Text → Bool
starts_lf [] = false
starts_lf (c ∷ s) = c == 10

abbrev pub break_line : ℕ → Text → List Text → List Text
break_line c s lines =
    if c == 13 && starts_lf s
    then lines
    else if is_line_end c
    then [] ∷ lines
    else cons_line c lines

unfoldable pub splitlines : Text → List Text
splitlines [] = []
splitlines (c ∷ s) = break_line c s (splitlines s)

-- The first 500 of the first line that has it.
unfoldable pub first_line : List Text → Text → Text
first_line [] needle = []
first_line (line ∷ lines) needle =
    let rest = first_line lines needle in
    if has_text needle (lower line) then take 500 (strip is_space line) else rest

unfoldable pub first_match : Text → Text → Text
unfolding splitlines first_line
first_match text needle = first_line (splitlines text) needle

pub record Hit : Type 0 where
  pub path : Text
  pub session_id : Text
  pub snippet : Text

abbrev pub base_name : FilePath → Text
base_name [] = []
base_name (n ∷ p) = n

-- `os.path.basename(os.path.dirname(full))`
abbrev pub parent_name : FilePath → Text
parent_name [] = []
parent_name (n ∷ p) = base_name p

-- What is not on the disk as it is modelled: the decoding of a text; what `open` and `read` give of a
-- device or a pipe, where they return, and `none` where they fail; and the inode that a path has,
-- which is the same for all names of one file.
pub record Storage : Type 0 where
  pub decode : Text → Text
  pub special_text : FilePath → Option Text
  pub inode : FilePath → ℕ

-- What is read of a text.
abbrev pub read_part : Storage → Text → Text
read_part storage contents = take 1000000 (storage.decode contents)

-- The text that stands at a path, `none` where `open` fails; it is not looked at whether it is a
-- regular file.
abbrev pub read_text : Storage → FilePath → Option Node → Option Text
read_text storage p (some (file contents)) = some (read_part storage contents)
read_text storage p (some special) = elim (storage.special_text p) [
  | none ↦ none
  | some contents ↦ some (read_part storage contents)
]
read_text storage p _ = none

module _ (fnmatch : Text → Text → Bool) (storage : Storage) (d : Disk) (root : FilePath)
    (needle include' : Text) where
  abbrev pub hit_in : FilePath → Option Text → Option Hit
  hit_in p none = none
  hit_in p (some text) =
      if has_text needle (lower text)
      then some record {
        path = rel_text root p;
        session_id = parent_name p;
        snippet = first_match text needle;
      }
      else none

  -- What one file of the walk adds.
  unfoldable pub hit_of : FilePath → Option Hit
  hit_of p =
      if not (fnmatch (base_name p) include') || islink d p
      then none
      else hit_in p (read_text storage p (stat d p))

  -- The loop, with how many hits are left to `max_count`.
  unfoldable pub grep_files : List FilePath → ℕ → List Hit
  unfolding hit_of
  grep_files [] left = []
  grep_files (p ∷ ps) left = elim (hit_of p) [
    | none ↦ grep_files ps left
    | some h ↦ elim (leb left 1) [ true ↦ h ∷ [] | false ↦ h ∷ grep_files ps (left - 1) ]
  ]

unfoldable pub grep :
    (Text → Text → Bool) → Storage → Disk → FilePath → Text → Text → Text → ℕ → Result (List Hit)
unfolding grep_files
grep fnmatch storage d root query rel include' max_count = elim (confine d root rel) [
  | none ↦ err escape
  | some start ↦
      if is_empty query || not (exists d start)
      then ok []
      else ok (grep_files fnmatch storage d root (lower query) include' (walk d start) max_count)
]

-- A member of a tar: the text of its name and its contents; or, for a file that the tar holds under
-- another name, its name and that name, and no contents.
pub data TarMember : Type 0 where
  packed hard_link : Text → Text → TarMember

-- `tar.inodes`: the name under which a file was packed.
unfoldable pub packed_name : ℕ → List (ℕ × Text) → Option Text
packed_name i [] = none
packed_name i ((j, name) ∷ seen) =
    let rest = packed_name i seen in if j == i then some name else rest

-- `tar.add`, for a regular file.
abbrev pub add_file :
    Text → Text → ℕ → List (ℕ × Text) → Option Text → List TarMember × List (ℕ × Text)
add_file name contents i seen none = (packed name contents ∷ [], (i, name) ∷ seen)
add_file name contents i seen (some first) = (hard_link name first ∷ [], seen)

-- One turn of the loop.
abbrev pub tar_member :
    Storage
    → Disk
    → FilePath
    → List (ℕ × Text)
    → FilePath
    → Option Node
    → List TarMember × List (ℕ × Text)
tar_member storage d root seen p (some (file contents)) =
    if islink d p
    then ([], seen)
    else (let i = storage.inode p in
        add_file (rel_text root p) contents i seen (packed_name i seen))
tar_member storage d root seen p _ = ([], seen)

unfoldable pub tar_files :
    Storage → Disk → FilePath → List (ℕ × Text) → List FilePath → List TarMember
unfolding packed_name
tar_files storage d root seen [] = []
tar_files storage d root seen (p ∷ ps) =
    let (members, seen') = tar_member storage d root seen p (stat d p) in
    members ++ tar_files storage d root seen' ps

unfoldable pub pull_tar : Storage → Disk → FilePath → Text → Result (List TarMember)
unfolding tar_files
pull_tar storage d root rel = elim (confine d root rel) [
  | none ↦ err escape
  | some start ↦ if exists d start then ok (tar_files storage d root [] (walk d start)) else ok []
]
