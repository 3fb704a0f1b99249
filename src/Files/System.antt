-- ===== src/Files/System.antt =====
-- The calls of `os` that prax_sandbox/fileops.py makes, on a path that the system finds first.
use prax_sandbox.Base.{ℕ, Bool, true, false, [], ◌∷◌, Option, none, some, if◌then◌else◌, take}
use prax_sandbox.Text.{Text}
use prax_sandbox.Files.Disk.{FilePath, Node, file, directory, special, Disk, node_at, put}
use prax_sandbox.Files.Kernel.{is_directory, kernel, names_of, max_links}

-- Where the system finds a path, every link followed.
unfoldable pub find_place : Disk → FilePath → Option FilePath
find_place d p = elim (kernel d max_links [] (names_of p)) [ none ↦ none | some (m, k) ↦ some m ]

-- `os.stat`
unfoldable pub stat : Disk → FilePath → Option Node
unfolding find_place
stat d p = elim (find_place d p) [ none ↦ none | some m ↦ node_at d m ]

-- `os.path.exists` and `os.path.isdir`
abbrev pub is_there : Option Node → Bool
is_there none = false
is_there (some n) = true

abbrev pub exists : Disk → FilePath → Bool
exists d p = is_there (stat d p)

-- Where an entry of a directory is made.
abbrev pub directory_at : Disk → Option FilePath → Option FilePath
directory_at d none = none
directory_at d (some m) = if is_directory (node_at d m) then some m else none

unfoldable pub make_entry : Disk → Option FilePath → Text → Option Disk
make_entry d none n = none
make_entry d (some m) n = elim (node_at d (n ∷ m)) [
  | none ↦ some (put d (n ∷ m) directory)
  | some _ ↦ none
]

-- `os.mkdir`; `none` is its `OSError`.
unfoldable pub mkdir : Disk → FilePath → Option Disk
unfolding make_entry find_place
mkdir d [] = none
mkdir d (n ∷ p) = make_entry d (directory_at d (find_place d p)) n

-- What `os.makedirs(…, exist_ok=True)` makes of `mkdir`.
abbrev pub or_is_directory : Disk → FilePath → Option Disk → Disk × Bool
or_is_directory d p (some d') = (d', true)
or_is_directory d p none = (d, is_directory (stat d p))

-- `mkdir`, after what was made above.
unfoldable pub make_last : Text → FilePath → Disk × Bool → Disk × Bool
unfolding mkdir stat
make_last n p (d, true) = or_is_directory d (n ∷ p) (mkdir d (n ∷ p))
make_last n p (d, false) = (d, false)

-- The disk, and whether there was no error.
unfoldable pub make_dirs : Disk → FilePath → Disk × Bool
unfolding make_last
make_dirs d [] = (d, true)
make_dirs d (n ∷ p) =
    let above = make_dirs d p in make_last n p (if exists d p then (d, true) else above)

-- What one `os.write` puts in a file: Linux takes no more than this at once.
abbrev pub max_write : ℕ
max_write = 0x7ffff000

unfoldable pub written : Text → Text
written contents = take max_write contents

unfoldable pub write_entry : Disk → Option FilePath → Text → Text → Disk × Bool
write_entry d none n contents = (d, false)
write_entry d (some m) n contents = elim (node_at d (n ∷ m)) [
  | none ↦ (put d (n ∷ m) (file (written contents)), true)
  | some (file _) ↦ (put d (n ∷ m) (file (written contents)), true)
  | some special ↦ (d, true)
  | some _ ↦ (d, false)
]

-- `os.open` with `O_WRONLY | O_CREAT | O_TRUNC | O_NOFOLLOW`, and one `os.write`.
unfoldable pub open_write : Disk → FilePath → Text → Disk × Bool
unfolding write_entry find_place
open_write d [] contents = (d, false)
open_write d (n ∷ p) contents = write_entry d (directory_at d (find_place d p)) n contents
