-- ===== src/Files/Walk.antt =====
-- `os.walk` without following links, as prax_sandbox/fileops.py calls it: the files of a directory,
-- then those of each directory in it. The order of a directory is that of the disk's entries.
pub mod Finds
pub mod Exact
use prax_sandbox.Base.{
  ℕ, zero, suc, ◌+◌, max, Bool, true, false, not, ◌||◌, ◌&&◌, List, [], ◌∷◌, ◌++◌, Option, none,
  some, if◌then◌else◌, ◌==◌, contains, length, keep,
}
use prax_sandbox.Text.{Text, text_eq}
use prax_sandbox.Files.Disk.{FilePath, path_eq, Node, Disk, node_at, link_at}
use prax_sandbox.Files.Kernel.{is_directory}
use prax_sandbox.Files.System.{stat, is_there}

-- A name that the entry has in the directory.
abbrev pub name_in : FilePath → FilePath → List Text
name_in p [] = []
name_in p (n ∷ q) = if q == p then n ∷ [] else []

abbrev pub add_new : List Text → List Text → List Text
add_new new names = keep (λ n. not (contains names n)) new ++ names

-- `os.scandir`: each name once.
unfoldable pub names_in : Disk → FilePath → List Text
names_in [] p = []
names_in ((q, node) ∷ d) p = add_new (name_in p q) (names_in d p)

-- `os.path.islink` and `os.path.isdir`
abbrev pub is_link : Option Text → Bool
is_link none = false
is_link (some t) = true

abbrev pub islink : Disk → FilePath → Bool
islink d p = is_link (link_at d p)

abbrev pub isdir : Disk → FilePath → Bool
isdir d p = is_directory (stat d p)

abbrev pub children : FilePath → List Text → List FilePath
children p [] = []
children p (n ∷ names) = (n ∷ p) ∷ children p names

-- Links to directories are with the directories, and are not entered.
abbrev pub files_in : Disk → FilePath → List FilePath
files_in d p = keep (λ q. not (isdir d q)) (children p (names_in d p))

abbrev pub dirs_in : Disk → FilePath → List FilePath
dirs_in d p = keep (λ q. isdir d q && not (islink d q)) (children p (names_in d p))

abbrev pub for_each : (FilePath → List FilePath) → List FilePath → List FilePath
for_each f [] = []
for_each f (p ∷ ps) = f p ++ for_each f ps

-- So many levels of directories.
unfoldable pub walk_files : ℕ → Disk → FilePath → List FilePath
unfolding names_in stat
walk_files zero d p = []
walk_files (suc k) d p = files_in d p ++ for_each (walk_files k d) (dirs_in d p)

-- The length of the longest path.
unfoldable pub depth : Disk → ℕ
depth [] = 0
depth ((p, node) ∷ d) = max (length p) (depth d)

-- Nothing where the start is no directory.
unfoldable pub walk : Disk → FilePath → List FilePath
unfolding walk_files depth
walk d start = if isdir d start then walk_files (suc (depth d)) d start else []
