-- ===== src/Files/Kernel.antt =====
-- How the system finds the file of a path that prax_sandbox/fileops.py hands it: every name is looked
-- up in a directory, and at most 40 links are followed.
pub mod Chains
pub mod Agrees
use prax_sandbox.Base.{
  ℕ, zero, suc, Bool, true, false, List, [], ◌∷◌, ◌++◌, Option, none, some, if◌then◌else◌, ◌==◌,
  not,
}
use prax_sandbox.Text.{Text, split}
use prax_sandbox.Files.Disk.{
  FilePath, Node, file, directory, link, special, Disk, node_at, target_of, link_at, parent,
}
use prax_sandbox.Files.Realpath.{start_of, is_skipped, is_up}

pub data Lookup : Type 0 where
  -- No such directory.
  stuck : Lookup
  at : FilePath → Lookup
  through : Text → Lookup

abbrev pub is_directory : Option Node → Bool
is_directory (some directory) = true
is_directory _ = false

abbrev pub link_lookup : Option Text → FilePath → Lookup
link_lookup none q = at q
link_lookup (some t) q = through t

unfoldable pub look_up : Disk → FilePath → Text → Lookup
look_up d p n =
    if not (is_directory (node_at d p))
    then stuck
    else if is_skipped n
    then at p
    else if is_up n
    then at (parent p)
    else link_lookup (link_at d (n ∷ p)) (n ∷ p)

-- Where it arrives, and how many links it could still follow; `more` does so once.
unfoldable pub find_names :
    Disk
    → ℕ
    → (FilePath → List Text → Option (FilePath × ℕ))
    → FilePath
    → List Text
    → Option (FilePath × ℕ)
find_names d k more p [] = some (p, k)
find_names d k more p (n ∷ rest) = elim (look_up d p n) [
  | stuck ↦ none
  | at q ↦ find_names d k more q rest
  | through t ↦ more (start_of p t) (split b'/' t ++ rest)
]

unfoldable pub kernel : Disk → ℕ → FilePath → List Text → Option (FilePath × ℕ)
kernel d zero = find_names d zero (λ p names. none)
kernel d (suc k) = find_names d (suc k) (kernel d k)

-- The names of a path, from the root on.
abbrev pub names_of : FilePath → List Text
names_of [] = []
names_of (n ∷ p) = names_of p ++ (n ∷ [])

abbrev pub max_links : ℕ
max_links = 40
