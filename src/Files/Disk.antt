-- ===== src/Files/Disk.antt =====
-- A file system as prax_sandbox/fileops.py meets it: what stands at each path, links included. A path
-- is the list of its names, the last one first, and `[]` is the root. Texts hold no NUL character.
use prax_sandbox.Base.{
  ◌≡◌, ◌↔◌, Bool, true, false, ◌&&◌, List, [], ◌∷◌, Option, none, some, arith, if◌then◌else◌, Key,
  ◌==◌,
}
use prax_sandbox.Text.{Text, text_eq, text_beq, text_beq_iff}

abbrev pub FilePath : Type 0
FilePath = List Text

unfoldable pub path_beq : FilePath → FilePath → Bool
path_beq [] [] = true
path_beq [] (_ ∷ _) = false
path_beq (_ ∷ _) [] = false
path_beq (a ∷ p) (b ∷ q) = text_beq a b && path_beq p q

pub path_beq_iff : (p q : FilePath) → (path_beq p q ≡ true) ↔ (p ≡ q)
unfolding path_beq
path_beq_iff [] [] = ground arith
path_beq_iff [] (b ∷ q) = ground arith
path_beq_iff (a ∷ p) [] = ground arith
path_beq_iff (a ∷ p) (b ∷ q) = ground (arith, text_beq_iff a b, path_beq_iff p q)

instance abbrev pub path_eq : Key FilePath
path_eq = record { equals = path_beq; equals_iff = path_beq_iff }

pub data Node : Type 0 where
  file : Text → Node
  directory : Node
  -- A symbolic link, with the text of its target.
  link : Text → Node
  -- A device, a pipe or a socket.
  special : Node

-- The entries of the disk but for the root; the first one for a path counts.
abbrev pub Disk : Type 0
Disk = List (FilePath × Node)

unfoldable pub entry_at : Disk → FilePath → Option Node
entry_at [] p = none
entry_at ((q, n) ∷ d) p = let rest = entry_at d p in if q == p then some n else rest

-- `os.lstat`
unfoldable pub node_at : Disk → FilePath → Option Node
node_at d [] = some directory
node_at d (n ∷ p) = entry_at d (n ∷ p)

abbrev pub target_of : Option Node → Option Text
target_of (some (link t)) = some t
target_of _ = none

-- `os.readlink`, where the path is a link.
abbrev pub link_at : Disk → FilePath → Option Text
link_at d p = target_of (node_at d p)

abbrev pub put : Disk → FilePath → Node → Disk
put d p n = (p, n) ∷ d

abbrev pub parent : FilePath → FilePath
parent [] = []
parent (n ∷ p) = p
