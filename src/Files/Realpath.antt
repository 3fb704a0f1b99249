-- ===== src/Files/Realpath.antt =====
-- `os.path.realpath` of Python 3.13 with `strict=False`, which `confine` and `resolve_user_root` of
-- prax_sandbox/fileops.py call: the stack of the parts that are left, with a mark below those of
-- each link, and the links that were seen, with what they lead to once that is known.
pub mod Ends
use prax_sandbox.Base.{
  ℕ, zero, suc, Bool, true, false, List, [], ◌∷◌, ◌++◌, Option, none, some, if◌then◌else◌, ◌==◌,
  ◌||◌, is_empty, length, map,
}
use prax_sandbox.Text.{Text, codes, text_eq, split, starts_with}
use prax_sandbox.Files.Disk.{FilePath, path_eq, Disk, link_at, parent}

pub data Part : Type 0 where
  name : Text → Part
  -- The link is resolved when this is reached.
  mark : FilePath → Part

abbrev pub Seen : Type 0
Seen = List (FilePath × Option FilePath)

unfoldable pub find_seen : Seen → FilePath → Option (Option FilePath)
find_seen [] p = none
find_seen ((q, r) ∷ seen) p = let rest = find_seen seen p in if q == p then some r else rest

abbrev pub parts_of : Text → List Part
parts_of t = map name (split b'/' t)

abbrev pub is_absolute : Text → Bool
is_absolute t = starts_with (codes "/") t

-- Where the target of a link starts.
abbrev pub start_of : FilePath → Text → FilePath
start_of p t = if is_absolute t then [] else p

abbrev pub is_skipped : Text → Bool
is_skipped n = is_empty n || n == codes "."

abbrev pub is_up : Text → Bool
is_up n = n == codes ".."

pub data Step : Type 0 where
  -- To a path; the link that was seen is resolved to it, or is met again while it is resolved.
  to : FilePath → Step
  follow : FilePath → Text → Step

abbrev pub seen_or : Option (Option FilePath) → FilePath → Text → Step
seen_or none q t = follow q t
seen_or (some none) q t = to q
seen_or (some (some r)) q t = to r

abbrev pub lstat_step : Option Text → Seen → FilePath → Step
lstat_step none seen q = to q
lstat_step (some t) seen q = seen_or (find_seen seen q) q t

unfoldable pub name_step : Disk → Seen → FilePath → Text → Step
name_step d seen p n =
    if is_skipped n
    then to p
    else if is_up n
    then to (parent p)
    else lstat_step (link_at d (n ∷ p)) seen (n ∷ p)

-- The loop, up to the next link that is followed, which is left to `more`.
unfoldable pub walk :
    Disk
    → (Seen → FilePath → List Part → Option FilePath)
    → Seen
    → FilePath
    → List Part
    → Option FilePath
walk d more seen p [] = some p
walk d more seen p (mark q ∷ rest) = walk d more ((q, some p) ∷ seen) p rest
walk d more seen p (name n ∷ rest) = elim (name_step d seen p n) [
  | to q ↦ walk d more seen q rest
  | follow q t ↦ more ((q, none) ∷ seen) (start_of p t) (parts_of t ++ (mark q ∷ rest))
]

-- At most so many links are followed.
unfoldable pub resolve : Disk → ℕ → Seen → FilePath → List Part → Option FilePath
resolve d zero seen p rest = walk d (λ seen p rest. none) seen p rest
resolve d (suc k) seen p rest = walk d (resolve d k) seen p rest

-- Each link is followed once, so the entries of the disk are enough.
unfoldable pub realpath : Disk → FilePath → List Part → Option FilePath
unfolding resolve
realpath d p parts = resolve d (length d) [] p parts
