-- ===== src/Files/Growth.antt =====
-- What the operations of prax_sandbox/fileops.py may do to a disk: below the root, make directories
-- and write files.
pub mod Calls
use prax_sandbox.Base.{
  ℕ, ◌≡◌, ◌≢◌, refl, sym, ap, ◌∙◌, ◌⊎◌, inl, inr, Bool, true, false, ◌||◌, List, [], ◌∷◌, ◌++◌,
  Option, none, some, arith, Bool-cases, Option-cases, if◌then◌else◌, ◌==◌, zero, suc, map, length,
  not,
}
use prax_sandbox.Text.{Text, split}
use prax_sandbox.Files.Disk.{
  FilePath, path_eq, Node, file, directory, link, special, Disk, entry_at, node_at, target_of,
  link_at, put, path_beq,
}
use prax_sandbox.Files.Realpath.{
  Part, name, mark, Seen, find_seen, parts_of, start_of, Step, lstat_step, name_step, walk, resolve,
  realpath,
}
use prax_sandbox.Files.Realpath.Ends.{Step-cases}
use prax_sandbox.Files.Kernel.{kernel, names_of}
use prax_sandbox.Files.Kernel.Agrees.{IsSafe}
use prax_sandbox.Files.Kernel.Agrees.Safe.{resolve-names-IsSafe}
use prax_sandbox.Files.Confined.{is_below}

abbrev pub is_under : FilePath → FilePath → Bool
is_under root p = p == root || is_below root p

-- Outside the root nothing changes, no link is made or lost, and directories stay.
pub record Grows (root : FilePath) (d d' : Disk) : Type 0 where
  pub outside : (p : FilePath) → is_under root p ≡ false → node_at d' p ≡ node_at d p
  pub links : (p : FilePath) → link_at d' p ≡ link_at d p
  pub directories : (p : FilePath) → node_at d p ≡ some directory → node_at d' p ≡ some directory

pub Grows-refl : (root : FilePath) (d : Disk) → Grows root d d
Grows-refl root d = record { outside = λ p h. refl; links = λ p. refl; directories = λ p h. h }

pub Grows-trans :
    (root : FilePath) (d e f : Disk) → Grows root d e → Grows root e f → Grows root d f
Grows-trans root d e f g h = record {
  outside = λ p out. h.outside p out ∙ g.outside p out;
  links = λ p. h.links p ∙ g.links p;
  directories = λ p is. h.directories p (g.directories p is);
}

-- What is written is a file or a directory, where there was nothing or a file.
abbrev pub IsEmptyOrFile : Option Node → Type 0
IsEmptyOrFile none = Unit
IsEmptyOrFile (some (file _)) = Unit
IsEmptyOrFile (some _) = ⊥

abbrev pub IsMade : Node → Type 0
IsMade (file _) = Unit
IsMade directory = Unit
IsMade _ = ⊥

node_at-put :
    (d : Disk) (n : Text) (p q : FilePath) (node : Node)
    → node_at (put d (n ∷ p) node) q ≡ (if (n ∷ p) == q then some node else node_at d q)
unfolding node_at entry_at path_beq
node_at-put d n p [] node = refl
node_at-put d n p (m ∷ q) node = refl

target_of-made : (node : Node) → IsMade node → target_of (some node) ≡ none
target_of-made (file t) h = refl
target_of-made directory h = refl
target_of-made (link t) h = absurd h
target_of-made special h = absurd h

target_of-replaced :
    (o : Option Node) → IsEmptyOrFile o → (target_of o ≡ none) × (o ≢ some directory)
target_of-replaced none h = (refl, λ e. cc)
target_of-replaced (some (file t)) h = (refl, λ e. cc)
target_of-replaced (some directory) h = absurd h
target_of-replaced (some (link t)) h = absurd h
target_of-replaced (some special) h = absurd h

pub put-Grows :
    (root : FilePath) (d : Disk) (n : Text) (p : FilePath) (node : Node)
    → is_under root (n ∷ p) ≡ true
    → IsMade node
    → IsEmptyOrFile (node_at d (n ∷ p))
    → Grows root d (put d (n ∷ p) node)
put-Grows root d n p node under made free = record {
  outside = λ q out. elim (Bool-cases ((n ∷ p) == q)) [
    | inl same ↦
        let e : n ∷ p ≡ q = (path_eq.equals_iff (n ∷ p) q).0 same in
        let u : is_under root q ≡ true = rw e at under in ground arith
    | inr other ↦ node_at-put d n p q node ∙ rw other refl
  ];
  links = λ q. elim (Bool-cases ((n ∷ p) == q)) [
    | inl same ↦
        let e : n ∷ p ≡ q = (path_eq.equals_iff (n ∷ p) q).0 same in
        let was : IsEmptyOrFile (node_at d q) = rw e at free in
        ap target_of (node_at-put d n p q node)
        ∙ rw same (target_of-made node made ∙ sym (target_of-replaced (node_at d q) was).0)
    | inr other ↦ ap target_of (node_at-put d n p q node) ∙ rw other refl
  ];
  directories = λ q is. elim (Bool-cases ((n ∷ p) == q)) [
    | inl same ↦
        let e : n ∷ p ≡ q = (path_eq.equals_iff (n ∷ p) q).0 same in
        let was : IsEmptyOrFile (node_at d q) = rw e at free in
        absurd ((target_of-replaced (node_at d q) was).1 is)
    | inr other ↦ node_at-put d n p q node ∙ rw other is
  ];
}

-- `realpath` reads only the links.
module _ (d d' : Disk) (links : (p : FilePath) → link_at d' p ≡ link_at d p) where
  walk-links :
      (more more' : Seen → FilePath → List Part → Option FilePath)
      → ((seen : Seen) (p : FilePath) (rest : List Part) → more' seen p rest ≡ more seen p rest)
      → (seen : Seen) (p : FilePath) (rest : List Part)
      → walk d' more' seen p rest ≡ walk d more seen p rest
  unfolding walk name_step
  walk-links more more' same seen p [] = refl
  walk-links more more' same seen p (mark q ∷ rest) =
      walk-links more more' same ((q, some p) ∷ seen) p rest
  walk-links more more' same seen p (name n ∷ rest) =
      let e : name_step d' seen p n ≡ name_step d seen p n = rw (links (n ∷ p), name_step) refl in
      elim (Step-cases (name_step d seen p n)) [
        | inl (q, s) ↦ rw (e, s, walk) (walk-links more more' same seen q rest)
        | inr (q, t, s) ↦
            rw (e, s, walk) (same ((q, none) ∷ seen) (start_of p t) (parts_of t ++ (mark q ∷ rest)))
      ]

  resolve-links :
      (k : ℕ) (seen : Seen) (p : FilePath) (rest : List Part)
      → resolve d' k seen p rest ≡ resolve d k seen p rest
  unfolding resolve
  resolve-links zero = walk-links (λ seen p rest. none) (λ seen p rest. none) (λ seen p rest. refl)
  resolve-links (suc k) = walk-links (resolve d k) (resolve d' k) (resolve-links k)

-- What `realpath` once returned is safe as long as the links stay.
abbrev pub Keeps : Disk → FilePath → Type 0
Keeps d p = (d' : Disk) → ((q : FilePath) → link_at d' q ≡ link_at d q) → IsSafe d' p

pub Keeps-from :
    (d : Disk) (p : FilePath) (names : List Text) (r : FilePath)
    → Keeps d p
    → realpath d p (map name names) ≡ some r
    → Keeps d r
unfolding realpath
Keeps-from d p names r keeps h d' links =
    resolve-names-IsSafe d' (length d) p names r (keeps d' links)
      (resolve-links d d' links (length d) [] p (map name names) ∙ h)

pub Keeps-realpath :
    (d : Disk) (names : List Text) (r : FilePath)
    → realpath d [] (map name names) ≡ some r
    → Keeps d r
Keeps-realpath d names r h = Keeps-from d [] names r (λ d' links. tt) h

pub Keeps-links :
    (d d' : Disk) (p : FilePath)
    → ((q : FilePath) → link_at d' q ≡ link_at d q)
    → Keeps d p
    → Keeps d' p
Keeps-links d d' p links keeps d'' links' = keeps d'' (λ q. links' q ∙ links q)

pub Keeps-parent : (d : Disk) (n : Text) (p : FilePath) → Keeps d (n ∷ p) → Keeps d p
Keeps-parent d n p keeps d' links = (keeps d' links).0
