-- ===== src/Files/Listing/Packs.antt =====
-- What `pull_tar` of prax_sandbox/fileops.py packs.
use prax_sandbox.Base.{
  suc, ◌<◌, ◌≡◌, ◌⊎◌, All, refl, sym, ap, ◌∙◌, inl, inr, true, false, List, [], ◌∷◌, Option, none,
  some, arith, Option-cases, Elem,
}
use prax_sandbox.Text.{Text}
use prax_sandbox.Files.Disk.{FilePath, Node, file, Disk, node_at, link_at, target_of}
use prax_sandbox.Files.Kernel.{is_directory, kernel, names_of, max_links}
use prax_sandbox.Files.Kernel.Agrees.{IsSafe}
use prax_sandbox.Files.Kernel.Agrees.Safe.{kernel-IsSafe}
use prax_sandbox.Files.System.{find_place, stat, is_there, exists}
use prax_sandbox.Files.Confined.{ok, confine}
use prax_sandbox.Files.Growth.Calls.{IsRoot}
use prax_sandbox.Files.Contained.Within.{confine-IsConfined}
use prax_sandbox.Files.Walk.{isdir, is_link, islink, depth, walk, walk_files}
use prax_sandbox.Files.Walk.Finds.{AreNamed, names_in-Elem, names_in-IsName, no_link, stat-child}
use prax_sandbox.Files.Walk.Exact.{
  Chain, directory-isdir, walk_files-IsFound, walk_files-file, Chain-IsReached,
}
use prax_sandbox.Files.Listing.{
  rel_text, Storage, TarMember, packed, hard_link, packed_name, tar_files, pull_tar,
}
use prax_sandbox.Files.Listing.Turns.{IsRegular, IsOf, tar_files-IsOf, tar_files-IsHeldFrom}

pub isdir-IsRoot : (d : Disk) (p : FilePath) → IsSafe d p → isdir d p ≡ true → IsRoot d p
unfolding stat find_place
isdir-IsRoot d p safe h = elim (Option-cases (kernel d max_links [] (names_of p))) [
  | inl e ↦ let h' : false ≡ true = rw (e, stat, find_place) at h in cc
  | inr ((m, k), e) ↦
      let same : m ≡ p = kernel-IsSafe d p max_links m k safe e in
      let h' : is_directory (node_at d m) ≡ true = rw (e, stat, find_place) at h in
      record {
        is_dir = directory-isdir (node_at d p) (rw same at h');
        left = k;
        found = rw same at e;
      }
]

pub Chain-self : (d : Disk) (p : FilePath) → Chain d p p
Chain-self d [] = refl
Chain-self d (n ∷ p) = inl refl

All-map :
    {A : Type 0} (P Q : A → Type 0) (xs : List A) → ((x : A) → P x → Q x) → All P xs → All Q xs
All-map P Q [] f h = tt
All-map P Q (x ∷ xs) f (h, hs) = (f x h, All-map P Q xs f hs)

All-Elem : {A : Type 0} (P : A → Type 0) (xs : List A) → ((x : A) → Elem x xs → P x) → All P xs
All-Elem P [] f = tt
All-Elem P (x ∷ xs) f = (f x (inl refl), All-Elem P xs (λ y h. f y (inr h)))

-- A regular file with these contents that is reached through directories, with its name in a tar.
abbrev pub IsNamed : Disk → FilePath → FilePath → FilePath → Text → Text → Type 0
IsNamed d root start q name contents =
    (n : Text) × (p : FilePath) × (q ≡ n ∷ p)
    × Chain d start p
    × (node_at d (n ∷ p) ≡ some (file contents))
    × (name ≡ rel_text root (n ∷ p))

-- A member with whole contents has those of its file; a hard link leads to the name of a file that
-- is reached as well and has the same inode.
abbrev pub IsPacked : Storage → Disk → FilePath → FilePath → TarMember → Type 0
IsPacked storage d root start (packed name contents) =
    (q : FilePath) × IsNamed d root start q name contents
IsPacked storage d root start (hard_link name first) =
    (q : FilePath) × (t : Text) × IsNamed d root start q name t
    × ((q' : FilePath) × (u : Text) × IsNamed d root start q' first u
        × (storage.inode q' ≡ storage.inode q))

-- A file stands in a tar with its whole contents, or as a hard link to a name that does.
abbrev pub IsHeld : FilePath → List TarMember → FilePath → Text → Type 0
IsHeld root tar q contents =
    Elem (packed (rel_text root q) contents) tar
    ⊎ ((first : Text) × Elem (hard_link (rel_text root q) first) tar
        × ((u : Text) × Elem (packed first u) tar))

module _ (storage : Storage) (d : Disk) (root start : FilePath) (named : AreNamed d)
    (r : IsRoot d start) where
  abbrev all_files : List FilePath
  all_files = walk_files (suc (depth d)) d start

  regular-IsNamed :
      (q : FilePath) (name t : Text)
      → Elem q all_files
      → IsRegular storage d root q t
      → name ≡ rel_text root q
      → IsNamed d root start q name t
  regular-IsNamed q name t there (unlinked, is) same =
      let f =
        walk_files-IsFound d named start (suc (depth d)) start q r (Chain-self d start) there in
      let plain = no_link d (f.name ∷ f.dir) (rw f.is at unlinked) in
      let is' : stat d (f.name ∷ f.dir) ≡ some (file t) = rw f.is at is in
      (
        f.name,
        f.dir,
        f.is,
        f.chain,
        sym (stat-child d f.name f.dir f.root f.named plain) ∙ is',
        rw f.is at same,
      )

  IsOf-IsPacked :
      (m : TarMember) → IsOf storage d root all_files m → IsPacked storage d root start m
  IsOf-IsPacked (packed name contents) (p, there, regular, same) =
      (p, regular-IsNamed p name contents there regular same)
  IsOf-IsPacked (hard_link name first)
        (p, t, there, regular, same, (q, u, there', regular', same', inode)) =
      (
        p,
        t,
        regular-IsNamed p name t there regular same,
        (q, u, regular-IsNamed q first u there' regular' same', inode),
      )

  tar_files-IsPacked : All (IsPacked storage d root start) (tar_files storage d root [] all_files)
  tar_files-IsPacked =
      All-map (IsOf storage d root all_files) (IsPacked storage d root start) _ IsOf-IsPacked (
        tar_files-IsOf storage d root all_files all_files []
          (All-Elem (λ p. Elem p all_files) all_files (λ p h. h)) tt)

  file-IsHeld :
      (n : Text) (p : FilePath) (t : Text)
      → Chain d start p
      → node_at d (n ∷ p) ≡ some (file t)
      → IsHeld root (tar_files storage d root [] all_files) (n ∷ p) t
  unfolding node_at packed_name
  file-IsHeld n p t c is =
      let enough : depth d < suc (depth d) = omega arith in
      let there = walk_files-file d named start (suc (depth d)) n p t enough r c is in
      let ok' = names_in-IsName d p n named (names_in-Elem d p n (file t) is) in
      let plain : link_at d (n ∷ p) ≡ none = ap target_of is in
      let unlinked : islink d (n ∷ p) ≡ false = ap is_link plain in
      let reached = Chain-IsReached d named start (suc (depth d)) p enough r c in
      let is' : stat d (n ∷ p) ≡ some (file t) = stat-child d n p reached.root ok' plain ∙ is in
      elim (tar_files-IsHeldFrom storage d root all_files [] (n ∷ p) t there (unlinked, is')) [
        | inl whole ↦ inl whole
        | inr (first, linked, from) ↦
            inr (first, linked, elim from [ inl e ↦ absurd (no_name e) | inr whole ↦ whole ])
      ]
    where
      no_name : {x : Text} → none ≡ some x → ⊥
      no_name e = cc

is_directory-there : (o : Option Node) → is_directory o ≡ true → is_there o ≡ true
is_directory-there none h = cc
is_directory-there (some n) h = refl

-- On a disk whose entries have names, where the path leads to a directory within the root:
-- `pull_tar` returns a tar. Each of its members has the name, as a path from the root, of a regular
-- file that is reached from there through directories, and has the whole contents of that file, or
-- is a hard link to the name of such a file with the same inode. And each regular file that is
-- reached so is in the tar under its name, with its whole contents, or as a hard link to the name of
-- a member that has whole contents; no symbolic link is followed, and none is packed.
pub pull_tar-IsPacked :
    (storage : Storage) (d : Disk) (root start : FilePath) (rel : Text)
    → AreNamed d
    → confine d root rel ≡ some start
    → isdir d start ≡ true
    → (tar : List TarMember) × (pull_tar storage d root rel ≡ ok tar)
      × All (IsPacked storage d root start) tar
      × ((n : Text) (p : FilePath) (t : Text)
          → Chain d start p
          → node_at d (n ∷ p) ≡ some (file t)
          → IsHeld root tar (n ∷ p) t)
unfolding pull_tar walk
pull_tar-IsPacked storage d root start rel named c dir =
    let r =
      isdir-IsRoot d start ((confine-IsConfined d root rel start c).keeps d (λ q. refl)) dir in
    let there : exists d start ≡ true = is_directory-there (stat d start) dir in
    (
      tar_files storage d root [] (walk_files (suc (depth d)) d start),
      rw (c, pull_tar, there, dir, walk) refl,
      tar_files-IsPacked storage d root start named r,
      file-IsHeld storage d root start named r,
    )
