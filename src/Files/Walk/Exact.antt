-- ===== src/Files/Walk/Exact.antt =====
-- The walk meets exactly the files that are reached through directories.
use prax_sandbox.Base.{
  ℕ, zero, suc, ◌+◌, ◌-◌, ◌<◌, ◌≡◌, refl, ap, ◌∙◌, ◌⊎◌, inl, inr, true, false, not, ◌&&◌, List, [],
  ◌∷◌, Option, none, some, arith, length, Elem, Elem-append, Elem-append_left, Elem-append_right,
  Elem-keep, keep-Elem,
}
use prax_sandbox.Text.{Text, text_eq}
use prax_sandbox.Files.Disk.{
  FilePath, path_eq, Node, file, directory, link, special, Disk, node_at, link_at, target_of,
}
use prax_sandbox.Files.Kernel.{is_directory}
use prax_sandbox.Files.Growth.Calls.{IsRoot}
use prax_sandbox.Files.Walk.{
  names_in, is_link, islink, isdir, children, files_in, dirs_in, for_each, walk_files, depth,
}
use prax_sandbox.Files.Walk.Finds.{
  IsName, AreNamed, names_in-Elem, names_in-IsName, Elem-children, children-Elem, depth-le, no_link,
  stat-child, child-IsRoot,
}

-- From the start to the path all are directories.
abbrev pub Chain : Disk → FilePath → FilePath → Type 0
Chain d start [] = [] ≡ start
Chain d start (n ∷ p) = ((n ∷ p) ≡ start) ⊎ ((node_at d (n ∷ p) ≡ some directory) × Chain d start p)

-- A path in a directory that is reached.
pub record IsFound (d : Disk) (start q : FilePath) : Type 0 where
  pub name : Text
  pub dir : FilePath
  pub is : q ≡ name ∷ dir
  pub chain : Chain d start dir
  pub root : IsRoot d dir
  pub named : IsName name

pub directory-isdir : (o : Option Node) → is_directory o ≡ true → o ≡ some directory
directory-isdir none h = cc
directory-isdir (some (file t)) h = cc
directory-isdir (some directory) h = refl
directory-isdir (some (link t)) h = cc
directory-isdir (some special) h = cc

pub Elem-for_each :
    (f : FilePath → List FilePath) (q : FilePath) (ps : List FilePath)
    → Elem q (for_each f ps)
    → (p : FilePath) × (Elem p ps × Elem q (f p))
Elem-for_each f q [] h = absurd h
Elem-for_each f q (p ∷ ps) h = elim (Elem-append q (f p) (for_each f ps) h) [
  | inl h' ↦ (p, (inl refl, h'))
  | inr h' ↦ let (p', (there, h'')) = Elem-for_each f q ps h' in (p', (inr there, h''))
]

pub for_each-Elem :
    (f : FilePath → List FilePath) (p q : FilePath) (ps : List FilePath)
    → Elem p ps
    → Elem q (f p)
    → Elem q (for_each f ps)
for_each-Elem f p q [] there h = absurd there
for_each-Elem f p q (p' ∷ ps) (inl e) h = Elem-append_left q (f p') (for_each f ps) (rw (← e) at h)
for_each-Elem f p q (p' ∷ ps) (inr there) h =
    Elem-append_right q (f p') (for_each f ps) (for_each-Elem f p q ps there h)

module _ (d : Disk) (named : AreNamed d) where
  -- What is entered is a directory, and no link.
  dirs_in-child :
      (p q : FilePath)
      → IsRoot d p
      → Elem q (dirs_in d p)
      → (n : Text) × ((q ≡ n ∷ p) × (node_at d (n ∷ p) ≡ some directory) × IsRoot d (n ∷ p))
  dirs_in-child p q r h =
      let (there, test) =
        Elem-keep (λ q. isdir d q && not (islink d q)) q (children p (names_in d p)) h in
      let (n, (in', same)) = Elem-children q p (names_in d p) there in
      let test' : (isdir d (n ∷ p) && not (islink d (n ∷ p))) ≡ true = rw same at test in
      let ok' = names_in-IsName d p n named in' in
      let plain = no_link d (n ∷ p) (ground arith) in
      let is : isdir d (n ∷ p) ≡ true = ground arith in
      let dir = directory-isdir (node_at d (n ∷ p)) (rw (stat-child d n p r ok' plain) at is) in
      (n, (same, dir, child-IsRoot d n p r ok' plain dir))

  pub walk_files-IsFound :
      (start : FilePath) (k : ℕ) (p q : FilePath)
      → IsRoot d p
      → Chain d start p
      → Elem q (walk_files k d p)
      → IsFound d start q
  unfolding walk_files
  walk_files-IsFound start zero p q r c h = absurd h
  walk_files-IsFound start (suc k) p q r c h =
      elim (Elem-append q (files_in d p) (for_each (walk_files k d) (dirs_in d p)) h) [
        | inl h' ↦
            let (there, test) = Elem-keep (λ q. not (isdir d q)) q (children p (names_in d p)) h' in
            let (n, (in', same)) = Elem-children q p (names_in d p) there in
            record {
              name = n;
              dir = p;
              is = same;
              chain = c;
              root = r;
              named = names_in-IsName d p n named in';
            }
        | inr h' ↦
            let (p', (there, h'')) = Elem-for_each (walk_files k d) q (dirs_in d p) h' in
            let (n, (same, dir, r')) = dirs_in-child p p' r there in
            walk_files-IsFound start k (n ∷ p) q r' (inr (dir, c)) (rw same at h'')
      ]

  -- A directory that the walk comes to, with the levels that are left.
  pub record IsReached (start : FilePath) (k : ℕ) (p : FilePath) : Type 0 where
    pub root : IsRoot d p
    pub left : ℕ
    pub levels : left + length p ≡ k + length start
    pub within : (q : FilePath) → Elem q (walk_files left d p) → Elem q (walk_files k d start)

  IsReached-start : (start : FilePath) (k : ℕ) → IsRoot d start → IsReached start k start
  IsReached-start start k r = record { root = r; left = k; levels = refl; within = λ q h. h }

  no_link-directory : (o : Option Node) → o ≡ some directory → is_link (target_of o) ≡ false
  no_link-directory o h = rw h refl

  IsReached-child :
      (start : FilePath) (k : ℕ) (n : Text) (p : FilePath)
      → depth d < k
      → IsReached start k p
      → node_at d (n ∷ p) ≡ some directory
      → IsReached start k (n ∷ p)
  unfolding walk_files node_at
  IsReached-child start k n p enough reached dir =
      let in' = names_in-Elem d p n directory dir in
      let ok' = names_in-IsName d p n named in' in
      let unlinked = no_link-directory (node_at d (n ∷ p)) dir in
      let plain = no_link d (n ∷ p) unlinked in
      let is : isdir d (n ∷ p) ≡ true =
        ap is_directory (stat-child d n p reached.root ok' plain ∙ dir) in
      let kept : Elem (n ∷ p) (dirs_in d p) =
        keep-Elem (λ q. isdir d q && not (islink d q)) (n ∷ p) (children p (names_in d p))
          (children-Elem n p (names_in d p) in') (ground (arith, is, unlinked)) in
      let short = depth-le d (n ∷ p) directory dir in
      let levels = reached.levels in
      let next = reached.left - 1 in
      let one : reached.left ≡ suc next = omega arith in
      record {
        root = child-IsRoot d n p reached.root ok' plain dir;
        left = next;
        levels = omega arith;
        within = λ q h. reached.within q (
            rw one (
              Elem-append_right q (files_in d p) (for_each (walk_files next d) (dirs_in d p))
                (for_each-Elem (walk_files next d) (n ∷ p) q (dirs_in d p) kept h)));
      }

  pub Chain-IsReached :
      (start : FilePath) (k : ℕ) (p : FilePath)
      → depth d < k
      → IsRoot d start
      → Chain d start p
      → IsReached start k p
  Chain-IsReached start k [] enough r same = rw same (IsReached-start start k r)
  Chain-IsReached start k (n ∷ p) enough r (inl same) = rw same (IsReached-start start k r)
  Chain-IsReached start k (n ∷ p) enough r (inr (dir, c)) =
      IsReached-child start k n p enough (Chain-IsReached start k p enough r c) dir

  -- A regular file that is reached through directories is met.
  pub walk_files-file :
      (start : FilePath) (k : ℕ) (n : Text) (p : FilePath) (t : Text)
      → depth d < k
      → IsRoot d start
      → Chain d start p
      → node_at d (n ∷ p) ≡ some (file t)
      → Elem (n ∷ p) (walk_files k d start)
  unfolding walk_files node_at
  walk_files-file start k n p t enough r c h =
      let reached = Chain-IsReached start k p enough r c in
      let in' = names_in-Elem d p n (file t) h in
      let ok' = names_in-IsName d p n named in' in
      let plain : link_at d (n ∷ p) ≡ none = ap target_of h in
      let is : isdir d (n ∷ p) ≡ false =
        ap is_directory (stat-child d n p reached.root ok' plain ∙ h) in
      let kept : Elem (n ∷ p) (files_in d p) =
        keep-Elem (λ q. not (isdir d q)) (n ∷ p) (children p (names_in d p))
          (children-Elem n p (names_in d p) in') (rw is refl) in
      let short = depth-le d (n ∷ p) (file t) h in
      let levels = reached.levels in
      let next = reached.left - 1 in
      let one : reached.left ≡ suc next = omega arith in
      reached.within (n ∷ p) (
        rw one (
          Elem-append_left (n ∷ p) (files_in d p) (for_each (walk_files next d) (dirs_in d p))
            kept))
