-- ===== src/Files/Contained/Reads.antt =====
-- Reads of prax_sandbox/fileops.py stay within the root.
use prax_sandbox.Base.{
  ◌≡◌, refl, ap, inl, inr, ℕ, ◌≤◌, true, [], ◌∷◌, Option, none, some, arith, zero, suc, Bool-cases,
  Option-cases, ltb, length, take,
}
use prax_sandbox.Text.{Text}
use prax_sandbox.Files.Disk.{FilePath, Node, file, directory, link, special, Disk, node_at}
use prax_sandbox.Files.System.{find_place, stat}
use prax_sandbox.Files.Confined.{Result, ok, err, escape, too_big, confine, read_node, read_file}
use prax_sandbox.Files.Growth.{is_under}
use prax_sandbox.Files.Growth.Calls.Made.{find_place-IsSafe}
use prax_sandbox.Files.Contained.Within.{confine-IsConfined}

pub take-all : (n : ℕ) (t : Text) → length t ≤ n → take n t ≡ t
take-all zero [] h = refl
take-all zero (c ∷ t) h = ground arith
take-all (suc n) [] h = refl
take-all (suc n) (c ∷ t) h = ap (◌∷◌ c) (take-all n t (omega arith))

read_node-ok :
    (o : Option Node) (max_bytes : ℕ) (c : Text)
    → read_node o max_bytes ≡ ok c
    → (o ≡ some (file c)) × (length c ≤ max_bytes)
read_node-ok none max_bytes c h = cc
read_node-ok (some directory) max_bytes c h = cc
read_node-ok (some (link t)) max_bytes c h = cc
read_node-ok (some special) max_bytes c h = cc
read_node-ok (some (file t)) max_bytes c h = elim (Bool-cases (ltb max_bytes (length t))) [
  | inl e ↦ let h' : ◌≡◌ {A = Result Text} (err too_big) (ok c) = rw e at h in cc
  | inr e ↦
      let small : length t ≤ max_bytes = ground arith in
      let h' : ◌≡◌ {A = Result Text} (ok (take max_bytes t)) (ok c) = rw e at h in
      let h'' : ◌≡◌ {A = Result Text} (ok t) (ok c) = rw (take-all max_bytes t small) at h' in
      let same : t ≡ c = cc in (rw same refl, rw (← same) small)
]

stat-IsSafe :
    (d : Disk) (root p : FilePath) (rel : Text) (node : Node)
    → confine d root rel ≡ some p
    → stat d p ≡ some node
    → node_at d p ≡ some node
unfolding stat
stat-IsSafe d root p rel node c h = elim (Option-cases (find_place d p)) [
  | inl e ↦ let h' : ◌≡◌ {A = Option Node} none (some node) = rw (e, stat) at h in cc
  | inr (m, e) ↦
      let safe = (confine-IsConfined d root rel p c).keeps d (λ q. refl) in
      let same : m ≡ p = find_place-IsSafe d p m safe e in
      let h' : node_at d m ≡ some node = rw (e, stat) at h in rw (← same) h'
]

-- Whatever name is given, in whatever state the links of the disk are: what `read_file` returns is
-- the whole contents of a regular file that stands at or below the root itself, no link on the way,
-- and no more than the bound.
pub read_file-IsWithin :
    (d : Disk) (root : FilePath) (rel : Text) (max_bytes : ℕ) (c : Text)
    → read_file d root rel max_bytes ≡ ok c
    → (p : FilePath) × ((is_under root p ≡ true)
        × (node_at d p ≡ some (file c))
        × (length c ≤ max_bytes))
unfolding read_file
read_file-IsWithin d root rel max_bytes c h = elim (Option-cases (confine d root rel)) [
  | inl e ↦ let h' : ◌≡◌ {A = Result Text} (err escape) (ok c) = rw (e, read_file) at h in cc
  | inr (p, e) ↦
      let h' : read_node (stat d p) max_bytes ≡ ok c = rw (e, read_file) at h in
      let (is, small) = read_node-ok (stat d p) max_bytes c h' in
      (
        p,
        ((confine-IsConfined d root rel p e).under, stat-IsSafe d root p rel (file c) e is, small),
      )
]
