-- ===== src/Files/Contained/Writes.antt =====
-- What `write_file` of prax_sandbox/fileops.py reports as written stands in the file.
use prax_sandbox.Base.{
  ◌≡◌, refl, sym, ◌⊎◌, inl, inr, ℕ, ◌≤◌, Bool, true, false, [], ◌∷◌, Option, none, some, Bool-cases,
  Option-cases, length, ◌==◌,
}
use prax_sandbox.Text.{Text}
use prax_sandbox.Files.Disk.{
  FilePath, path_eq, path_beq, Node, file, directory, link, special, Disk, entry_at, node_at, put,
  parent,
}
use prax_sandbox.Files.Kernel.Agrees.{IsSafe}
use prax_sandbox.Files.System.{
  find_place, directory_at, max_write, written, write_entry, open_write, make_dirs,
}
use prax_sandbox.Files.Confined.{
  escape, os_error, Result, ok, err, confine, confine_names, relative, after_dirs, write_confined,
  write_file,
}
use prax_sandbox.Files.Growth.Calls.{IsRoot}
use prax_sandbox.Files.Growth.Calls.Made.{directory_at-find}
use prax_sandbox.Files.Contained.Within.{confine-IsConfined}
use prax_sandbox.Files.Contained.Operations.{make_parents-Grows}
use prax_sandbox.Files.Contained.Reads.{take-all}

-- The file holds the contents, where the path is not a device.
abbrev pub IsWritten : FilePath → Text → Disk → Type 0
IsWritten p contents d = (node_at d p ≡ some (file contents)) ⊎ (node_at d p ≡ some special)

node_at-put_same :
    (d : Disk) (n : Text) (p : FilePath) (node : Node)
    → node_at (put d (n ∷ p) node) (n ∷ p) ≡ some node
unfolding node_at entry_at path_beq
node_at-put_same d n p node =
    let same : (n ∷ p) == (n ∷ p) ≡ true = (path_eq.equals_iff (n ∷ p) (n ∷ p)).1 refl in
    rw same refl

write_entry-IsWritten :
    (d : Disk) (n : Text) (p : FilePath) (o : Option FilePath) (contents : Text)
    → ((m : FilePath) → o ≡ some m → m ≡ p)
    → (write_entry d o n contents).1 ≡ true
    → IsWritten (n ∷ p) (written contents) (write_entry d o n contents).0
unfolding write_entry
write_entry-IsWritten d n p none contents only h = cc
write_entry-IsWritten d n p (some m) contents only h =
    let at_p : m ≡ p = only m refl in by_node p at_p (Option-cases (node_at d (n ∷ m)))
  where
    by_node :
        (p : FilePath)
        → m ≡ p
        → (node_at d (n ∷ m) ≡ none) ⊎ ((x : Node) × (node_at d (n ∷ m) ≡ some x))
        → IsWritten (n ∷ p) (written contents) (write_entry d (some m) n contents).0
    by_node p e (inl free) =
        rw (← e, free, write_entry) (inl (node_at-put_same d n m (file (written contents))))
    by_node p e (inr (file t, is)) =
        rw (← e, is, write_entry) (inl (node_at-put_same d n m (file (written contents))))
    by_node p e (inr (special, is)) = rw (← e, is, write_entry) (inr is)
    by_node p e (inr (directory, is)) = let h' : false ≡ true = rw (is, write_entry) at h in cc
    by_node p e (inr (link t, is)) = let h' : false ≡ true = rw (is, write_entry) at h in cc

open_write-IsWritten :
    (d : Disk) (p : FilePath) (contents : Text)
    → IsSafe d p
    → (open_write d p contents).1 ≡ true
    → IsWritten p (written contents) (open_write d p contents).0
unfolding open_write
open_write-IsWritten d [] contents safe h = cc
open_write-IsWritten d (n ∷ p) contents safe h =
    write_entry-IsWritten d n p (directory_at d (find_place d p)) contents
      (λ m. directory_at-find d p m safe.0) h

after_dirs-IsWritten :
    (d : Disk) (p : FilePath) (contents : Text) (above : Disk × Bool)
    → IsSafe above.0 p
    → (after_dirs p contents above).1 ≡ true
    → IsWritten p (written contents) (after_dirs p contents above).0
after_dirs-IsWritten d p contents (d', true) safe h = open_write-IsWritten d' p contents safe h
after_dirs-IsWritten d p contents (d', false) safe h = cc

written-all : (contents : Text) → length contents ≤ max_write → written contents ≡ contents
unfolding written
written-all contents small = take-all max_write contents small

-- Where `write_file` returns a number under a root that is there, it is the length of the data, and
-- the path that `confine` gave holds the whole data and nothing else, or is a device that took
-- them; for data that one write takes, a little less than 2 GiB.
pub write_file-IsWritten :
    (root : FilePath) (d : Disk) (rel contents : Text) (p : FilePath) (n : ℕ)
    → IsRoot d root
    → confine d root rel ≡ some p
    → length contents ≤ max_write
    → (write_file d root rel contents).1 ≡ ok n
    → (n ≡ length contents) × IsWritten p contents (write_file d root rel contents).0
unfolding write_file write_confined
write_file-IsWritten root d rel contents p n r c small h =
    elim (Option-cases (confine_names d root (relative root (parent p)))) [
      | inl e ↦
          let h' : ◌≡◌ {A = Result ℕ} (err escape) (ok n) =
            rw (c, write_file, e, write_confined) at h in
          cc
      | inr (q, e) ↦
          let is = confine-IsConfined d root rel p c in
          let g = make_parents-Grows root d r p is.under is.keeps in
          let x = after_dirs p contents (make_dirs d (parent p)) in
          let there =
            after_dirs-IsWritten d p contents (make_dirs d (parent p))
              (is.keeps (make_dirs d (parent p)).0 g.links) in
          elim (Bool-cases x.1) [
            | inr f ↦
                let h' : ◌≡◌ {A = Result ℕ} (err os_error) (ok n) =
                  rw (c, write_file, e, write_confined, f) at h in
                cc
            | inl f ↦
                let h' : ◌≡◌ {A = Result ℕ} (ok (length contents)) (ok n) =
                  rw (c, write_file, e, write_confined, f) at h in
                let same : length contents ≡ n = cc in
                let whole : IsWritten p contents x.0 =
                  rw (written-all contents small) at (there f) in
                (sym same, rw (c, write_file, e, write_confined) whole)
          ]
    ]
