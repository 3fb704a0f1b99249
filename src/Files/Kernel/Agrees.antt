-- ===== src/Files/Kernel/Agrees.antt =====
-- A path that `os.path.realpath` returns leads the system nowhere else: where a loop of links left a
-- link in it, the system does not find it at all.
pub mod Cases
pub mod Safe
use prax_sandbox.Base.{
  ℕ, zero, suc, ◌≤◌, ◌<◌, ◌≡◌, ◌≢◌, refl, sym, ap, ◌∙◌, ◌⊎◌, inl, inr, Bool, true, false, not, List,
  [], ◌∷◌, ◌++◌, Option, none, some, arith, append_assoc, append-nil, Bool-cases, Option-cases,
  if◌then◌else◌, ◌==◌, map,
}
use prax_sandbox.Text.{Text, text_eq, split}
use prax_sandbox.Files.Disk.{FilePath, path_eq, Disk, node_at, link_at, parent}
use prax_sandbox.Files.Realpath.{
  Part, name, mark, Seen, find_seen, parts_of, start_of, is_skipped, is_up, Step, to, follow,
  seen_or, lstat_step, name_step, walk, resolve, realpath,
}
use prax_sandbox.Files.Kernel.{
  Lookup, stuck, at, through, is_directory, link_lookup, look_up, kernel, names_of,
}
use prax_sandbox.Files.Kernel.Chains.{
  go_on, kernel-append, kernel-le, kernel-nil, kernel-stuck, kernel-at, kernel-through,
  kernel-first,
}

-- The name of a path below its parent.
abbrev own : FilePath → List Text
own [] = []
own (n ∷ p) = n ∷ []

module _ (d : Disk) where
  -- Every name leads the system to the path with that name, or nowhere.
  abbrev pub IsSafe : FilePath → Type 0
  IsSafe [] = Unit
  IsSafe (n ∷ p) =
      IsSafe p × ((k : ℕ) (x : FilePath × ℕ) → kernel d k p (n ∷ []) ≡ some x → x.0 ≡ n ∷ p)

  -- Where the names of a link lead, `names` from `p` lead too, past fewer links.
  Follows : FilePath → FilePath → List Text → Type 0
  Follows q p names =
      (k : ℕ) (x : FilePath × ℕ)
      → kernel d k (parent q) (own q) ≡ some x
      → (j : ℕ) × (j < k) × (kernel d j p names ≡ some x)

  -- Each link that is being resolved follows to the parts above its mark.
  abbrev Marks : FilePath → List Text → List Part → Type 0
  Marks p acc [] = Unit
  Marks p acc (name n ∷ rest) = Marks p (acc ++ (n ∷ [])) rest
  Marks p acc (mark q ∷ rest) = Follows q p acc × Marks p acc rest

  -- Where the names `a` from `p` lead, with more after them, `b` from `q` lead too.
  Leads : FilePath → List Text → FilePath → List Text → Type 0
  Leads p a q b =
      (names : List Text) (k : ℕ) (x : FilePath × ℕ)
      → kernel d k p (a ++ names) ≡ some x
      → (j : ℕ) × (j ≤ k) × (kernel d j q (b ++ names) ≡ some x)

  Marks-Leads :
      (p : FilePath) (a : List Text) (q : FilePath) (b acc : List Text) (rest : List Part)
      → Leads p a q b
      → Marks p (a ++ acc) rest
      → Marks q (b ++ acc) rest
  unfolding Leads Follows
  Marks-Leads p a q b acc [] leads m = tt
  Marks-Leads p a q b acc (name n ∷ rest) leads m =
      rw (append_assoc b acc (n ∷ []))
        (Marks-Leads p a q b (acc ++ (n ∷ [])) rest leads (rw (append_assoc a acc (n ∷ [])) at m))
  Marks-Leads p a q b acc (mark l ∷ rest) leads (follows, m) = (
    (λ k x h.
        let (j, less, there) = follows k x h in
        let (i, le, here) = leads acc j x there in (i, omega arith, here)),
    Marks-Leads p a q b acc rest leads m,
  )

  abbrev IsMarked : FilePath → List Part → Type 0
  IsMarked q [] = ⊥
  IsMarked q (name n ∷ rest) = IsMarked q rest
  IsMarked q (mark l ∷ rest) = (l ≡ q) ⊎ IsMarked q rest

  Marks-Follows :
      (q p : FilePath) (acc : List Text) (rest : List Part)
      → IsMarked q rest
      → Marks p acc rest
      → (names : List Text) × Follows q p (acc ++ names)
  Marks-Follows q p acc [] h m = absurd h
  Marks-Follows q p acc (name n ∷ rest) h m =
      let (names, f) = Marks-Follows q p (acc ++ (n ∷ [])) rest h m in
      ((n ∷ names), rw (append_assoc acc (n ∷ []) names) at f)
  Marks-Follows q p acc (mark l ∷ rest) (inl same) (f, m) = ([], rw (append-nil acc, ← same) f)
  Marks-Follows q p acc (mark l ∷ rest) (inr later) (f, m) = Marks-Follows q p acc rest later m

  -- A link that follows to itself leads nowhere.
  Follows-self :
      (n : Text) (p : FilePath) (names : List Text)
      → Follows (n ∷ p) p (n ∷ names)
      → (bound k : ℕ) (x : FilePath × ℕ) → k < bound
      → kernel d k p (n ∷ []) ≡ some x
      → ⊥
  unfolding Follows
  Follows-self n p names f zero k x less h = elim less [ ]
  Follows-self n p names f (suc bound) k x less h =
      let (j, fewer, there) = f k x h in
      let (m, i, le, first, then') = kernel-first d j p (n ∷ []) names x there in
      Follows-self n p names f bound j (m, i) (omega arith) first
