-- ===== src/Files/Realpath/Ends.antt =====
-- The loop of `os.path.realpath`, as prax_sandbox/fileops.py calls it, ends: no link is followed
-- twice.
use prax_sandbox.Base.{
  ℕ, zero, suc, ◌≤◌, ◌<◌, ◌≡◌, ◌≢◌, refl, sym, ap, ◌⊎◌, inl, inr, List, [], ◌∷◌, ◌++◌, Option, none,
  some, arith, ◌==◌, Bool-cases, length,
}
use prax_sandbox.Text.{Text, text_eq}
use prax_sandbox.Files.Disk.{FilePath, path_eq, Disk, entry_at, node_at, target_of, link_at, parent}
use prax_sandbox.Files.Realpath.{
  Part, name, mark, Seen, find_seen, parts_of, start_of, is_skipped, is_up, Step, to, follow,
  seen_or, lstat_step, name_step, walk, resolve, realpath,
}

pub Step-cases :
    (s : Step) → ((q : FilePath) × (s ≡ to q)) ⊎ ((q : FilePath) × (t : Text) × (s ≡ follow q t))
Step-cases (to q) = inl (q, refl)
Step-cases (follow q t) = inr (q, t, refl)

-- What is followed is a link that was not seen.
abbrev pub IsNew : Disk → Seen → FilePath → Text → Type 0
IsNew d seen q t = (find_seen seen q ≡ none) × (link_at d q ≡ some t)

seen_or-follow :
    (o : Option (Option FilePath)) (q q' : FilePath) (t t' : Text)
    → seen_or o q t ≡ follow q' t'
    → (o ≡ none) × (q ≡ q') × (t ≡ t')
seen_or-follow none q q' t t' h = ground arith
seen_or-follow (some none) q q' t t' h = cc
seen_or-follow (some (some r)) q q' t t' h = cc

lstat_step-follow :
    (o : Option Text) (seen : Seen) (q q' : FilePath) (t : Text)
    → lstat_step o seen q ≡ follow q' t
    → (find_seen seen q ≡ none) × (q ≡ q') × (o ≡ some t)
lstat_step-follow none seen q q' t h = cc
lstat_step-follow (some t') seen q q' t h =
    let (new, at, same) = seen_or-follow (find_seen seen q) q q' t' t h in (new, at, ap some same)

pub name_step-follow :
    (d : Disk) (seen : Seen) (p : FilePath) (n : Text) (q : FilePath) (t : Text)
    → name_step d seen p n ≡ follow q t
    → (q ≡ n ∷ p) × IsNew d seen (n ∷ p) t
unfolding name_step
name_step-follow d seen p n q t h = elim (Bool-cases (is_skipped n)) [
  | inl e ↦ let h' : to p ≡ follow q t = rw (e, name_step) at h in cc
  | inr e ↦ elim (Bool-cases (is_up n)) [
    | inl e' ↦ let h' : to (parent p) ≡ follow q t = rw (e, e', name_step) at h in cc
    | inr e' ↦
        let h' : lstat_step (link_at d (n ∷ p)) seen (n ∷ p) ≡ follow q t =
          rw (e, e', name_step) at h in
        let (new, same, at) = lstat_step-follow (link_at d (n ∷ p)) seen (n ∷ p) q t h' in
        (sym same, (new, at))
  ]
]

-- The entries whose path was not seen.
unseen : Disk → Seen → ℕ
unseen [] seen = 0
unseen ((q, n) ∷ d) seen =
    let rest = unseen d seen in elim (find_seen seen q) [ none ↦ suc rest | some _ ↦ rest ]

unseen-le-length : (d : Disk) (seen : Seen) → unseen d seen ≤ length d
unfolding unseen
unseen-le-length [] seen = omega arith
unseen-le-length ((q, n) ∷ d) seen = ground (arith, unseen-le-length d seen)

unseen-cons :
    (d : Disk) (seen : Seen) (p : FilePath) (o : Option FilePath)
    → unseen d ((p, o) ∷ seen) ≤ unseen d seen
unfolding unseen find_seen
unseen-cons [] seen p o = omega arith
unseen-cons ((q, n) ∷ d) seen p o = ground (arith, unseen-cons d seen p o)

unseen-follow :
    (d : Disk) (seen : Seen) (p : FilePath) (o : Option FilePath)
    → find_seen seen p ≡ none
    → entry_at d p ≢ none
    → unseen d ((p, o) ∷ seen) < unseen d seen
unfolding unseen find_seen entry_at
unseen-follow [] seen p o new there = absurd (there refl)
unseen-follow ((q, n) ∷ d) seen p o new there = elim (Bool-cases (p == q)) [
  | inl same ↦
      let e = (path_eq.equals_iff p q).0 same in
      let new' : find_seen seen q ≡ none = rw (← e) new in
      rw (same, new', unseen, find_seen) (ground (arith, unseen-cons d seen p o))
  | inr other ↦
      ground (arith, unseen-follow d seen p o new, path_eq.equals_iff p q, path_eq.equals_iff q p)
]

-- The link that is followed is an entry of the disk.
entry_at-link : (d : Disk) (q : FilePath) (t : Text) → link_at d q ≡ some t → entry_at d q ≢ none
unfolding node_at
entry_at-link d [] t h = cc
entry_at-link d (n ∷ q) t h = λ e. let h' : target_of none ≡ some t = rw e at h in cc

module _ (d : Disk) where
  -- It ends where fewer links are left than `k` allows.
  IsTotal : (Seen → FilePath → List Part → Option FilePath) → ℕ → Type 0
  IsTotal more k =
      (seen : Seen) (p : FilePath) (rest : List Part)
      → unseen d seen < k
      → (r : FilePath) × (more seen p rest ≡ some r)

  walk-total :
      (more : Seen → FilePath → List Part → Option FilePath) (k : ℕ)
      → IsTotal more k
      → (seen : Seen) (p : FilePath) (rest : List Part) → unseen d seen ≤ k
      → (r : FilePath) × (walk d more seen p rest ≡ some r)
  unfolding walk IsTotal
  walk-total more k total seen p [] h = (p, refl)
  walk-total more k total seen p (mark q ∷ rest) h =
      walk-total more k total ((q, some p) ∷ seen) p rest
        (omega (arith, unseen-cons d seen q (some p)))
  walk-total more k total seen p (name n ∷ rest) h = elim (Step-cases (name_step d seen p n)) [
    | inl (q, e) ↦ rw (e, walk) (walk-total more k total seen q rest h)
    | inr (q, t, e) ↦
        let (same, (new, at)) = name_step-follow d seen p n q t e in
        let new' : find_seen seen q ≡ none = rw same new in
        let there = entry_at-link d q t (rw same at) in
        rw (e, walk)
          (total ((q, none) ∷ seen) (start_of p t) (parts_of t ++ (mark q ∷ rest))
            (omega (arith, unseen-follow d seen q none new' there)))
  ]

  resolve-total :
      (k : ℕ) (seen : Seen) (p : FilePath) (rest : List Part)
      → unseen d seen ≤ k
      → (r : FilePath) × (resolve d k seen p rest ≡ some r)
  unfolding resolve IsTotal
  resolve-total zero seen p rest h =
      walk-total _ 0 (λ seen p rest none_left. absurd (omega arith)) seen p rest h
  resolve-total (suc k) seen p rest h =
      walk-total _ (suc k) (λ seen p rest fewer. resolve-total k seen p rest (omega arith)) seen p
        rest h

-- `realpath` ends on every disk, with loops of links or without: it has a result.
pub realpath-ends :
    (d : Disk) (p : FilePath) (parts : List Part) → (r : FilePath) × (realpath d p parts ≡ some r)
unfolding realpath
realpath-ends d p parts = resolve-total d (length d) [] p parts (unseen-le-length d [])
