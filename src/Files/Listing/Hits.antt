-- ===== src/Files/Listing/Hits.antt =====
-- What `grep` of prax_sandbox/fileops.py returns.
use prax_sandbox.Base.{
  ℕ, suc, ◌-◌, ◌≤◌, max, ◌≡◌, refl, ap, ◌∙◌, inl, inr, Bool, true, false, not, ◌||◌, List, [], ◌∷◌,
  Option, none, some, arith, Bool-cases, Option-cases, Elem, length, leb, is_empty, subst, ◌⊎◌,
}
use prax_sandbox.Text.{Text, lower, has_text}
use prax_sandbox.Files.Disk.{FilePath, Node, file, directory, link, special, Disk, node_at}
use prax_sandbox.Files.Kernel.Agrees.{IsSafe}
use prax_sandbox.Files.System.{stat, exists}
use prax_sandbox.Files.Confined.{Result, ok, confine}
use prax_sandbox.Files.Contained.Within.{confine-IsConfined}
use prax_sandbox.Files.Walk.{isdir, islink, depth, walk, walk_files}
use prax_sandbox.Files.Walk.Finds.{AreNamed, no_link, stat-child}
use prax_sandbox.Files.Walk.Exact.{Chain, IsFound, walk_files-IsFound}
use prax_sandbox.Files.Listing.{
  rel_text, Hit, Storage, base_name, read_part, read_text, hit_in, hit_of, grep_files, grep,
}
use prax_sandbox.Files.Listing.Packs.{isdir-IsRoot, Chain-self}

module _ (fnmatch : Text → Text → Bool) (storage : Storage) (d : Disk) (root : FilePath)
    (needle include' : Text) where
  -- The contents have the query, in any case, in what is read of them.
  abbrev pub HasQuery : Text → Type 0
  HasQuery contents = has_text needle (lower (read_part storage contents)) ≡ true

  -- What is read at a path: a regular file, or what a device or a pipe gives.
  abbrev pub IsRead : FilePath → Option Node → Text → Type 0
  IsRead p o t = (o ≡ some (file t)) ⊎ ((o ≡ some special) × (storage.special_text p ≡ some t))

  hit_in-text :
      (p : FilePath) (t : Text) (h : Hit)
      → hit_in fnmatch storage d root needle include' p (some (read_part storage t)) ≡ some h
      → HasQuery t × (h.path ≡ rel_text root p)
  hit_in-text p t h e = elim (Bool-cases (has_text needle (lower (read_part storage t)))) [
    | inr out ↦ let e' : ◌≡◌ {A = Option Hit} none (some h) = rw out at e in cc
    | inl in' ↦ (in', path_of (rw in' at e))
  ]
    where
      path_of : {x : Hit} → some x ≡ some h → h.path ≡ x.path
      path_of e = cc

  hit_in-IsRead :
      (p : FilePath) (o : Option Node) (h : Hit)
      → hit_in fnmatch storage d root needle include' p (read_text storage p o) ≡ some h
      → (t : Text) × IsRead p o t × HasQuery t × (h.path ≡ rel_text root p)
  hit_in-IsRead p none h e = cc
  hit_in-IsRead p (some directory) h e = cc
  hit_in-IsRead p (some (link t)) h e = cc
  hit_in-IsRead p (some special) h e = elim (Option-cases (storage.special_text p)) [
    | inl shut ↦ let e' : ◌≡◌ {A = Option Hit} none (some h) = rw (shut, read_text) at e in cc
    | inr (t, given) ↦
        let (query, path) = hit_in-text p t h (rw (given, read_text) at e) in
        (t, inr (refl, given), query, path)
  ]
  hit_in-IsRead p (some (file t)) h e =
      let (query, path) = hit_in-text p t h e in (t, inl refl, query, path)

  hit_of-IsRead :
      (p : FilePath) (h : Hit)
      → hit_of fnmatch storage d root needle include' p ≡ some h
      → (islink d p ≡ false)
        × (t : Text) × IsRead p (stat d p) t
        × HasQuery t
        × (h.path ≡ rel_text root p)
  unfolding hit_of
  hit_of-IsRead p h e = elim (Bool-cases (not (fnmatch (base_name p) include') || islink d p)) [
    | inl out ↦ let e' : ◌≡◌ {A = Option Hit} none (some h) = rw (out, hit_of) at e in cc
    | inr in' ↦
        let (t, read, query, path) = hit_in-IsRead p (stat d p) h (rw (in', hit_of) at e) in
        (ground arith, t, read, query, path)
  ]

  grep_files-Elem :
      (ps : List FilePath) (k : ℕ) (h : Hit)
      → Elem h (grep_files fnmatch storage d root needle include' ps k)
      → (p : FilePath) × (Elem p ps × (hit_of fnmatch storage d root needle include' p ≡ some h))
  unfolding grep_files
  grep_files-Elem [] k h e = absurd e
  grep_files-Elem (p ∷ ps) k h e =
      elim (Option-cases (hit_of fnmatch storage d root needle include' p)) [
        | inl out ↦
            let (q, (there, is)) = grep_files-Elem ps k h (rw (out, grep_files) at e) in
            (q, (inr there, is))
        | inr (x, hit) ↦ elim (Bool-cases (leb k 1)) [
          | inl last ↦ elim (rw (hit, grep_files, last) at e) [
            | inl same ↦ (p, (inl refl, hit ∙ ap some same))
            | inr e' ↦ absurd e'
          ]
          | inr more ↦ elim (rw (hit, grep_files, more) at e) [
            | inl same ↦ (p, (inl refl, hit ∙ ap some same))
            | inr e' ↦
                let (q, (there, is)) = grep_files-Elem ps (k - 1) h e' in (q, (inr there, is))
          ]
        ]
      ]

  grep_files-length :
      (ps : List FilePath) (k : ℕ)
      → length (grep_files fnmatch storage d root needle include' ps k) ≤ max 1 k
  unfolding grep_files
  grep_files-length [] k = grind arith
  grep_files-length (p ∷ ps) k =
      elim (Option-cases (hit_of fnmatch storage d root needle include' p)) [
        | inl out ↦ rw (out, grep_files) (grep_files-length ps k)
        | inr (x, hit) ↦ elim (Bool-cases (leb k 1)) [
          | inl last ↦ rw (hit, grep_files, last) (grind arith)
          | inr more ↦
              let rest = grep_files-length ps (k - 1) in rw (hit, grep_files, more) (grind arith)
        ]
      ]

  -- A regular file, or a device or a pipe, that is reached through directories, is no link, and has
  -- the query in what is read of it.
  abbrev pub IsHit : FilePath → Hit → Type 0
  IsHit start h =
      (n : Text) × (p : FilePath) × (t : Text) × Chain d start p
      × IsRead (n ∷ p) (node_at d (n ∷ p)) t
      × HasQuery t
      × (h.path ≡ rel_text root (n ∷ p))

  found-IsHit :
      (start p : FilePath) (h : Hit) (named : AreNamed d) (f : IsFound d start p)
      → hit_of fnmatch storage d root needle include' p ≡ some h
      → IsHit start h
  found-IsHit start p h named f is =
      let (unlinked, t, at', query, path) = hit_of-IsRead p h is in
      let plain = no_link d (f.name ∷ f.dir) (rw f.is at unlinked) in
      let at'' : IsRead (f.name ∷ f.dir) (stat d (f.name ∷ f.dir)) t = rw f.is at at' in
      let there = stat-child d f.name f.dir f.root f.named plain in
      (
        f.name,
        f.dir,
        t,
        f.chain,
        subst (λ o. IsRead (f.name ∷ f.dir) o t) there at'',
        query,
        rw f.is at path,
      )

  grep_walk-IsHit :
      (start : FilePath) (k : ℕ) (h : Hit)
      → AreNamed d
      → IsSafe d start
      → Elem h (grep_files fnmatch storage d root needle include' (walk d start) k)
      → IsHit start h
  unfolding walk grep_files
  grep_walk-IsHit start k h named safe e = elim (Bool-cases (isdir d start)) [
    | inr out ↦ absurd (rw (out, walk) at e)
    | inl dir ↦
        let e' : Elem h (
            grep_files fnmatch storage d root needle include' (walk_files (suc (depth d)) d start)
              k) =
          rw (dir, walk) at e in
        let (p, (there, is)) = grep_files-Elem (walk_files (suc (depth d)) d start) k h e' in
        found-IsHit start p h named
          (walk_files-IsFound d named start (suc (depth d)) start p (isdir-IsRoot d start safe dir)
            (Chain-self d start) there)
          is
  ]

-- On a disk whose entries have names, whatever `fnmatch` and the decoding are, and whatever is read of
-- a device or a pipe, where that returns: `grep` returns no more hits than it may, though it may
-- return one where it may return none; each hit is for what is reached from the path that `confine`
-- gave through directories, no link on the way and no link itself: a regular file that has the
-- query in what is read of it, or a device or a pipe that gave a text with it.
pub grep-IsHit :
    (fnmatch : Text → Text → Bool) (storage : Storage) (d : Disk) (root start : FilePath)
    (query rel include' : Text) (max_count : ℕ) (hits : List Hit)
    → AreNamed d
    → confine d root rel ≡ some start
    → grep fnmatch storage d root query rel include' max_count ≡ ok hits
    → (length hits ≤ max 1 max_count)
      × ((h : Hit) → Elem h hits → IsHit fnmatch storage d root (lower query) include' start h)
unfolding grep
grep-IsHit fnmatch storage d root start query rel include' max_count hits named c h =
    elim (Bool-cases (is_empty query || not (exists d start))) [
      | inl out ↦
          let e : ◌≡◌ {A = Result (List Hit)} (ok []) (ok hits) = rw (c, grep, out) at h in
          let same : [] ≡ hits = cc in rw (← same) (grind arith, λ h' e'. absurd e')
      | inr in' ↦
          let found =
            grep_files fnmatch storage d root (lower query) include' (walk d start) max_count in
          let e : ◌≡◌ {A = Result (List Hit)} (ok found) (ok hits) = rw (c, grep, in') at h in
          let same : found ≡ hits = cc in
          let safe = (confine-IsConfined d root rel start c).keeps d (λ q. refl) in
          rw (← same) (
            grep_files-length fnmatch storage d root (lower query) include' (walk d start)
                max_count,
            λ h'.
                grep_walk-IsHit fnmatch storage d root (lower query) include' start max_count h'
                  named safe,
          )
    ]
