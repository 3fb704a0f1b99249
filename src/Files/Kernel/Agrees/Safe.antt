-- ===== src/Files/Kernel/Agrees/Safe.antt =====
-- What `os.path.realpath` returns is safe to hand to the system.
use prax_sandbox.Base.{
  ℕ, zero, suc, ◌≡◌, ◌≢◌, sym, ◌∙◌, ◌⊎◌, inl, inr, List, [], ◌∷◌, ◌++◌, Option, none, some, arith,
  append_assoc, append-nil, Bool-cases, ◌==◌, map,
}
use prax_sandbox.Text.{Text, text_eq, split}
use prax_sandbox.Files.Disk.{FilePath, path_eq, Disk, parent}
use prax_sandbox.Files.Realpath.{
  Part, name, mark, Seen, find_seen, parts_of, is_absolute, start_of, walk, resolve,
}
use prax_sandbox.Files.Kernel.{stuck, at, through, look_up, kernel, names_of}
use prax_sandbox.Files.Kernel.Chains.{
  kernel-nil, kernel-stuck, kernel-at, kernel-through, kernel-first, Found,
}
use prax_sandbox.Files.Kernel.Agrees.{
  own, IsSafe, Follows, Marks, Leads, Marks-Leads, IsMarked, Marks-Follows, Follows-self,
}
use prax_sandbox.Files.Kernel.Agrees.Cases.{moved, entered, again, known, followed, NameCase-all}

module _ (d : Disk) where
  Leads-at :
      (p : FilePath) (n : Text) (q : FilePath)
      → (look_up d p n ≡ stuck) ⊎ (look_up d p n ≡ at q)
      → Leads d p (n ∷ []) q []
  unfolding Leads
  Leads-at p n q (inl e) names k x h =
      let h' : ◌≡◌ {A = Found} none (some x) = sym (kernel-stuck d k p n names e) ∙ h in cc
  Leads-at p n q (inr e) names k x h = (k, omega arith, sym (kernel-at d k p n names q e) ∙ h)

  Leads-through :
      (p : FilePath) (n t : Text)
      → (look_up d p n ≡ stuck) ⊎ (look_up d p n ≡ through t)
      → Leads d p (n ∷ []) (start_of p t) (split b'/' t)
  unfolding Leads
  Leads-through p n t (inl e) names k x h =
      let h' : ◌≡◌ {A = Found} none (some x) = sym (kernel-stuck d k p n names e) ∙ h in cc
  Leads-through p n t (inr e) names k x h =
      let (j, less, there) = kernel-through d k p n names t x e h in (j, omega arith, there)

  -- All that the system finds for the name is `r`.
  abbrev OnlyTo : FilePath → Text → FilePath → Type 0
  OnlyTo p n r = (k : ℕ) (x : FilePath × ℕ) → kernel d k p (n ∷ []) ≡ some x → x.0 ≡ r

  Leads-only : (p : FilePath) (n : Text) (r : FilePath) → OnlyTo p n r → Leads d p (n ∷ []) r []
  unfolding Leads
  Leads-only p n r only names k x h =
      let (m, j, le, first, then') = kernel-first d k p (n ∷ []) names x h in
      let same : m ≡ r = only k (m, j) first in (j, le, rw (← same) then')

  OnlyTo-at :
      (p : FilePath) (n : Text) (q : FilePath)
      → (look_up d p n ≡ stuck) ⊎ (look_up d p n ≡ at q)
      → OnlyTo p n q
  OnlyTo-at p n q (inl e) k x h =
      let h' : ◌≡◌ {A = Found} none (some x) = sym (kernel-stuck d k p n [] e) ∙ h in cc
  OnlyTo-at p n q (inr e) k x h =
      let h' : ◌≡◌ {A = Found} (some (q, k)) (some x) =
        sym (kernel-at d k p n [] q e ∙ kernel-nil d k q) ∙ h in
      ground arith

  record IsKnown (q r : FilePath) : Type 0 where
    safe : IsSafe d r
    only : (k : ℕ) (x : FilePath × ℕ) → kernel d k (parent q) (own q) ≡ some x → x.0 ≡ r

  record State (seen : Seen) (p : FilePath) (rest : List Part) : Type 0 where
    safe : IsSafe d p
    marks : Marks d p [] rest
    busy : (q : FilePath) → find_seen seen q ≡ some none → IsMarked d q rest
    known_as : (q r : FilePath) → find_seen seen q ≡ some (some r) → IsKnown q r

  -- Past a name.
  State-name :
      (seen : Seen) (p : FilePath) (n : Text) (rest : List Part) (q : FilePath)
      → IsSafe d q
      → Leads d p (n ∷ []) q []
      → State seen p (name n ∷ rest)
      → State seen q rest
  State-name seen p n rest q safe leads s = record {
    safe = safe;
    marks = Marks-Leads d p (n ∷ []) q [] [] rest leads s.marks;
    busy = s.busy;
    known_as = s.known_as;
  }

  find_seen-cons :
      (seen : Seen) (l q : FilePath) (o o' : Option FilePath)
      → find_seen ((l, o) ∷ seen) q ≡ some o'
      → ((l ≡ q) × (o ≡ o')) ⊎ ((l ≢ q) × (find_seen seen q ≡ some o'))
  unfolding find_seen
  find_seen-cons seen l q o o' h = elim (Bool-cases (l == q)) [
    | inl same ↦
        let h' : some o ≡ some o' = rw (same, find_seen) at h in
        inl ((path_eq.equals_iff l q).0 same, ground arith)
    | inr other ↦ inr (
      (λ e. let same = (path_eq.equals_iff l q).1 e in ground arith),
      (rw (other, find_seen) at h),
    )
  ]

  -- Past the mark of a link, which leads to the path that is reached.
  State-mark :
      (seen : Seen) (p l : FilePath) (rest : List Part)
      → State seen p (mark l ∷ rest)
      → State ((l, some p) ∷ seen) p rest
  unfolding Follows
  State-mark seen p l rest s = record {
    safe = s.safe;
    marks = s.marks.1;
    busy = λ q h. elim (find_seen-cons seen l q (some p) none h) [
      | inl (same, e) ↦ cc
      | inr (other, h') ↦ elim (s.busy q h') [ inl e ↦ absurd (other e) | inr later ↦ later ]
    ];
    known_as = λ q r h. elim (find_seen-cons seen l q (some p) (some r) h) [
      | inr (other, h') ↦ s.known_as q r h'
      | inl (same, e) ↦
          let e' : p ≡ r = ground arith in
          rw (← same, ← e')
            (record {
              safe = s.safe;
              only = λ k x there.
                  let (j, less, here) = s.marks.0 k x there in
                  let here' : ◌≡◌ {A = Found} (some (p, j)) (some x) =
                    sym (kernel-nil d j p) ∙ here in
                  ground arith;
            })
    ];
  }

  Marks-parts :
      (p : FilePath) (acc names : List Text) (rest : List Part)
      → Marks d p (acc ++ names) rest
      → Marks d p acc (map name names ++ rest)
  Marks-parts p acc [] rest m = rw (← append-nil acc) m
  Marks-parts p acc (n ∷ names) rest m =
      Marks-parts p (acc ++ (n ∷ [])) names rest (rw (append_assoc acc (n ∷ []) names) m)

  IsMarked-parts :
      (q : FilePath) (names : List Text) (rest : List Part)
      → IsMarked d q rest
      → IsMarked d q (map name names ++ rest)
  IsMarked-parts q [] rest m = m
  IsMarked-parts q (n ∷ names) rest m = IsMarked-parts q names rest m

  IsSafe-start : (p : FilePath) (t : Text) → IsSafe d p → IsSafe d (start_of p t)
  IsSafe-start p t safe = elim (Bool-cases (is_absolute t)) [ inl e ↦ rw e tt | inr e ↦ rw e safe ]

  -- Into the target of a link.
  State-follow :
      (seen : Seen) (p : FilePath) (n t : Text) (rest : List Part)
      → (look_up d p n ≡ stuck) ⊎ (look_up d p n ≡ through t)
      → State seen p (name n ∷ rest)
      → State (((n ∷ p), none) ∷ seen) (start_of p t) (parts_of t ++ (mark (n ∷ p) ∷ rest))
  unfolding Follows
  State-follow seen p n t rest look s =
      let names = split b'/' t in
      let into = Leads-through p n t look in
      record {
        safe = IsSafe-start p t s.safe;
        marks = Marks-parts (start_of p t) [] names (mark (n ∷ p) ∷ rest) (
          (λ k x h. elim look [
            | inl e ↦
                let h' : ◌≡◌ {A = Found} none (some x) = sym (kernel-stuck d k p n [] e) ∙ h in cc
            | inr e ↦
                let (j, less, there) = kernel-through d k p n [] t x e h in
                (j, less, (rw (append-nil names) at there))
          ]),
          rw (append-nil names) at
              (Marks-Leads d p (n ∷ []) (start_of p t) names [] rest into s.marks),
        );
        busy = λ q h.
            IsMarked-parts q names (mark (n ∷ p) ∷ rest)
              (elim (find_seen-cons seen (n ∷ p) q none none h) [
                | inl (same, e) ↦ inl same
                | inr (other, h') ↦ inr (s.busy q h')
              ]);
        known_as = λ q r h. elim (find_seen-cons seen (n ∷ p) q none (some r) h) [
          | inl (same, e) ↦ cc
          | inr (other, h') ↦ s.known_as q r h'
        ];
      }

  -- A link that is met while it is resolved leads nowhere.
  dead :
      (seen : Seen) (p : FilePath) (n : Text) (rest : List Part)
      → find_seen seen (n ∷ p) ≡ some none
      → State seen p (name n ∷ rest)
      → (q : FilePath) → OnlyTo p n q
  dead seen p n rest met s q k x h =
      let (names, f) = Marks-Follows d (n ∷ p) p (n ∷ []) rest (s.busy (n ∷ p) met) s.marks in
      absurd (Follows-self d n p names f (suc k) k x (omega arith) h)

  IsSafe-moved : (p q : FilePath) → (q ≡ p) ⊎ (q ≡ parent p) → IsSafe d p → IsSafe d q
  IsSafe-moved p q (inl e) safe = rw e safe
  IsSafe-moved [] q (inr e) safe = rw e tt
  IsSafe-moved (n ∷ p) q (inr e) safe = rw e safe.0

  IsSafeFor : (Seen → FilePath → List Part → Option FilePath) → Type 0
  IsSafeFor more =
      (seen : Seen) (p : FilePath) (rest : List Part) (r : FilePath)
      → State seen p rest
      → more seen p rest ≡ some r
      → IsSafe d r

  walk-IsSafe :
      (more : Seen → FilePath → List Part → Option FilePath)
      → IsSafeFor more
      → IsSafeFor (walk d more)
  unfolding IsSafeFor walk
  walk-IsSafe more safe_more seen p [] r s h = let e : p ≡ r = ground arith in rw (← e) s.safe
  walk-IsSafe more safe_more seen p (mark q ∷ rest) r s h =
      walk-IsSafe more safe_more ((q, some p) ∷ seen) p rest r (State-mark seen p q rest s) h
  walk-IsSafe more safe_more seen p (name n ∷ rest) r s h = elim (NameCase-all d seen p n) [
    | moved q way e look ↦
        walk-IsSafe more safe_more seen q rest r
          (State-name seen p n rest q (IsSafe-moved p q way s.safe) (Leads-at p n q look) s)
          (rw (e, walk) at h)
    | entered e look ↦
        walk-IsSafe more safe_more seen (n ∷ p) rest r
          (State-name seen p n rest (n ∷ p) (s.safe, OnlyTo-at p n (n ∷ p) look)
            (Leads-at p n (n ∷ p) look) s)
          (rw (e, walk) at h)
    | again met e ↦
        let only = dead seen p n rest met s (n ∷ p) in
        walk-IsSafe more safe_more seen (n ∷ p) rest r
          (State-name seen p n rest (n ∷ p) (s.safe, only) (Leads-only p n (n ∷ p) only) s)
          (rw (e, walk) at h)
    | known q found e ↦
        let k = s.known_as (n ∷ p) q found in
        walk-IsSafe more safe_more seen q rest r
          (State-name seen p n rest q k.safe (Leads-only p n q k.only) s) (rw (e, walk) at h)
    | followed t e look ↦
        safe_more ((n ∷ p, none) ∷ seen) (start_of p t) (parts_of t ++ (mark (n ∷ p) ∷ rest)) r
          (State-follow seen p n t rest look s) (rw (e, walk) at h)
  ]

  resolve-IsSafe : (k : ℕ) → IsSafeFor (resolve d k)
  unfolding IsSafeFor resolve
  resolve-IsSafe zero = walk-IsSafe (λ seen p rest. none) (λ seen p rest r s h. cc)
  resolve-IsSafe (suc k) = walk-IsSafe (resolve d k) (resolve-IsSafe k)

  pub kernel-IsSafe :
      (p : FilePath) (k : ℕ) (m : FilePath) (j : ℕ)
      → IsSafe d p
      → kernel d k [] (names_of p) ≡ some (m, j)
      → m ≡ p
  kernel-IsSafe [] k m j safe h =
      let h' : ◌≡◌ {A = Found} (some ([], k)) (some (m, j)) = sym (kernel-nil d k []) ∙ h in
      ground arith
  kernel-IsSafe (n ∷ p) k m j safe h =
      let (q, i, le, first, then') = kernel-first d k [] (names_of p) (n ∷ []) (m, j) h in
      let same : q ≡ p = kernel-IsSafe p k q i safe.0 first in safe.1 i (m, j) (rw same at then')

  pub resolve-names-IsSafe :
      (k : ℕ) (p : FilePath) (names : List Text) (r : FilePath)
      → IsSafe d p
      → resolve d k [] p (map name names) ≡ some r
      → IsSafe d r
  unfolding find_seen IsSafeFor
  resolve-names-IsSafe k p names r safe h =
      resolve-IsSafe k [] p (map name names) r
        (record {
          safe = safe;
          marks = rw (append-nil (map name names)) at (Marks-parts p [] names [] tt);
          busy = λ q e. cc;
          known_as = λ q r e. cc;
        })
        h
