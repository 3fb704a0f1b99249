-- ===== src/Files/Listing/Turns.antt =====
-- What the loop of `pull_tar` in prax_sandbox/fileops.py packs of a list of paths.
use prax_sandbox.Base.{
  ℕ, ◌≡◌, ◌⊎◌, refl, sym, ap, ◌∙◌, inl, inr, false, List, [], ◌∷◌, ◌++◌, Option, none, some, arith,
  ◌==◌, nat_eq, Bool-cases, Option-cases, All, Elem, Elem-append_left, Elem-append_right, subst,
}
use prax_sandbox.Text.{Text}
use prax_sandbox.Files.Disk.{FilePath, Node, file, directory, link, special, Disk}
use prax_sandbox.Files.System.{stat}
use prax_sandbox.Files.Walk.{islink}
use prax_sandbox.Files.Listing.{
  rel_text, Storage, TarMember, packed, hard_link, packed_name, tar_member, tar_files,
}

All-append : {A : Type 0} (P : A → Type 0) (xs ys : List A) → All P xs → All P ys → All P (xs ++ ys)
All-append P [] ys h h' = h'
All-append P (x ∷ xs) ys (h, hs) h' = (h, All-append P xs ys hs h')

module _ (storage : Storage) (d : Disk) (root : FilePath) where
  -- A regular file and no link to one.
  abbrev pub IsRegular : FilePath → Text → Type 0
  IsRegular p t = (islink d p ≡ false) × (stat d p ≡ some (file t))

  -- The file of a name, which is one of these paths and has this inode.
  abbrev pub IsSeen : List FilePath → ℕ × Text → Type 0
  IsSeen all (i, name) =
      (q : FilePath) × (u : Text) × Elem q all
      × IsRegular q u
      × (name ≡ rel_text root q)
      × (storage.inode q ≡ i)

  -- The file of a member; for a hard link also the file under the other name, which is the same.
  abbrev pub IsOf : List FilePath → TarMember → Type 0
  IsOf all (packed name contents) =
      (p : FilePath) × Elem p all × IsRegular p contents × (name ≡ rel_text root p)
  IsOf all (hard_link name first) =
      (p : FilePath) × (t : Text) × Elem p all
      × IsRegular p t
      × (name ≡ rel_text root p)
      × IsSeen all (storage.inode p, first)

  packed_name-IsSeen :
      (all : List FilePath) (seen : List (ℕ × Text)) (i : ℕ) (first : Text)
      → All (IsSeen all) seen
      → packed_name i seen ≡ some first
      → IsSeen all (i, first)
  unfolding packed_name
  packed_name-IsSeen all [] i first known e = cc
  packed_name-IsSeen all ((j, name) ∷ seen) i first (k, known) e = elim (Bool-cases (j == i)) [
    | inl same ↦
        let named' : some name ≡ some first = rw same at e in
        let (q, u, there, regular, is, at) = k in
        (q, u, there, regular, sym (some_eq named') ∙ is, at ∙ ground arith)
    | inr other ↦ packed_name-IsSeen all seen i first known (rw other at e)
  ]
    where
      some_eq : {s t : Text} → some s ≡ some t → s ≡ t
      some_eq h = cc

  tar_member-IsOf :
      (all : List FilePath) (seen : List (ℕ × Text)) (p : FilePath) (o : Option Node)
      → Elem p all
      → stat d p ≡ o
      → All (IsSeen all) seen
      → All (IsOf all) (tar_member storage d root seen p o).0
        × All (IsSeen all) (tar_member storage d root seen p o).1
  tar_member-IsOf all seen p none there at known = (tt, known)
  tar_member-IsOf all seen p (some directory) there at known = (tt, known)
  tar_member-IsOf all seen p (some (link t)) there at known = (tt, known)
  tar_member-IsOf all seen p (some special) there at known = (tt, known)
  tar_member-IsOf all seen p (some (file t)) there at known = elim (Bool-cases (islink d p)) [
    | inl e ↦ rw e (tt, known)
    | inr e ↦ elim (Option-cases (packed_name (storage.inode p) seen)) [
      | inl new ↦
          rw (e, new) (((p, there, (e, at), refl), tt), ((p, t, there, (e, at), refl, refl), known))
      | inr (first, old) ↦
          let same = packed_name-IsSeen all seen (storage.inode p) first known old in
          rw (e, old) (((p, t, there, (e, at), refl, same), tt), known)
    ]
  ]

  pub tar_files-IsOf :
      (all ps : List FilePath) (seen : List (ℕ × Text))
      → All (λ p. Elem p all) ps
      → All (IsSeen all) seen
      → All (IsOf all) (tar_files storage d root seen ps)
  unfolding tar_files
  tar_files-IsOf all [] seen there known = tt
  tar_files-IsOf all (p ∷ ps) seen (here, there) known =
      let (members, known') = tar_member-IsOf all seen p (stat d p) here refl known in
      All-append (IsOf all) _ _ members (tar_files-IsOf all ps _ there known')

  -- A file is in the tar: with its contents, or as a hard link to a name that was packed before or is
  -- packed in the tar.
  abbrev pub IsHeldFrom : List (ℕ × Text) → List TarMember → FilePath → Text → Type 0
  IsHeldFrom seen tar p t =
      Elem (packed (rel_text root p) t) tar
      ⊎ ((first : Text) × Elem (hard_link (rel_text root p) first) tar
          × ((packed_name (storage.inode p) seen ≡ some first)
              ⊎ ((u : Text) × Elem (packed first u) tar)))

  tar_member-IsHeldFrom :
      (seen : List (ℕ × Text)) (rest : List TarMember) (p : FilePath) (t : Text)
      → IsRegular p t
      → IsHeldFrom seen ((tar_member storage d root seen p (stat d p)).0 ++ rest) p t
  tar_member-IsHeldFrom seen rest p t (e, at) =
      elim (Option-cases (packed_name (storage.inode p) seen)) [
        | inl new ↦ rw (at, e, new) (inl (inl refl))
        | inr (first, old) ↦ rw (at, e, old) (inr (first, inl refl, inl refl))
      ]

  -- A name that a turn makes known is packed in that turn.
  packed_name-turn :
      (seen : List (ℕ × Text)) (q : FilePath) (o : Option Node) (i : ℕ) (first : Text)
      → packed_name i (tar_member storage d root seen q o).1 ≡ some first
      → (packed_name i seen ≡ some first)
        ⊎ ((u : Text) × Elem (packed first u) (tar_member storage d root seen q o).0)
  unfolding packed_name
  packed_name-turn seen q none i first h = inl h
  packed_name-turn seen q (some directory) i first h = inl h
  packed_name-turn seen q (some (link t)) i first h = inl h
  packed_name-turn seen q (some special) i first h = inl h
  packed_name-turn seen q (some (file t)) i first h = elim (Bool-cases (islink d q)) [
    | inl e ↦ inl (rw e at h)
    | inr e ↦ elim (Option-cases (packed_name (storage.inode q) seen)) [
      | inr (name, old) ↦ inl (rw (e, old) at h)
      | inl new ↦ elim (Bool-cases (storage.inode q == i)) [
        | inr other ↦ inl (rw (e, new, other) at h)
        | inl same ↦
            let is : some (rel_text root q) ≡ some first = rw (e, new, same) at h in
            rw (e, new) (inr (t, inl (ap (λ n. packed n t) (some_eq is))))
      ]
    ]
  ]
    where
      some_eq : {s t : Text} → some s ≡ some t → s ≡ t
      some_eq h = cc

  pub tar_files-IsHeldFrom :
      (ps : List FilePath) (seen : List (ℕ × Text)) (p : FilePath) (t : Text)
      → Elem p ps
      → IsRegular p t
      → IsHeldFrom seen (tar_files storage d root seen ps) p t
  unfolding tar_files
  tar_files-IsHeldFrom [] seen p t there regular = absurd there
  tar_files-IsHeldFrom (q ∷ ps) seen p t (inl e) regular =
      subst (λ q. IsHeldFrom seen (tar_files storage d root seen (q ∷ ps)) p t) (sym e)
        (tar_member-IsHeldFrom seen _ p t regular)
  tar_files-IsHeldFrom (q ∷ ps) seen p t (inr there) regular =
      let turn = tar_member storage d root seen q (stat d q) in
      let rest = tar_files storage d root turn.1 ps in
      elim (tar_files-IsHeldFrom ps turn.1 p t there regular) [
        | inl whole ↦ inl (Elem-append_right (packed (rel_text root p) t) turn.0 rest whole)
        | inr (first, linked, from) ↦ inr (
          first,
          Elem-append_right (hard_link (rel_text root p) first) turn.0 rest linked,
          elim from [
            | inr (u, later) ↦ inr (u, Elem-append_right (packed first u) turn.0 rest later)
            | inl known ↦ elim (packed_name-turn seen q (stat d q) (storage.inode p) first known) [
              | inl before ↦ inl before
              | inr (u, now) ↦ inr (u, Elem-append_left (packed first u) turn.0 rest now)
            ]
          ],
        )
      ]
