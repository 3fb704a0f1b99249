-- ===== src/Files/Kernel/Agrees/Cases.antt =====
-- Each step of `os.path.realpath` beside the system's.
use prax_sandbox.Base.{
  ◌≡◌, refl, ap, ◌∙◌, ◌⊎◌, inl, inr, false, ◌∷◌, Option, none, some, Bool-cases, Option-cases,
  if◌then◌else◌,
}
use prax_sandbox.Text.{Text, text_eq}
use prax_sandbox.Files.Disk.{FilePath, path_eq, Disk, node_at, link_at, parent}
use prax_sandbox.Files.Realpath.{Seen, find_seen, is_skipped, is_up, to, follow, name_step}
use prax_sandbox.Files.Kernel.{Lookup, stuck, at, through, is_directory, link_lookup, look_up}

-- What a name is, to `realpath` and to the system.
pub data NameCase (d : Disk) (seen : Seen) (p : FilePath) (n : Text) : Type 0 where
  moved :
      (q : FilePath)
      → (q ≡ p) ⊎ (q ≡ parent p)
      → name_step d seen p n ≡ to q
      → (look_up d p n ≡ stuck) ⊎ (look_up d p n ≡ at q)
      → NameCase d seen p n
  entered :
      name_step d seen p n ≡ to (n ∷ p)
      → (look_up d p n ≡ stuck) ⊎ (look_up d p n ≡ at (n ∷ p))
      → NameCase d seen p n
  again :
      find_seen seen (n ∷ p) ≡ some none → name_step d seen p n ≡ to (n ∷ p) → NameCase d seen p n
  known :
      (r : FilePath)
      → find_seen seen (n ∷ p) ≡ some (some r)
      → name_step d seen p n ≡ to r
      → NameCase d seen p n
  followed :
      (t : Text)
      → name_step d seen p n ≡ follow (n ∷ p) t
      → (look_up d p n ≡ stuck) ⊎ (look_up d p n ≡ through t)
      → NameCase d seen p n

module _ (d : Disk) (seen : Seen) (p : FilePath) (n : Text) where
  -- Nothing is found below what is no directory.
  look_up-else :
      (l : Lookup)
      → (if is_skipped n
          then at p
          else if is_up n
          then at (parent p)
          else link_lookup (link_at d (n ∷ p)) (n ∷ p))
        ≡ l
      → (look_up d p n ≡ stuck) ⊎ (look_up d p n ≡ l)
  unfolding look_up
  look_up-else l e = elim (Bool-cases (is_directory (node_at d p))) [
    | inl there ↦ inr (rw (there, look_up) e)
    | inr gone ↦ inl (rw (gone, look_up) refl)
  ]

  link-NameCase :
      (o : Option Text)
      → is_skipped n ≡ false
      → is_up n ≡ false
      → link_at d (n ∷ p) ≡ o
      → NameCase d seen p n
  unfolding name_step
  link-NameCase none plain down e =
      entered (rw (plain, down, e, name_step) refl)
        (look_up-else (at (n ∷ p)) (rw (plain, down, e) refl))
  link-NameCase (some t) plain down e = elim (Option-cases (find_seen seen (n ∷ p))) [
    | inl new ↦
        followed t (rw (plain, down, e, new, name_step) refl)
          (look_up-else (through t) (rw (plain, down, e) refl))
    | inr (o, old) ↦ elim (Option-cases o) [
      | inl busy ↦
          let e' : find_seen seen (n ∷ p) ≡ some none = old ∙ ap some busy in
          again e' (rw (plain, down, e, e', name_step) refl)
      | inr (r, done) ↦
          let e' : find_seen seen (n ∷ p) ≡ some (some r) = old ∙ ap some done in
          known r e' (rw (plain, down, e, e', name_step) refl)
    ]
  ]

  pub NameCase-all : NameCase d seen p n
  unfolding name_step
  NameCase-all = elim (Bool-cases (is_skipped n)) [
    | inl e ↦ moved p (inl refl) (rw (e, name_step) refl) (look_up-else (at p) (rw e refl))
    | inr e ↦ elim (Bool-cases (is_up n)) [
      | inl e' ↦
          moved (parent p) (inr refl) (rw (e, e', name_step) refl)
            (look_up-else (at (parent p)) (rw (e, e') refl))
      | inr e' ↦ link-NameCase (link_at d (n ∷ p)) e e' refl
    ]
  ]
