-- ===== src/Files/Contained/Operations.antt =====
-- Writes and tars of prax_sandbox/fileops.py change nothing outside the root.
use prax_sandbox.Base.{
  ◌≡◌, refl, inl, inr, ℕ, ◌+◌, Bool, true, false, not, List, [], ◌∷◌, Bool-cases, Option-cases,
  if◌then◌else◌, ltb, length,
}
use prax_sandbox.Text.{Text}
use prax_sandbox.Files.Disk.{FilePath, path_eq, Disk, parent}
use prax_sandbox.Files.System.{make_dirs}
use prax_sandbox.Files.Confined.{
  Result, ok, err, confine_names, confine, after_dirs, relative, write_confined, write_file,
  os_error, too_many, Kind, file_member, dir_member, other_member, Member, is_unsafe, after_member,
  extract_at, extract_member, extract_all, push_tar, max_members,
}
use prax_sandbox.Files.Growth.{is_under, Grows, Grows-refl, Grows-trans, Keeps, Keeps-parent}
use prax_sandbox.Files.Growth.Calls.{IsRoot, IsRoot-Grows}
use prax_sandbox.Files.Growth.Calls.Made.{open_write-Grows}
use prax_sandbox.Files.Contained.{IsRoot-parent, is_under-parent, make_dirs-IsRoot, make_dirs-Grows}
use prax_sandbox.Files.Contained.Within.{is_under_trans, confine-IsConfined}

module _ (root : FilePath) (d : Disk) (r : IsRoot d root) where
  after_dirs-Grows :
      (p : FilePath) (contents : Text) (above : Disk × Bool)
      → is_under root p ≡ true
      → Keeps d p
      → Grows root d above.0
      → Grows root d (after_dirs p contents above).0
  after_dirs-Grows p contents (d', true) under keeps g =
      Grows-trans root d d' _ g (open_write-Grows root d' p contents under (keeps d' g.links))
  after_dirs-Grows p contents (d', false) under keeps g = g

  pub make_parents-Grows :
      (p : FilePath) → is_under root p ≡ true → Keeps d p → Grows root d (make_dirs d (parent p)).0
  unfolding make_dirs
  make_parents-Grows [] under keeps = Grows-refl root d
  make_parents-Grows (n ∷ p) under keeps = elim (is_under-parent root n p under) [
    | inl same ↦
        let above = IsRoot-parent d n p (keeps d (λ q. refl)).0 (rw (← same) at r) in
        rw (make_dirs-IsRoot d p (keeps d (λ q. refl)).0 above) (Grows-refl root d)
    | inr under' ↦ make_dirs-Grows root d p r (Keeps-parent d n p keeps) under'
  ]

  write_confined-Grows :
      (dest p : FilePath) (contents : Text)
      → is_under root p ≡ true
      → Keeps d p
      → Grows root d (write_confined d dest p contents).0
  unfolding write_confined
  write_confined-Grows dest p contents under keeps =
      elim (Option-cases (confine_names d dest (relative dest (parent p)))) [
        | inl e ↦ rw (e, write_confined) (Grows-refl root d)
        | inr (q, e) ↦
            rw (e, write_confined)
              (after_dirs-Grows p contents (make_dirs d (parent p)) under keeps
                (make_parents-Grows p under keeps))
      ]

  extract_at-Grows :
      (dest p : FilePath) (kind : Kind) (contents : Text)
      → is_under root p ≡ true
      → Keeps d p
      → Grows root d (extract_at d dest p kind contents).0
  extract_at-Grows dest p file_member contents under keeps =
      write_confined-Grows dest p contents under keeps
  extract_at-Grows dest p dir_member contents under keeps = make_dirs-Grows root d p r keeps under
  extract_at-Grows dest p other_member contents under keeps = make_dirs-Grows root d p r keeps under

  extract_member-Grows :
      (dest : FilePath) (m : Member)
      → is_under root dest ≡ true
      → Grows root d (extract_member d dest m).0
  unfolding extract_member
  extract_member-Grows dest m above = elim (Bool-cases (is_unsafe m)) [
    | inl e ↦ rw (e, extract_member) (Grows-refl root d)
    | inr e ↦ elim (Option-cases (confine d dest m.member_name)) [
      | inl e' ↦ rw (e, extract_member, e') (Grows-refl root d)
      | inr (p, e') ↦
          let c = confine-IsConfined d dest m.member_name p e' in
          rw (e, extract_member, e')
            (extract_at-Grows dest p m.kind m.contents (is_under_trans root dest p above c.under)
              c.keeps)
    ]
  ]

  -- Where the root is a directory that the system finds by its path: whatever name is given, in
  -- whatever state the links below the root are, `write_file` changes nothing outside the root,
  -- makes no link and removes none, and every directory stays.
  pub write_file-Grows : (rel contents : Text) → Grows root d (write_file d root rel contents).0
  unfolding write_file
  write_file-Grows rel contents = elim (Option-cases (confine d root rel)) [
    | inl e ↦ rw (e, write_file) (Grows-refl root d)
    | inr (p, e) ↦
        let c = confine-IsConfined d root rel p e in
        rw (e, write_file) (write_confined-Grows root p contents c.under c.keeps)
  ]

after_member-Grows :
    (root : FilePath) (d : Disk) (more : Disk → ℕ → Disk × Result ℕ) (x : Disk × Result ℕ)
    → ((d' : Disk) (n : ℕ) → Grows root d d' → Grows root d' (more d' n).0)
    → Grows root d x.0
    → Grows root d (after_member more x).0
after_member-Grows root d more (d', err e) grow g = g
after_member-Grows root d more (d', ok n) grow g = Grows-trans root d d' _ g (grow d' n g)

extract_all-Grows :
    (root dest : FilePath) (members : List Member) (d : Disk) (count : ℕ)
    → is_under root dest ≡ true
    → IsRoot d root
    → Grows root d (extract_all d dest members count).0
unfolding extract_all
extract_all-Grows root dest [] d count above r = Grows-refl root d
extract_all-Grows root dest (m ∷ members) d count above r =
    after_member-Grows root d (λ d' n. extract_all d' dest members (count + n))
      (extract_member d dest m)
      (λ d' n g.
        extract_all-Grows root dest members d' (count + n) above (IsRoot-Grows root d d' g r))
      (extract_member-Grows root d r dest m above)

-- Where the root is a directory that the system finds by its path: whatever members a tar has, and
-- whatever links it is extracted onto, `push_tar` changes nothing outside the root, makes no link
-- and removes none, and every directory stays; also when it stops at an unsafe member.
pub push_tar-Grows :
    (root : FilePath) (d : Disk) (members : List Member) (rel : Text)
    → IsRoot d root
    → Grows root d (push_tar d root members rel).0
unfolding push_tar
push_tar-Grows root d members rel r = elim (Option-cases (confine d root rel)) [
  | inl e ↦ rw (e, push_tar) (Grows-refl root d)
  | inr (dest, e) ↦
      let c = confine-IsConfined d root rel dest e in
      let g = make_dirs-Grows root d dest r c.keeps c.under in
      rw (e, push_tar) (made dest c.under (make_dirs d dest) g)
]
  where
    made :
        (dest : FilePath)
        → is_under root dest ≡ true
        → (x : Disk × Bool) → Grows root d x.0
        → Grows root d
            (if not x.1
              then (x.0, err os_error)
              else if ltb max_members (length members)
              then (x.0, err too_many)
              else extract_all x.0 dest members 0).0
    made dest above (d', false) g = g
    made dest above (d', true) g = elim (Bool-cases (ltb max_members (length members))) [
      | inl e ↦ rw e g
      | inr e ↦ rw e (
          Grows-trans root d d' _ g
            (extract_all-Grows root dest members d' 0 above (IsRoot-Grows root d d' g r)))
    ]
