-- ===== src/Files/Walk/Finds.antt =====
-- What `os.walk` finds: every file that is reached through directories, and nothing else.
use prax_sandbox.Base.{
  ◌≤◌, ◌≡◌, refl, sym, ap, ◌∙◌, ◌⊎◌, inl, inr, true, false, not, List, [], ◌∷◌, none, some, arith,
  Bool-cases, Option-cases, ◌==◌, contains, contains_iff, length, keep, Elem, Elem-append,
  Elem-append_left, Elem-append_right, Elem-keep, keep-Elem,
}
use prax_sandbox.Text.{Text, text_eq}
use prax_sandbox.Files.Disk.{
  FilePath, path_eq, path_beq, Node, directory, Disk, entry_at, node_at, link_at,
}
use prax_sandbox.Files.Realpath.{is_skipped, is_up}
use prax_sandbox.Files.Kernel.{look_up, at, kernel, names_of, max_links}
use prax_sandbox.Files.Kernel.Chains.{go_on, kernel-append, kernel-nil, kernel-at}
use prax_sandbox.Files.System.{find_place, stat}
use prax_sandbox.Files.Growth.Calls.{IsRoot}
use prax_sandbox.Files.Walk.{name_in, add_new, names_in, islink, children, depth}

-- The names of entries are names: not empty, `.` or `..`.
abbrev pub IsName : Text → Type 0
IsName n = (is_skipped n ≡ false) × (is_up n ≡ false)

abbrev pub HasName : FilePath → Type 0
HasName [] = Unit
HasName (n ∷ p) = IsName n

abbrev pub AreNamed : Disk → Type 0
AreNamed [] = Unit
AreNamed ((q, node) ∷ d) = HasName q × AreNamed d

Elem-add_new :
    (n : Text) (new names : List Text) → Elem n new ⊎ Elem n names → Elem n (add_new new names)
Elem-add_new n new names (inr h) =
    Elem-append_right n (keep (λ n. not (contains names n)) new) names h
Elem-add_new n new names (inl h) = elim (Bool-cases (contains names n)) [
  | inl old ↦
      Elem-append_right n (keep (λ n. not (contains names n)) new) names
        ((contains_iff names n).0 old)
  | inr fresh ↦
      Elem-append_left n (keep (λ n. not (contains names n)) new) names
        (keep-Elem (λ n. not (contains names n)) n new h (rw fresh refl))
]

-- Every entry of a directory is listed.
pub names_in-Elem :
    (d : Disk) (p : FilePath) (n : Text) (x : Node)
    → entry_at d (n ∷ p) ≡ some x
    → Elem n (names_in d p)
unfolding entry_at names_in path_beq
names_in-Elem [] p n x h = cc
names_in-Elem (([], node) ∷ d) p n x h =
    Elem-add_new n [] (names_in d p) (inr (names_in-Elem d p n x h))
names_in-Elem ((m ∷ q, node) ∷ d) p n x h = elim (Bool-cases ((m ∷ q) == (n ∷ p))) [
  | inl e ↦
      let same : m ∷ q ≡ n ∷ p = (path_eq.equals_iff (m ∷ q) (n ∷ p)).0 e in
      let same_dir : q == p ≡ true = (path_eq.equals_iff q p).1 (cc) in
      let first : m ≡ n = cc in
      Elem-add_new n (name_in p (m ∷ q)) (names_in d p) (inl (rw same_dir (inl first)))
  | inr e ↦
      let h' : entry_at d (n ∷ p) ≡ some x = rw e at h in
      Elem-add_new n (name_in p (m ∷ q)) (names_in d p) (inr (names_in-Elem d p n x h'))
]

-- What is listed is a name.
pub names_in-IsName :
    (d : Disk) (p : FilePath) (n : Text) → AreNamed d → Elem n (names_in d p) → IsName n
unfolding names_in
names_in-IsName [] p n named h = absurd h
names_in-IsName ((q, node) ∷ d) p n named h =
    elim (Elem-append n (keep (λ n. not (contains (names_in d p) n)) (name_in p q)) (names_in d p)
      h) [
        | inr h' ↦ names_in-IsName d p n named.1 h'
        | inl h' ↦
            entry q named.0 (Elem-keep (λ n. not (contains (names_in d p) n)) n (name_in p q) h').0
      ]
  where
    entry : (q : FilePath) → HasName q → Elem n (name_in p q) → IsName n
    entry [] ok' e = absurd e
    entry (m ∷ q) ok' e = elim (Bool-cases (q == p)) [
      | inr no' ↦ absurd (rw no' at e)
      | inl yes' ↦ elim (rw yes' at e) [ inl same ↦ rw (← same) ok' | inr e' ↦ absurd e' ]
    ]

pub Elem-children :
    (q p : FilePath) (names : List Text)
    → Elem q (children p names)
    → (n : Text) × (Elem n names × (q ≡ n ∷ p))
Elem-children q p [] h = absurd h
Elem-children q p (n ∷ names) (inl e) = (n, (inl refl, sym e))
Elem-children q p (n ∷ names) (inr h) =
    let (m, (there, same)) = Elem-children q p names h in (m, (inr there, same))

pub children-Elem :
    (n : Text) (p : FilePath) (names : List Text) → Elem n names → Elem (n ∷ p) (children p names)
children-Elem n p [] h = absurd h
children-Elem n p (m ∷ names) (inl e) = inl (rw e refl)
children-Elem n p (m ∷ names) (inr h) = inr (children-Elem n p names h)

pub depth-le : (d : Disk) (p : FilePath) (x : Node) → entry_at d p ≡ some x → length p ≤ depth d
unfolding entry_at depth
depth-le [] p x h = cc
depth-le ((q, node) ∷ d) p x h = elim (Bool-cases (q == p)) [
  | inl e ↦ let same : q ≡ p = (path_eq.equals_iff q p).0 e in rw (← same) (grind arith)
  | inr e ↦
      let h' : entry_at d p ≡ some x = rw e at h in let rest = depth-le d p x h' in grind arith
]

pub no_link : (d : Disk) (p : FilePath) → islink d p ≡ false → link_at d p ≡ none
no_link d p h = elim (Option-cases (link_at d p)) [
  | inl e ↦ e
  | inr (t, e) ↦ let h' : true ≡ false = rw e at h in cc
]

module _ (d : Disk) (n : Text) (p : FilePath) (r : IsRoot d p) (named : IsName n)
    (plain : link_at d (n ∷ p) ≡ none) where
  look_up-child : look_up d p n ≡ at (n ∷ p)
  unfolding look_up
  look_up-child = rw (look_up, r.is_dir, named.0, named.1, plain) refl

  child-found : kernel d max_links [] (names_of (n ∷ p)) ≡ some (n ∷ p, r.left)
  child-found =
      kernel-append d max_links [] (names_of p) (n ∷ [])
      ∙ ap (λ o. go_on d o (n ∷ [])) r.found
      ∙ kernel-at d r.left p n [] (n ∷ p) look_up-child
      ∙ kernel-nil d r.left (n ∷ p)

  -- Below a directory that is found, what is no link is found at its place.
  pub stat-child : stat d (n ∷ p) ≡ node_at d (n ∷ p)
  unfolding stat find_place
  stat-child = rw (child-found, stat, find_place) refl

  pub child-IsRoot : node_at d (n ∷ p) ≡ some directory → IsRoot d (n ∷ p)
  child-IsRoot h = record { is_dir = h; left = r.left; found = child-found }
