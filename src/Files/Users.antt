-- ===== src/Files/Users.antt =====
-- `resolve_user_root` of prax_sandbox/fileops.py. The working directory of the process is a path
-- without links.
use prax_sandbox.Base.{
  ◌≡◌, refl, ap, ◌∙◌, inl, inr, arith, Bool, true, false, ◌||◌, [], ◌∷◌, Option, none, some,
  if◌then◌else◌, ◌==◌, nat_eq, is_empty, map, any, contains, Option-cases, Bool-cases,
}
use prax_sandbox.Text.{Text, codes, text_eq, lstrip, split}
use prax_sandbox.Files.Disk.{FilePath, path_eq, Disk}
use prax_sandbox.Files.Realpath.{name, is_absolute, start_of, parts_of, realpath}
use prax_sandbox.Files.Kernel.{names_of}
use prax_sandbox.Files.System.{exists, make_dirs}
use prax_sandbox.Files.Confined.{Result, ok, err, escape, os_error, within, is_below}
use prax_sandbox.Files.Growth.{is_under, Grows, Grows-refl, Keeps, Keeps-realpath, Keeps-from}
use prax_sandbox.Files.Growth.Calls.{IsRoot}
use prax_sandbox.Files.Contained.{make_last-Grows, stat-IsRoot}
use prax_sandbox.Files.Contained.Within.{within-some}

-- `user_id.lstrip("+")`
abbrev pub safe_id : Text → Text
safe_id user_id = lstrip (λ c. c == b'+') user_id

abbrev pub is_bad_id : Text → Bool
is_bad_id id =
    is_empty id
    || contains (codes "." ∷ codes ".." ∷ []) id
    || any (λ c. c == b'/') id
    || any (λ c. c == b'\\') id

-- `os.path.realpath(workspace_dir)`
abbrev pub base_of : Disk → FilePath → Text → Option FilePath
base_of d cwd workspace_dir = realpath d (start_of cwd workspace_dir) (parts_of workspace_dir)

abbrev pub or_escape : Option FilePath → Result FilePath
or_escape none = err escape
or_escape (some p) = ok p

-- After `os.makedirs`.
abbrev pub checked_root : FilePath → FilePath → Disk × Bool → Disk × Result FilePath
checked_root base root (d, false) = (d, err os_error)
checked_root base root (d, true) =
    (d, or_escape (within base (realpath d [] (map name (names_of root)))))

unfoldable pub resolve_user_root : Disk → FilePath → Text → Text → Disk × Result FilePath
resolve_user_root d cwd workspace_dir user_id =
    let id = safe_id user_id in
    if is_bad_id id then (d, err escape) else elim (base_of d cwd workspace_dir) [
      | none ↦ (d, err os_error)
      | some base ↦ checked_root base (id ∷ base) (make_dirs d (id ∷ base))
    ]

or_escape-within :
    (base : FilePath) (o : Option FilePath) (r : FilePath)
    → or_escape (within base o) ≡ ok r
    → (o ≡ some r) × (is_under base r ≡ true)
or_escape-within base o r h = elim (Option-cases (within base o)) [
  | inl e ↦ let h' : ◌≡◌ {A = Result FilePath} (err escape) (ok r) = rw e at h in cc
  | inr (q, e) ↦
      let h' : ◌≡◌ {A = Result FilePath} (ok q) (ok r) = rw e at h in
      let same : q ≡ r = cc in within-some base o r (e ∙ ap some same)
]

-- What holds of the result.
abbrev pub IsUserRoot : FilePath → Disk → Disk × Result FilePath → Type 0
IsUserRoot base d x =
    Grows base d x.0 × ((r : FilePath) → x.1 ≡ ok r → (is_under base r ≡ true) × Keeps x.0 r)

checked_root-IsUserRoot :
    (d : Disk) (base root : FilePath) (x : Disk × Bool)
    → Grows base d x.0
    → IsUserRoot base d (checked_root base root x)
checked_root-IsUserRoot d base root (d', false) g = (g, λ r h. cc)
checked_root-IsUserRoot d base root (d', true) g = (
  g,
  λ r h.
      let (found, under) = or_escape-within base (realpath d' [] (map name (names_of root))) r h in
      (under, Keeps-realpath d' (names_of root) r found),
)

make_root-Grows :
    (d : Disk) (base : FilePath) (id : Text)
    → IsRoot d base
    → Keeps d base
    → Grows base d (make_dirs d (id ∷ base)).0
unfolding make_dirs is_below
make_root-Grows d base id r keeps =
    let there : exists d base ≡ true = rw (stat-IsRoot d base r) refl in
    let above : Disk × Bool = if exists d base then (d, true) else make_dirs d base in
    let grown : Grows base d above.0 = rw there (Grows-refl base d) in
    let same : base == base ≡ true = (path_eq.equals_iff base base).1 refl in
    let under : is_under base (id ∷ base) ≡ true = ground arith in
    make_last-Grows base d id base above under keeps grown

-- Whatever the user's id, and whatever link stands in its place: under a workspace that resolves to
-- a directory that the system finds, from a working directory with no link on its way,
-- `resolve_user_root` changes nothing outside the workspace, and a root that it returns is within
-- the workspace and has no link on its way, as long as no link is made.
pub resolve_user_root-IsUserRoot :
    (d : Disk) (cwd base : FilePath) (workspace_dir user_id : Text)
    → Keeps d cwd
    → base_of d cwd workspace_dir ≡ some base
    → IsRoot d base
    → IsUserRoot base d (resolve_user_root d cwd workspace_dir user_id)
unfolding resolve_user_root
resolve_user_root-IsUserRoot d cwd base workspace_dir user_id here found r =
    let id = safe_id user_id in
    let start : Keeps d (start_of cwd workspace_dir) =
      elim (Bool-cases (is_absolute workspace_dir)) [
        | inl e ↦ rw e (λ d' links. tt)
        | inr e ↦ rw e here
      ] in
    let keeps =
      Keeps-from d (start_of cwd workspace_dir) (split b'/' workspace_dir) base start found in
    elim (Bool-cases (is_bad_id id)) [
      | inl e ↦ rw (e, resolve_user_root) (Grows-refl base d, λ r h. cc)
      | inr e ↦
          rw (e, resolve_user_root, found)
            (checked_root-IsUserRoot d base (id ∷ base) (make_dirs d (id ∷ base))
              (make_root-Grows d base id r keeps))
    ]
