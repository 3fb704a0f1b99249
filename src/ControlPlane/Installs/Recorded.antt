-- ===== src/ControlPlane/Installs/Recorded.antt =====
-- What `run_shell` of prax_sandbox/control_plane.py records and returns.
use prax_sandbox.Base.{
  ℕ, ◌≤◌, ◌≡◌, refl, sym, inl, inr, Bool, true, false, not, ◌&&◌, List, [], ◌∷◌, ◌++◌, Option, none,
  some, arith, Bool-cases, Option-cases, Elem, Elem-append, Elem-keep, all, map, length,
  length-take, leb, ◌==◌, nat_eq, contains, is_empty,
}
use prax_sandbox.Text.{Text, codes, starts_with}
use prax_sandbox.Text.Regex.{search_regex}
use prax_sandbox.Exec.{SandboxConfig, Docker, Completed, exec_in_sandbox, find_sandbox_container}
use prax_sandbox.ControlPlane.{is_alnum_code}
use prax_sandbox.ControlPlane.Installs.{
  pip_install, npm_group, npm_records, record_argv, is_pip_code, is_npm_first, is_npm_code, emit,
  next_word, done_word, find_words, pip_packages, npm_packages, records, track_installed_packages,
  ShellReply, ran, shell_error, shell_reply, shell_records, run_shell,
}

all-append_one :
    (p : ℕ → Bool) (w : Text) (c : ℕ) → all p w ≡ true → p c ≡ true → all p (w ++ (c ∷ [])) ≡ true
all-append_one p [] c h h' = rw h' refl
all-append_one p (a ∷ w) c h h' = let rest = all-append_one p w c (ground arith) h' in ground arith

module _ (first rest : ℕ → Bool) (within : (c : ℕ) → first c ≡ true → rest c ≡ true) where
  next_word-all :
      (w : Text) (c : ℕ) → all rest w ≡ true → all rest (next_word first rest w c) ≡ true
  next_word-all w c h = elim (Bool-cases (rest c && not (is_empty w))) [
    | inl e ↦ rw e (all-append_one rest w c h (ground arith))
    | inr e ↦ elim (Bool-cases (first c)) [
      | inl f ↦ rw (e, f, within c f) refl
      | inr f ↦ rw (e, f) refl
    ]
  ]

  emit-all : (w x : Text) → all rest w ≡ true → Elem x (emit w) → all rest x ≡ true
  emit-all w x h e = elim (Bool-cases (leb 2 (length w))) [
    | inr short ↦ absurd (rw short at e)
    | inl long ↦ elim (rw long at e) [ inl same ↦ rw (← same) h | inr e' ↦ absurd e' ]
  ]

  done_word-all :
      (w x : Text) (c : ℕ) → all rest w ≡ true → Elem x (done_word rest w c) → all rest x ≡ true
  done_word-all w x c h e = elim (Bool-cases (rest c)) [
    | inl more ↦ absurd (rw more at e)
    | inr done ↦ emit-all w x h (rw done at e)
  ]

  find_words-all :
      (s w x : Text) → all rest w ≡ true → Elem x (find_words first rest w s) → all rest x ≡ true
  unfolding find_words
  find_words-all [] w x h e = emit-all w x h e
  find_words-all (c ∷ s) w x h e =
      elim (Elem-append x (done_word rest w c) (find_words first rest (next_word first rest w c) s)
        e) [
          | inl e' ↦ done_word-all w x c h e'
          | inr e' ↦ find_words-all s (next_word first rest w c) x (next_word-all w c h) e'
        ]

-- A package's name: letters, digits and `._/@-`, the first of which is no dash.
abbrev pub IsPackage : Text → Type 0
IsPackage pkg = (all is_npm_code pkg ≡ true) × (starts_with (codes "-") pkg ≡ false)

-- One run of the fixed script, with the name as an argument of its own.
abbrev pub IsRecord : List Text → Type 0
IsRecord argv =
    (filename : Text) × (pkg : Text) × ((argv ≡ record_argv filename pkg) × IsPackage pkg)

pip-npm : (c : ℕ) → is_pip_code c ≡ true → is_npm_code c ≡ true
unfolding contains
pip-npm c h = ground arith

npm_first-code : (c : ℕ) → is_npm_first c ≡ true → is_npm_code c ≡ true
unfolding contains
npm_first-code c h = ground arith

all-imp :
    (p q : ℕ → Bool) (w : Text)
    → ((c : ℕ) → p c ≡ true → q c ≡ true)
    → all p w ≡ true
    → all q w ≡ true
all-imp p q [] imp h = refl
all-imp p q (c ∷ w) imp h =
    let rest = all-imp p q w imp (ground arith) in let head = imp c (ground arith) in ground arith

pip_packages-IsPackage : (text pkg : Text) → Elem pkg (pip_packages text) → IsPackage pkg
unfolding pip_packages
pip_packages-IsPackage text pkg h =
    let (there, test) =
      Elem-keep (λ p. not (starts_with (codes "-") p) && not (contains p b'/')) pkg
        (find_words is_alnum_code is_pip_code [] text) h in
    (
      all-imp is_pip_code is_npm_code pkg pip-npm
          (find_words-all is_alnum_code is_pip_code (λ c e. ground arith) text [] pkg refl there),
      ground arith,
    )

npm_packages-IsPackage : (text pkg : Text) → Elem pkg (npm_packages text) → IsPackage pkg
unfolding npm_packages
npm_packages-IsPackage text pkg h =
    let (there, test) =
      Elem-keep (λ p. not (starts_with (codes "-") p)) pkg
        (find_words is_npm_first is_npm_code [] text) h in
    (find_words-all is_npm_first is_npm_code npm_first-code text [] pkg refl there, ground arith)

map-IsRecord :
    (filename : Text) (pkgs : List Text) (argv : List Text)
    → ((pkg : Text) → Elem pkg pkgs → IsPackage pkg)
    → Elem argv (map (record_argv filename) pkgs)
    → IsRecord argv
map-IsRecord filename [] argv safe h = absurd h
map-IsRecord filename (pkg ∷ pkgs) argv safe (inl e) = (filename, pkg, (sym e, safe pkg (inl refl)))
map-IsRecord filename (pkg ∷ pkgs) argv safe (inr h) =
    map-IsRecord filename pkgs argv (λ p h'. safe p (inr h')) h

npm_records-IsRecord :
    (o : Option Text) (argv : List Text) → Elem argv (npm_records o) → IsRecord argv
npm_records-IsRecord none argv h = absurd h
npm_records-IsRecord (some text) argv h =
    map-IsRecord (codes "installed-npm.txt") (npm_packages text) argv (npm_packages-IsPackage text)
      h

records-IsRecord : (command : Text) (argv : List Text) → Elem argv (records command) → IsRecord argv
unfolding records
records-IsRecord command argv h = elim (Option-cases (search_regex pip_install command)) [
  | inl e ↦ npm_records-IsRecord (npm_group command) argv (rw (e, records) at h)
  | inr (text, e) ↦
      map-IsRecord (codes "installed-pip.txt") (pip_packages text) argv
        (pip_packages-IsPackage text) (rw (e, records) at h)
]

track-IsRecord :
    (docker : Docker) (config : SandboxConfig) (command : Text) (code : ℕ) (argv : List Text)
    → Elem argv (track_installed_packages docker config command code)
    → (code ≡ 0) × IsRecord argv
unfolding track_installed_packages
track-IsRecord docker config command code argv h = elim (Bool-cases (code == 0)) [
  | inr e ↦ absurd (rw (e, track_installed_packages) at h)
  | inl e ↦ elim (Option-cases (find_sandbox_container docker (some config))) [
    | inl e' ↦ absurd (rw (e, track_installed_packages, e') at h)
    | inr (c, e') ↦
        (ground arith, records-IsRecord command argv (rw (e, track_installed_packages, e') at h))
  ]
]

-- A reply with what was recorded before it: only after an exit code 0, and bounded.
abbrev pub IsReply : List (List Text) × ShellReply → Type 0
IsReply (recorded, shell_error) = recorded ≡ []
IsReply (recorded, ran stdout stderr code) =
    (length stdout ≤ 10000)
    × (length stderr ≤ 5000)
    × ((argv : List Text) → Elem argv recorded → (code ≡ 0) × IsRecord argv)

-- Whatever the command is and whatever docker answers: `run_shell` replies with at most 10000
-- characters of stdout and 5000 of stderr, or with an error after which nothing is recorded. What
-- else it runs in the container is run only after an exit code 0, and is the fixed script that
-- records a package, with a name as an argument of its own that has only letters, digits and `._/@-`
-- and does not start with a dash.
pub run_shell-IsReply :
    (docker : Docker) (config : SandboxConfig) (command : Text) (timeout : ℕ)
    → IsReply (run_shell docker config command timeout)
unfolding run_shell
run_shell-IsReply docker config command timeout =
    reply (
      exec_in_sandbox docker (some config) none [] timeout (codes "sh" ∷ codes "-c" ∷ command ∷ []))
  where
    reply : (o : Option Completed) → IsReply (shell_records docker config command o, shell_reply o)
    reply none = refl
    reply (some result) = (
      length-take 10000 result.stdout,
      length-take 5000 result.stderr,
      track-IsRecord docker config command result.returncode,
    )
