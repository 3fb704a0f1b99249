-- ===== src/ControlPlane/Installs.antt =====
-- `run_shell`, `run_command` and the recording of installs in prax_sandbox/control_plane.py.
pub mod Recorded
mod Tests
use prax_sandbox.Base.{
  ℕ, ◌+◌, Bool, true, false, not, ◌&&◌, ◌||◌, List, [], ◌∷◌, ◌++◌, Option, none, some, leb,
  if◌then◌else◌, ◌==◌, nat_eq, is_empty, length, take, map, keep, contains,
}
use prax_sandbox.Text.{Text, codes, text_eq, is_space, starts_with}
use prax_sandbox.Text.Regex.{
  Regex, one, seq, alt, many, many_lazy, group, literal, many1, many1_lazy, optional, search_regex,
}
use prax_sandbox.Exec.{SandboxConfig, Docker, Completed, find_sandbox_container, exec_in_sandbox}
use prax_sandbox.ControlPlane.{is_alnum_code}

abbrev pub manifest_dir : Text
manifest_dir = codes "/workspace/.sandbox"

abbrev pub record_script : Text
record_script = codes "mkdir -p \"$1\" && echo \"$2\" >> \"$1/$3\""

-- What `_record` runs for one package.
abbrev pub record_argv : Text → Text → List Text
record_argv filename pkg =
    codes "sh" ∷ codes "-c" ∷ record_script ∷ codes "sh" ∷ manifest_dir ∷ pkg ∷ filename ∷ []

abbrev pub any_char : Regex
any_char = one (λ c. not (c == 10))

abbrev pub space : Regex
space = one is_space

abbrev pub not_space : Regex
not_space = one (λ c. not (is_space c))

-- `pip3?\s+install\s+(?:-\S+\s+)*(.+)`
abbrev pub pip_install : Regex
pip_install = seq (literal (codes "pip")) (
    seq (optional (literal (codes "3"))) (
      seq (many1 space) (
        seq (literal (codes "install")) (
          seq (many1 space) (
            seq (many (seq (literal (codes "-")) (seq (many1 not_space) (many1 space))))
              (group (many1 any_char)))))))

-- `npm\s+(?:install|i)\s+`
abbrev pub npm_install : Regex → Regex
npm_install r = seq (literal (codes "npm")) (
    seq (many1 space)
      (seq (alt (literal (codes "install")) (literal (codes "i"))) (seq (many1 space) r)))

-- `(?:.*-g|.*--global)\s*(.+)`
abbrev pub npm_after : Regex
npm_after = npm_install (
    seq
      (alt (seq (many any_char) (literal (codes "-g")))
        (seq (many any_char) (literal (codes "--global"))))
      (seq (many space) (group (many1 any_char))))

-- `(.+?)(?:\s+-g|\s+--global)`
abbrev pub npm_before : Regex
npm_before = npm_install (
    seq (group (many1_lazy any_char)) (
      alt (seq (many1 space) (literal (codes "-g")))
        (seq (many1 space) (literal (codes "--global")))))

abbrev pub is_pip_code : ℕ → Bool
is_pip_code c = is_alnum_code c || contains (codes "._-") c

abbrev pub is_npm_first : ℕ → Bool
is_npm_first c = is_alnum_code c || c == b'@'

abbrev pub is_npm_code : ℕ → Bool
is_npm_code c = is_alnum_code c || contains (codes "._/@-") c

-- `findall` of one class and then another, once at least, which has the first in it.
abbrev pub emit : Text → List Text
emit w = if leb 2 (length w) then w ∷ [] else []

abbrev pub next_word : (ℕ → Bool) → (ℕ → Bool) → Text → ℕ → Text
next_word first rest w c =
    if rest c && not (is_empty w) then w ++ (c ∷ []) else if first c then c ∷ [] else []

abbrev pub done_word : (ℕ → Bool) → Text → ℕ → List Text
done_word rest w c = if rest c then [] else emit w

unfoldable pub find_words : (ℕ → Bool) → (ℕ → Bool) → Text → Text → List Text
find_words first rest w [] = emit w
find_words first rest w (c ∷ s) =
    done_word rest w c ++ find_words first rest (next_word first rest w c) s

unfoldable pub pip_packages : Text → List Text
unfolding find_words
pip_packages text =
    keep (λ p. not (starts_with (codes "-") p) && not (contains p b'/'))
      (find_words is_alnum_code is_pip_code [] text)

unfoldable pub npm_packages : Text → List Text
unfolding find_words
npm_packages text =
    keep (λ p. not (starts_with (codes "-") p)) (find_words is_npm_first is_npm_code [] text)

-- The second pattern where the first does not match.
abbrev pub npm_group : Text → Option Text
npm_group command = elim (search_regex npm_after command) [
  | some t ↦ some t
  | none ↦ search_regex npm_before command
]

abbrev pub npm_records : Option Text → List (List Text)
npm_records none = []
npm_records (some text) = map (record_argv (codes "installed-npm.txt")) (npm_packages text)

-- `pip` first, and `npm` where there is none.
unfoldable pub records : Text → List (List Text)
unfolding pip_packages npm_packages
records command = elim (search_regex pip_install command) [
  | some text ↦ map (record_argv (codes "installed-pip.txt")) (pip_packages text)
  | none ↦ npm_records (npm_group command)
]

-- What `_track_installed_packages` runs in the container, in its order; an exception ends it.
unfoldable pub track_installed_packages : Docker → SandboxConfig → Text → ℕ → List (List Text)
unfolding records find_sandbox_container
track_installed_packages docker config command exit_code =
    if not (exit_code == 0)
    then []
    else elim (find_sandbox_container docker (some config)) [ none ↦ [] | some _ ↦ records command ]

pub data ShellReply : Type 0 where
  -- stdout, stderr and the exit code.
  ran : Text → Text → ℕ → ShellReply
  -- An exception's text, with the exit code -1.
  shell_error : ShellReply

abbrev pub shell_reply : Option Completed → ShellReply
shell_reply none = shell_error
shell_reply (some result) =
    ran (take 10000 result.stdout) (take 5000 result.stderr) result.returncode

abbrev pub shell_records : Docker → SandboxConfig → Text → Option Completed → List (List Text)
shell_records docker config command none = []
shell_records docker config command (some result) =
    track_installed_packages docker config command result.returncode

-- What is recorded, and the reply.
unfoldable pub run_shell : Docker → SandboxConfig → Text → ℕ → List (List Text) × ShellReply
unfolding track_installed_packages
run_shell docker config command timeout =
    let result =
      exec_in_sandbox docker (some config) none [] timeout
        (codes "sh" ∷ codes "-c" ∷ command ∷ []) in
    (shell_records docker config command result, shell_reply result)

-- `run_command`
unfoldable pub run_command :
    Docker → SandboxConfig → List Text → Option Text → List (Text × Text) → ℕ → Option Completed
run_command docker config cmd cwd env timeout =
    exec_in_sandbox docker (some config) cwd env timeout cmd
