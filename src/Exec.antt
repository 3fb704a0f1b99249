-- ===== src/Exec.antt =====
-- prax_sandbox/exec.py: a command line for the container's shell, its time limit, and what docker
-- returned. Docker, the clock and `bytes.decode` are parameters; times are whole seconds.
pub mod Shell
pub mod Laws
mod Tests
use prax_sandbox.Base.{
  ℕ, ◌≤◌, Bool, true, false, not, ◌&&◌, ◌||◌, List, [], ◌∷◌, ◌++◌, Option, none, some, map, leb,
  ltb, if◌then◌else◌, ◌==◌, nat_eq, is_empty, any, contains,
}
use prax_sandbox.Text.{Text, codes, text_eq, starts_with, partition, has_text, join, decimal}

-- The fields of `SandboxConfig` that exec.py reads.
pub record SandboxConfig : Type 0 where
  pub container_label : Text
  pub enforce_exec_timeout : Bool

abbrev pub kill_grace_seconds : ℕ
kill_grace_seconds = 5

abbrev pub timed_out : ℕ
timed_out = 124

abbrev pub killed : ℕ
killed = 137

-- The key and the value of docker's filter.
unfoldable pub parse_filter : Text → Text × Text
parse_filter label =
    if has_text (codes "=") label && not (starts_with (codes "label=") label)
    then (let (key, _, value) = partition (codes "=") label in
        if contains (codes "name" ∷ codes "id" ∷ codes "status" ∷ []) key
        then (key, value)
        else (codes "label", label))
    else (codes "label", label)

abbrev pub default_label : Text
default_label = codes "com.docker.compose.service=sandbox"

abbrev pub label_of : Option SandboxConfig → Text
label_of none = default_label
label_of (some config) =
    if is_empty config.container_label then default_label else config.container_label

-- What `exec_run` returned, and how long it took.
pub record Ran : Type 0 where
  pub exit_code : ℕ
  pub output : Option (Option Text × Option Text)
  pub took : ℕ

-- A container is known by its id.
pub record Docker : Type 0 where
  pub list_containers : Text × Text → List Text
  -- `none` is an exception.
  pub exec_run : Text → List Text → Option (List (Text × Text)) → Option Ran
  -- `decode(errors="replace")`
  pub decode : Text → Text

abbrev pub first : List Text → Option Text
first [] = none
first (c ∷ _) = some c

-- `none` is its `RuntimeError`.
unfoldable pub find_sandbox_container : Docker → Option SandboxConfig → Option Text
unfolding parse_filter
find_sandbox_container docker config =
    first (docker.list_containers (parse_filter (label_of config)))

-- `shlex.quote`: letters, digits and `_@%+=:,./-` need no quotes.
abbrev pub is_safe_code : ℕ → Bool
is_safe_code c =
    leb b'a' c && leb c b'z'
    || leb b'A' c && leb c b'Z'
    || leb b'0' c && leb c b'9'
    || contains (codes "_@%+=:,./-") c

unfoldable pub escape_quotes : Text → Text
escape_quotes [] = []
escape_quotes (c ∷ s) =
    let rest = escape_quotes s in if c == b'\'' then codes "'\"'\"'" ++ rest else c ∷ rest

unfoldable pub quote : Text → Text
unfolding escape_quotes
quote s =
    if is_empty s
    then codes "''"
    else if any (λ c. not (is_safe_code c)) s
    then codes "'" ++ (escape_quotes s ++ codes "'")
    else s

-- `if cwd:`
abbrev pub or_no_text : Option Text → Option Text
or_no_text none = none
or_no_text (some t) = if is_empty t then none else some t

abbrev pub cd_part : Option Text → List Text
cd_part none = []
cd_part (some cwd) = (codes "cd " ++ quote cwd) ∷ []

unfoldable pub shell_cmd : Option Text → List Text → Text
shell_cmd cwd cmd =
    join (codes " && ") (cd_part (or_no_text cwd) ++ (join (codes " ") (map quote cmd) ∷ []))

abbrev pub is_enforced : Option SandboxConfig → ℕ → Bool
is_enforced none timeout = false
is_enforced (some config) timeout = config.enforce_exec_timeout && ltb 0 timeout

unfoldable pub argv_of : Bool → ℕ → Text → List Text
argv_of enforced timeout command =
    let argv = codes "sh" ∷ codes "-c" ∷ command ∷ [] in
    if enforced
    then codes "timeout" ∷ codes "-k" ∷ decimal kill_grace_seconds ∷ decimal timeout ∷ argv
    else argv

abbrev pub or_empty : Option Text → Text
or_empty none = []
or_empty (some t) = t

abbrev pub stdout_of : (Text → Text) → Option (Option Text × Option Text) → Text
stdout_of decode none = []
stdout_of decode (some (o, e)) = decode (or_empty o)

abbrev pub stderr_of : (Text → Text) → Option (Option Text × Option Text) → Text
stderr_of decode none = []
stderr_of decode (some (o, e)) = decode (or_empty e)

-- Stopped at the deadline, by the first signal or by the second.
abbrev pub is_stopped : Bool → ℕ → Ran → Bool
is_stopped enforced timeout ran =
    enforced && (ran.exit_code == timed_out || ran.exit_code == killed && leb timeout ran.took)

abbrev pub note_of : ℕ → Text
note_of timeout =
    10
    ∷ (codes "[sandbox] command timed out after "
        ++ (decimal timeout ++ codes "s and was stopped."))

pub record Completed : Type 0 where
  pub args : List Text
  pub returncode : ℕ
  pub stdout : Text
  pub stderr : Text

abbrev pub env_of : List (Text × Text) → Option (List (Text × Text))
env_of [] = none
env_of (e ∷ env) = some (e ∷ env)

abbrev pub completed : (Text → Text) → List Text → Bool → ℕ → Option Ran → Option Completed
completed decode cmd enforced timeout none = none
completed decode cmd enforced timeout (some ran) = some record {
  args = cmd;
  returncode = ran.exit_code;
  stdout = stdout_of decode ran.output;
  stderr =
      stderr_of decode ran.output
      ++ (if is_stopped enforced timeout ran then note_of timeout else []);
}

-- `none` is an exception: no container runs, or docker's own.
unfoldable pub exec_in_sandbox :
    Docker
    → Option SandboxConfig
    → Option Text
    → List (Text × Text)
    → ℕ
    → List Text
    → Option Completed
unfolding find_sandbox_container shell_cmd argv_of
exec_in_sandbox docker config cwd env timeout cmd = elim (find_sandbox_container docker config) [
  | none ↦ none
  | some container ↦
      let enforced = is_enforced config timeout in
      completed docker.decode cmd enforced timeout
        (docker.exec_run container (argv_of enforced timeout (shell_cmd cwd cmd)) (env_of env))
]
