-- ===== src/Exec/Tests.antt =====
-- Command lines, and the theorems about them there.
use prax_sandbox.Base.{
  ◌≡◌, ℕ, List, false, true, refl, contains, if◌then◌else◌, ◌==◌, [], ◌∷◌, none, some,
}
use prax_sandbox.Text
use prax_sandbox.Text.{Text, codes, text_eq}
use prax_sandbox.Exec
use prax_sandbox.Exec.{SandboxConfig, Docker, Ran, Completed, quote, shell_cmd, exec_in_sandbox}
use prax_sandbox.Exec.Laws.{read_tokens-shell_cmd}
use prax_sandbox.Exec.Shell
use prax_sandbox.Exec.Shell.{word, and_if, between, read_tokens}

exec_runs : Unit {0}
unfolding Text.text_beq Text.starts_with Text.cut Text.has_text Text.decimal Text.join
    Exec.escape_quotes quote shell_cmd Exec.parse_filter Exec.find_sandbox_container Exec.argv_of
    exec_in_sandbox Shell.read_plain Shell.read_code read_tokens contains
exec_runs = tt

shell_tests :
    (shell_cmd (some (codes "/a b")) (codes "echo" ∷ codes "it's" ∷ [] ∷ [])
      ≡ codes "cd '/a b' && echo 'it'\"'\"'s' ''")
    × (read_tokens between (codes "cd '/a b' && echo 'it'\"'\"'s' ''")
        ≡ some (
            word (codes "cd")
            ∷ word (codes "/a b")
            ∷ and_if
            ∷ word (codes "echo")
            ∷ word (codes "it's")
            ∷ word []
            ∷ []))
unfolding exec_runs
shell_tests = (refl, refl)

read_tokens-shell_cmd_example :
    read_tokens between
      (shell_cmd (some (codes "/a b")) (codes "echo" ∷ codes "it's; rm -rf /" ∷ []))
    ≡ some (
        word (codes "cd")
        ∷ word (codes "/a b")
        ∷ and_if
        ∷ word (codes "echo")
        ∷ word (codes "it's; rm -rf /")
        ∷ [])
read_tokens-shell_cmd_example =
    read_tokens-shell_cmd (some (codes "/a b")) (codes "echo") (codes "it's; rm -rf /" ∷ [])

-- A command under `timeout` is stopped; another one returns 0.
abbrev exit_of : List Text → ℕ
exit_of [] = 0
exit_of (c ∷ argv) = if c == codes "timeout" then 124 else 0

abbrev docker : Docker
docker = record {
  list_containers = λ filter. codes "box" ∷ [];
  exec_run = λ container argv env.
      some record { exit_code = exit_of argv; output = some (some (codes "out"), none); took = 9 };
  decode = λ t. t;
}

abbrev lax : SandboxConfig
lax = record { container_label = []; enforce_exec_timeout = false }

abbrev strict : SandboxConfig
strict = record { container_label = codes "name=box"; enforce_exec_timeout = true }

exec_tests :
    (exec_in_sandbox docker (some strict) none [] 3 (codes "ls" ∷ [])
      ≡ some record {
        args = codes "ls" ∷ [];
        returncode = 124;
        stdout = codes "out";
        stderr = 10 ∷ codes "[sandbox] command timed out after 3s and was stopped.";
      })
    × (exec_in_sandbox docker (some lax) none [] 3 (codes "ls" ∷ [])
        ≡ some record { args = codes "ls" ∷ []; returncode = 0; stdout = codes "out"; stderr = [] })
unfolding exec_runs
exec_tests = (refl, refl)
