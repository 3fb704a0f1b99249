-- ===== src/ControlPlane/Installs/Tests.antt =====
-- The recording of installs, and the theorem about it there.
use prax_sandbox.Base.{◌≡◌, refl, false, [], ◌∷◌, none, some, contains, map}
use prax_sandbox.Text
use prax_sandbox.Text.{Text, codes}
use prax_sandbox.Text.Regex.{search_regex}
use prax_sandbox.Exec.{SandboxConfig, Docker}
use prax_sandbox.ControlPlane.Installs.Recorded.{IsReply, run_shell-IsReply}
use prax_sandbox.ControlPlane.Installs
use prax_sandbox.ControlPlane.Installs.{
  pip_install, npm_after, npm_before, pip_packages, npm_packages, record_argv, records, run_shell,
}

installs_run : Unit {0}
unfolding Text.text_beq Text.starts_with search_regex Installs.find_words pip_packages npm_packages
    records contains
installs_run = tt

regex_tests :
    (search_regex pip_install (codes "sudo pip3 install -U --no-cache a b") ≡ some (codes "a b"))
    × (search_regex pip_install (codes "pip list") ≡ none)
    × (search_regex npm_after (codes "npm i -g  x") ≡ some (codes "x"))
    × (search_regex npm_before (codes "npm install x y -g") ≡ some (codes "x y"))
unfolding installs_run
regex_tests = (refl, refl, refl, refl)

records_tests :
    (records (codes "pip install ab && ls")
      ≡ map (record_argv (codes "installed-pip.txt")) (codes "ab" ∷ codes "ls" ∷ []))
    × (records (codes "pip install -r reqs.txt")
        ≡ record_argv (codes "installed-pip.txt") (codes "reqs.txt") ∷ [])
    × (records (codes "npm install -g @a/b")
        ≡ record_argv (codes "installed-npm.txt") (codes "@a/b") ∷ [])
    × (records (codes "ls") ≡ [])
unfolding installs_run
records_tests = (refl, refl, refl, refl)

abbrev docker : Docker
docker = record {
  list_containers = λ filter. codes "box" ∷ [];
  exec_run = λ container argv env.
      some record { exit_code = 0; output = some (some (codes "out"), none); took = 0 };
  decode = λ t. t;
}

abbrev config : SandboxConfig
config = record { container_label = []; enforce_exec_timeout = false }

run_shell-IsReply_example : IsReply (run_shell docker config (codes "pip install ab") 60)
run_shell-IsReply_example = run_shell-IsReply docker config (codes "pip install ab") 60
