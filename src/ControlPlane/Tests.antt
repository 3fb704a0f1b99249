-- ===== src/ControlPlane/Tests.antt =====
-- The control plane on small worlds, and the theorems about them there.
use prax_sandbox.Base.{
  ◌≡◌, ◌≤◌, ◌+◌, ◌==◌, nat_eq, inl, inr, refl, ℕ, [], ◌∷◌, ◌++◌, none, some, true, false, contains,
  if◌then◌else◌, leb, arith, suc, Elem,
}
use prax_sandbox.Text
use prax_sandbox.Text.{Text, codes, text_eq, starts_with}
use prax_sandbox.Exec
use prax_sandbox.Exec.{SandboxConfig, Docker, Ran, exec_in_sandbox}
use prax_sandbox.ControlPlane
use prax_sandbox.ControlPlane.{
  Plane, World, Host, Build, build_done, installed, invalid_name, install_package, install_command,
  container_ready, restarted, restart_sandbox, rebuild_sandbox, rebuilt, write_dockerfile,
  build_image, restart_container, build_failed, is_package_name,
}
use prax_sandbox.ControlPlane.Ready.{IsEnd, container_ready-ends}
use prax_sandbox.ControlPlane.Install.{IsOneWord, install_command-IsOneWord}
use prax_sandbox.ControlPlane.Rebuild.{rebuild_sandbox-restart}

control_runs : Unit {0}
unfolding Text.text_beq Text.starts_with Text.cut Text.has_text Text.decimal Text.join
    Exec.escape_quotes Exec.quote Exec.shell_cmd Exec.parse_filter Exec.find_sandbox_container
    Exec.argv_of exec_in_sandbox ControlPlane.matches_rest is_package_name install_command
    install_package ControlPlane.probes ControlPlane.poll container_ready restart_sandbox
    rebuild_sandbox contains
control_runs = tt

-- Commands return 0 from the time 3 on.
abbrev docker_at : ℕ → Docker
docker_at t = record {
  list_containers = λ filter. codes "box" ∷ [];
  exec_run = λ container argv env. some record {
    exit_code = if leb 3 t then 0 else 1;
    output = some (some (codes "out"), none);
    took = 0;
  };
  decode = λ t. t;
}

abbrev world : World
world = record {
  docker_at = docker_at;
  later = λ t. if t == 99 then none else some t;
  awake = λ t. suc t;
}

abbrev config : SandboxConfig
config = record { container_label = []; enforce_exec_timeout = false }

abbrev cfg : Plane
cfg = record { persistent = true; image = codes "image"; exec_config = config }

abbrev host : Host
host = record {
  has_docker = true;
  has_dockerfile = true;
  build = λ written. build_done 0 [] 1;
  restart = λ container. some 1;
}

abbrev bad_host : Host
bad_host = record {
  has_docker = true;
  has_dockerfile = true;
  build = λ written. build_done 1 (codes "no") 1;
  restart = λ container. some 1;
}

control_tests :
    (container_ready world config 6 0 ≡ some true)
    × (container_ready world config 2 0 ≡ some false)
    × (container_ready world config 2 99 ≡ none)
    × (restart_sandbox world config (λ c. some 1) 2 0 ≡ restarted (codes "box") (some true))
    × (install_package (docker_at 3) cfg (codes "g++") ≡ installed (codes "g++") (codes "out"))
    × (install_package (docker_at 3) cfg (codes "a;b") ≡ invalid_name (codes "a;b"))
    × (install_package (docker_at 3) cfg (codes "a" ++ (10 ∷ []))
        ≡ installed (codes "a" ++ (10 ∷ [])) (codes "out"))
    × (rebuild_sandbox world cfg host (some (codes "FROM x")) ≡ (
      write_dockerfile (codes "FROM x")
          ∷ build_image (codes "image")
          ∷ restart_container (codes "box")
          ∷ [],
      rebuilt (codes "image"),
    ))
    × (rebuild_sandbox world cfg bad_host none
        ≡ (build_image (codes "image") ∷ [], build_failed (codes "no")))
unfolding control_runs
control_tests = (refl, refl, refl, refl, refl, refl, refl, refl, refl)

later-forward : (t over : ℕ) → world.later t ≡ some over → t ≤ over
later-forward t over h = ground arith

container_ready-ends_example : IsEnd world config (0 + 6) 0 (container_ready world config 6 0)
container_ready-ends_example =
    container_ready-ends world config later-forward (λ t. omega arith) 6 0

is_name : is_package_name (codes "g++") ≡ true
unfolding control_runs
is_name = refl

install_command-IsOneWord_example :
    (starts_with (codes "-") (codes "g++") ≡ false)
    × IsOneWord (install_command (codes "g++")) (codes "g++")
install_command-IsOneWord_example = install_command-IsOneWord (codes "g++") is_name

box_restarted : Elem (restart_container (codes "box")) (rebuild_sandbox world cfg host none).0
unfolding control_runs
box_restarted = inr (inl refl)

rebuild_sandbox-restart_example :
    (cfg.persistent ≡ true)
    × ((stderr : Text) × (now : ℕ) × (host.build none ≡ build_done 0 stderr now))
rebuild_sandbox-restart_example =
    rebuild_sandbox-restart world cfg host (codes "box") none box_restarted
