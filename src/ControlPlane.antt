-- ===== src/ControlPlane.antt =====
-- prax_sandbox/control_plane.py: packages, readiness, restart and rebuild. What docker and the file
-- system do is a parameter; times are in half seconds.
pub mod Ready
pub mod Install
pub mod Rebuild
pub mod Installs
mod Tests
use prax_sandbox.Base.{
  ℕ, zero, suc, ◌+◌, ◌-◌, ◌*◌, Bool, true, false, not, ◌&&◌, ◌||◌, List, [], ◌∷◌, ◌++◌, Option,
  none, some, leb, ltb, if◌then◌else◌, ◌==◌, nat_eq, is_empty, length, drop, take, contains,
}
use prax_sandbox.Text.{Text, codes, text_eq}
use prax_sandbox.Exec.{
  SandboxConfig, Docker, Ran, Completed, find_sandbox_container, exec_in_sandbox, or_empty,
  or_no_text,
}

-- The fields of the configuration that are read here.
pub record Plane : Type 0 where
  pub persistent : Bool
  pub image : Text
  pub exec_config : SandboxConfig

-- Letters and digits.
abbrev pub is_alnum_code : ℕ → Bool
is_alnum_code c = leb b'a' c && leb c b'z' || leb b'A' c && leb c b'Z' || leb b'0' c && leb c b'9'

abbrev pub is_name_code : ℕ → Bool
is_name_code c = is_alnum_code c || contains (codes "._+:-") c

-- `[a-zA-Z0-9._+:-]*$`, where `$` also matches before an end of line that is last.
unfoldable pub matches_rest : Text → Bool
matches_rest [] = true
matches_rest (c ∷ s) = is_name_code c && matches_rest s || c == 10 && is_empty s

unfoldable pub is_package_name : Text → Bool
unfolding matches_rest
is_package_name [] = false
is_package_name (c ∷ s) = is_alnum_code c && matches_rest s

unfoldable pub install_command : Text → Text
install_command package_name =
    codes "apt-get update -qq && apt-get install -y --no-install-recommends " ++ package_name

-- `s[-n:]`
abbrev pub last_of : ℕ → Text → Text
last_of n s = drop (length s - n) s

pub data InstallReply : Type 0 where
  -- Local mode, with the package in the hints.
  cannot_install : Text → InstallReply
  invalid_name : Text → InstallReply
  -- The exit code and the end of stderr; the package and the end of stdout.
  apt_failed : ℕ → Text → InstallReply
  installed : Text → Text → InstallReply
  -- An exception's text.
  install_error : InstallReply

abbrev pub install_reply : (Text → Text) → Text → Option Ran → InstallReply
install_reply decode package_name none = install_error
install_reply decode package_name (some ran) = elim ran.output [
  | none ↦ install_error
  | some (o, e) ↦
      if ran.exit_code == 0
      then installed package_name (last_of 300 (decode (or_empty o)))
      else apt_failed ran.exit_code (last_of 500 (decode (or_empty e)))
]

abbrev pub install_argv : Text → List Text
install_argv package_name = codes "sh" ∷ codes "-c" ∷ install_command package_name ∷ []

unfoldable pub install_package : Docker → Plane → Text → InstallReply
install_package docker cfg package_name =
    if not cfg.persistent
    then cannot_install package_name
    else if not (is_package_name package_name)
    then invalid_name package_name
    else elim (find_sandbox_container docker (some cfg.exec_config)) [
      | none ↦ install_error
      | some container ↦
          install_reply docker.decode package_name
            (docker.exec_run container (install_argv package_name) none)
    ]

-- Docker and the time as the program goes on.
pub record World : Type 0 where
  pub docker_at : ℕ → Docker
  -- When a command that starts at a time is over, `none` where `docker exec` never returns, which has
  -- no deadline of its own; and when a sleep of half a second is over.
  pub later : ℕ → Option ℕ
  pub awake : ℕ → ℕ

abbrev pub is_zero_exit : Option Completed → Bool
is_zero_exit none = false
is_zero_exit (some c) = c.returncode == 0

-- Whether `true` runs in the container.
unfoldable pub probes : World → SandboxConfig → ℕ → Bool
probes world config now =
    is_zero_exit (exec_in_sandbox (world.docker_at now) (some config) none [] 5 (codes "true" ∷ []))

-- The loop, `none` where a command does not return or the turns are used up.
unfoldable pub poll : World → SandboxConfig → ℕ → ℕ → ℕ → Option Bool
poll world config deadline zero now = none
poll world config deadline (suc k) now = elim (world.later now) [
  | none ↦ none
  | some over ↦
      let rest = poll world config deadline k (world.awake over) in
      if probes world config now then some true else if leb deadline over then some false else rest
]

-- Each turn takes half a second at least where the clock does not go back, so that there are turns
-- enough.
unfoldable pub container_ready : World → SandboxConfig → ℕ → ℕ → Option Bool
unfolding poll
container_ready world config timeout now = poll world config (now + timeout) (suc timeout) now

-- Three seconds.
unfoldable pub health : World → SandboxConfig → ℕ → Option Bool
unfolding container_ready
health world config now = container_ready world config 6 now

pub data RestartReply : Type 0 where
  no_container restart_failed : RestartReply
  -- The container, and whether it was ready again.
  restarted : Text → Option Bool → RestartReply

-- `restart` tells whether docker restarted it, and when.
unfoldable pub restart_sandbox : World → SandboxConfig → (Text → Option ℕ) → ℕ → ℕ → RestartReply
restart_sandbox world config restart ready_timeout now =
    elim (find_sandbox_container (world.docker_at now) (some config)) [
      | none ↦ no_container
      | some container ↦ elim (restart container) [
        | none ↦ restart_failed
        | some now' ↦ restarted container (container_ready world config ready_timeout now')
      ]
    ]

pub data RebuildReply : Type 0 where
  only_docker no_docker no_dockerfile build_timed_out not_restarted not_ready : RebuildReply
  -- The end of stderr.
  build_failed : Text → RebuildReply
  rebuilt : Text → RebuildReply

pub data Effect : Type 0 where
  write_dockerfile : Text → Effect
  build_image : Text → Effect
  restart_container : Text → Effect

-- What `docker build` returned: the exit code and stderr, and when; or a time-out.
pub data Build : Type 0 where
  build_done : ℕ → Text → ℕ → Build
  build_too_long : Build

pub record Host : Type 0 where
  pub has_docker : Bool
  pub has_dockerfile : Bool
  pub build : Option Text → Build
  pub restart : Text → Option ℕ

abbrev pub ready_reply : Text → Option Bool → RebuildReply
ready_reply image (some true) = rebuilt image
ready_reply image _ = not_ready

abbrev pub restart_step : World → Plane → Host → ℕ → List Effect × RebuildReply
restart_step world cfg host now =
    elim (find_sandbox_container (world.docker_at now) (some cfg.exec_config)) [
      | none ↦ ([], not_restarted)
      | some container ↦ (
        restart_container container ∷ [],
        elim (host.restart container) [
          | none ↦ not_restarted
          | some now' ↦ ready_reply cfg.image (container_ready world cfg.exec_config 120 now')
        ],
      )
    ]

abbrev pub after_effect : Effect → List Effect × RebuildReply → List Effect × RebuildReply
after_effect e (effects, r) = (e ∷ effects, r)

abbrev pub after_build : World → Plane → Host → Build → List Effect × RebuildReply
after_build world cfg host build_too_long = ([], build_timed_out)
after_build world cfg host (build_done code stderr now) =
    if code == 0 then restart_step world cfg host now else ([], build_failed (last_of 1000 stderr))

abbrev pub build_step : World → Plane → Host → Option Text → List Effect × RebuildReply
build_step world cfg host written =
    after_effect (build_image cfg.image) (after_build world cfg host (host.build written))

abbrev pub write_step : World → Plane → Host → Option Text → List Effect × RebuildReply
write_step world cfg host none = build_step world cfg host none
write_step world cfg host (some content) =
    if host.has_dockerfile
    then after_effect (write_dockerfile content) (build_step world cfg host (some content))
    else ([], no_dockerfile)

-- The effects in their order, and the reply.
unfoldable pub rebuild_sandbox : World → Plane → Host → Option Text → List Effect × RebuildReply
unfolding container_ready
rebuild_sandbox world cfg host dockerfile_content =
    if not cfg.persistent
    then ([], only_docker)
    else if not host.has_docker
    then ([], no_docker)
    else write_step world cfg host (or_no_text dockerfile_content)
