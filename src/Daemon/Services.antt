-- ===== src/Daemon/Services.antt =====
-- What the routes of prax_sandbox/daemon/app.py call: prax_sandbox/control_plane.py as it is at the
-- request, the limit on commands, and the parameters of grep and
-- of tars.
use prax_sandbox.Base.{ℕ, Bool, false, List, Option, none, some}
use prax_sandbox.Text.{Text, codes}
use prax_sandbox.Exec.{Completed}
use prax_sandbox.Files.Listing.{Storage}
use prax_sandbox.ControlPlane.{
  World, Plane, Host, InstallReply, install_package, RestartReply, restart_sandbox, RebuildReply,
  rebuild_sandbox, health,
}
use prax_sandbox.ControlPlane.Installs.{ShellReply, run_shell, run_command}

pub record Services : Type 0 where
  -- The semaphore of the commands is locked.
  pub is_busy : Bool
  pub is_healthy : Bool
  pub runtime_mode : Text
  pub run_shell : Text → ℕ → ShellReply
  -- `none` is an exception.
  pub run_command : List Text → Option Text → List (Text × Text) → ℕ → Option Completed
  pub install_package : Text → InstallReply
  pub rebuild_sandbox : Option Text → RebuildReply
  pub restart_sandbox : RestartReply
  pub fnmatch : Text → Text → Bool
  pub storage : Storage

-- `get_runtime_mode`
abbrev pub runtime_mode : Text
runtime_mode = codes "docker (persistent sandbox — can auto-install packages)"

abbrev pub or_false : Option Bool → Bool
or_false none = false
or_false (some b) = b

-- The control plane at a time, where the commands of its waits return; 60 seconds for a restart.
unfoldable pub services_of :
    World → Plane → Host → ℕ → Bool → (Text → Text → Bool) → Storage → Services
unfolding run_shell run_command install_package rebuild_sandbox restart_sandbox health
services_of world cfg host now busy fnmatch storage = record {
  is_busy = busy;
  is_healthy = or_false (health world cfg.exec_config now);
  runtime_mode = runtime_mode;
  run_shell =
      λ command timeout. (run_shell (world.docker_at now) cfg.exec_config command timeout).1;
  run_command =
      λ cmd cwd env timeout. run_command (world.docker_at now) cfg.exec_config cmd cwd env timeout;
  install_package = λ package_name. install_package (world.docker_at now) cfg package_name;
  rebuild_sandbox = λ content. (rebuild_sandbox world cfg host content).1;
  restart_sandbox = restart_sandbox world cfg.exec_config host.restart 120 now;
  fnmatch = fnmatch;
  storage = storage;
}
