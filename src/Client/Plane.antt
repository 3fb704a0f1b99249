-- ===== src/Client/Plane.antt =====
-- The methods of `HttpTransport` for commands and the container in prax_sandbox_client/transport.py.
use prax_sandbox.Base.{ℕ, Bool, List, Option, none, some}
use prax_sandbox.Text.{Text, codes}
use prax_sandbox.Files.Disk.{Disk}
use prax_sandbox.Exec.{Completed}
use prax_sandbox.ControlPlane.{InstallReply, RestartReply, RebuildReply}
use prax_sandbox.ControlPlane.Installs.{ShellReply}
use prax_sandbox.Daemon.Routes.{
  Call, get_capabilities, get_runtime_mode, post_shell, post_exec, post_packages, post_rebuild,
  post_restart, Body,
}
use prax_sandbox.Client.{
  SandboxTransportError, Answer, got, failed, other_body, HttpTransport, call_daemon, process_of,
  mode_of, shell_of, install_of, rebuild_of, restart_of, capabilities_of, answer_with,
}

-- What `_json` returns.
pub data JsonReply (A : Type 0) : Type 0 where
  reply : A → JsonReply A
  -- `{"error": str(e)}`
  error_reply : SandboxTransportError → JsonReply A
  -- A body of another shape.
  other_reply : JsonReply A

abbrev pub to_json : {A : Type 0} → Answer A → JsonReply A
to_json (got a) = reply a
to_json (failed e) = error_reply e
to_json other_body = other_reply

abbrev pub post : {A : Type 0} → (Body → Answer A) → HttpTransport → Disk → Text → Call → Answer A
post read t d path call =
    (answer_with read (call_daemon t (codes "POST") path (some (t.json_length call)) call d)).1

-- `_json` of a POST
abbrev pub post_json :
    {A : Type 0} → (Body → Answer A) → HttpTransport → Disk → Text → Call → JsonReply A
post_json read t d path call = to_json (post read t d path call)

unfoldable pub run_shell : HttpTransport → Disk → Text → ℕ → JsonReply ShellReply
run_shell t d command timeout =
    post_json shell_of t d (codes "/v1/shell") (post_shell command timeout)

unfoldable pub run_command :
    HttpTransport → Disk → List Text → Option Text → List (Text × Text) → ℕ → Answer Completed
run_command t d cmd cwd env timeout =
    post process_of t d (codes "/v1/exec") (post_exec cmd cwd env timeout)

unfoldable pub install_package : HttpTransport → Disk → Text → JsonReply InstallReply
install_package t d package_name =
    post_json install_of t d (codes "/v1/packages") (post_packages package_name)

unfoldable pub rebuild_sandbox : HttpTransport → Disk → Option Text → JsonReply RebuildReply
rebuild_sandbox t d content = post_json rebuild_of t d (codes "/v1/rebuild") (post_rebuild content)

unfoldable pub restart_sandbox : HttpTransport → Disk → JsonReply RestartReply
restart_sandbox t d = post_json restart_of t d (codes "/v1/restart") post_restart

abbrev pub or_unreachable : Answer Text → Answer Text
or_unreachable (failed e) = got (codes "remote (daemon unreachable)")
or_unreachable a = a

unfoldable pub runtime_mode : HttpTransport → Disk → Answer Text
runtime_mode t d =
    or_unreachable
      (answer_with mode_of
        (call_daemon t (codes "GET") (codes "/v1/runtime-mode") none get_runtime_mode d)).1

pub data Capabilities : Type 0 where
  -- The daemon's, with whether it rebuilds.
  daemon_capabilities : Bool → Capabilities
  default_capabilities : Capabilities

abbrev pub or_default : Answer Bool → Capabilities
or_default (got r) = daemon_capabilities r
or_default _ = default_capabilities

unfoldable pub capabilities : HttpTransport → Disk → Capabilities
capabilities t d =
    or_default
      (answer_with capabilities_of
        (call_daemon t (codes "GET") (codes "/v1/capabilities") none get_capabilities d)).1
