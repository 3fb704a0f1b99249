-- ===== src/Client/Facade.antt =====
-- `SandboxClient` and `get_client` of prax_sandbox_client/client.py over the two transports of
-- prax_sandbox_client/transport.py. What is raised is not told apart here.
pub mod Same
mod Tests
use prax_sandbox.Base.{ℕ, Bool, true, false, List, Option, none, some}
use prax_sandbox.Text.{Text}
use prax_sandbox.Files.Disk.{FilePath, Disk}
use prax_sandbox.Files.Confined.{Result, ok, err, Member}
use prax_sandbox.Files.Listing.{TarMember, Entry, Hit}
use prax_sandbox.Exec.{Completed}
use prax_sandbox.ControlPlane.{InstallReply, RestartReply, RebuildReply}
use prax_sandbox.ControlPlane.Installs.{ShellReply}
use prax_sandbox.Daemon.Services.{Services}
use prax_sandbox.Client.{
  Choice, http, in_process, make_transport, Answer, got, failed, other_body, HttpTransport,
}
use prax_sandbox.Client.Http
use prax_sandbox.Client.InProcess
use prax_sandbox.Client.Plane
use prax_sandbox.Client.Plane.{JsonReply, reply, Capabilities}

pub data Outcome (A : Type 0) : Type 0 where
  value : A → Outcome A
  raised : Outcome A

abbrev pub outcome_of : {A : Type 0} → Answer A → Outcome A
outcome_of (got a) = value a
outcome_of _ = raised

abbrev pub or_raised : {A : Type 0} → Option A → Outcome A
or_raised none = raised
or_raised (some a) = value a

abbrev pub of_answer : {A : Type 0} → Disk × Answer A → Disk × Outcome A
of_answer (d, a) = (d, outcome_of a)

abbrev pub of_result : {A : Type 0} → Disk × Result A → Disk × Outcome A
of_result (d, ok a) = (d, value a)
of_result (d, err _) = (d, raised)

-- `Transport`
pub record Transport : Type 0 where
  pub run_shell : Disk → Text → ℕ → JsonReply ShellReply
  pub run_command : Disk → List Text → Option Text → List (Text × Text) → ℕ → Outcome Completed
  pub install_package : Disk → Text → JsonReply InstallReply
  pub rebuild_sandbox : Disk → Option Text → JsonReply RebuildReply
  pub restart_sandbox : Disk → JsonReply RestartReply
  pub runtime_mode : Disk → Outcome Text
  pub health : Disk → Bool
  -- `none` for those of a client without a daemon.
  pub capabilities : Disk → Option Capabilities
  pub file_list : Disk → Text → Text → Bool → Disk × Outcome (List Entry)
  pub file_read : Disk → Text → Text → ℕ → Disk × Outcome Text
  pub file_write : Disk → Text → Text → Text → Disk × Outcome ℕ
  pub file_grep : Disk → Text → Text → Text → Text → ℕ → Disk × Outcome (List Hit)
  pub pull_tar : Disk → Text → Text → Disk × Outcome (List TarMember)
  pub push_tar : Disk → Text → List Member → Text → Disk × Outcome ℕ

abbrev pub http_transport : HttpTransport → Transport
http_transport t = record {
  run_shell = λ d command timeout. Plane.run_shell t d command timeout;
  run_command = λ d cmd cwd env timeout. outcome_of (Plane.run_command t d cmd cwd env timeout);
  install_package = λ d package_name. Plane.install_package t d package_name;
  rebuild_sandbox = λ d content. Plane.rebuild_sandbox t d content;
  restart_sandbox = λ d. Plane.restart_sandbox t d;
  runtime_mode = λ d. outcome_of (Plane.runtime_mode t d);
  health = λ d. Http.health t d;
  capabilities = λ d. some (Plane.capabilities t d);
  file_list = λ d user_id path recursive. of_answer (Http.file_list t d user_id path recursive);
  file_read = λ d user_id path max_bytes. of_answer (Http.file_read t d user_id path max_bytes);
  file_write = λ d user_id path data'. of_answer (Http.file_write t d user_id path data');
  file_grep = λ d user_id query path include' max_count.
      of_answer (Http.file_grep t d user_id query path include' max_count);
  pull_tar = λ d user_id path. of_answer (Http.pull_tar t d user_id path);
  push_tar = λ d user_id members path. of_answer (Http.push_tar t d user_id members path);
}

-- With the working directory, the workspace, and the control plane of this process.
abbrev pub in_process_transport : FilePath → Text → Services → Transport
in_process_transport cwd workspace_dir s = record {
  run_shell = λ d command timeout. reply (s.run_shell command timeout);
  run_command = λ d cmd cwd' env timeout. or_raised (s.run_command cmd cwd' env timeout);
  install_package = λ d package_name. reply (s.install_package package_name);
  rebuild_sandbox = λ d content. reply (s.rebuild_sandbox content);
  restart_sandbox = λ d. reply s.restart_sandbox;
  runtime_mode = λ d. value s.runtime_mode;
  health = λ d. s.is_healthy;
  capabilities = λ d. none;
  file_list = λ d user_id path recursive.
      of_result (InProcess.file_list cwd workspace_dir d user_id path recursive);
  file_read = λ d user_id path max_bytes.
      of_result (InProcess.file_read cwd workspace_dir d user_id path max_bytes);
  file_write = λ d user_id path data'.
      of_result (InProcess.file_write cwd workspace_dir d user_id path data');
  file_grep = λ d user_id query path include' max_count. of_result (
      InProcess.file_grep s.fnmatch s.storage cwd workspace_dir d user_id query path include'
        max_count);
  pull_tar =
      λ d user_id path. of_result (InProcess.pull_tar s.storage cwd workspace_dir d user_id path);
  push_tar = λ d user_id members path.
      of_result (InProcess.push_tar cwd workspace_dir d user_id members path);
}

abbrev pub transport_of : Choice → Transport → Transport → Transport
transport_of http over_http local = over_http
transport_of in_process over_http local = local

-- `SandboxClient(config)`, given both transports; its methods are those of the transport.
unfoldable pub new_client : Option (Option Text) → Transport → Transport → Transport
unfolding make_transport
new_client daemon_url over_http local = transport_of (make_transport daemon_url) over_http local

-- `get_client`, which has no configuration: the client, and what `_default_client` is then.
unfoldable pub get_client : Option Transport → Transport → Transport → Transport × Option Transport
unfolding new_client
get_client none over_http local =
    let client = new_client none over_http local in (client, some client)
get_client (some client) over_http local = (client, some client)
