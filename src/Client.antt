-- ===== src/Client.antt =====
-- prax_sandbox_client/transport.py: the choice of a transport, and the calls of `HttpTransport`.
pub mod Http
pub mod Plane
pub mod InProcess
pub mod Remote
pub mod Facade
mod Tests
use prax_sandbox.Base.{
  ℕ, Bool, true, false, not, List, [], ◌∷◌, ◌++◌, Option, none, some, leb, if◌then◌else◌, is_empty,
  length,
}
use prax_sandbox.Text.{Text, codes, text_eq, strip, is_space}
use prax_sandbox.Files.Disk.{FilePath, Disk}
use prax_sandbox.Files.Confined.{
  FileError, Result, ok, err, Member, read_file, write_file, push_tar,
}
use prax_sandbox.Files.Users.{resolve_user_root}
use prax_sandbox.Files.Listing.{TarMember, Entry, Hit}
use prax_sandbox.Exec.{Completed}
use prax_sandbox.ControlPlane.{InstallReply, RestartReply, RebuildReply}
use prax_sandbox.ControlPlane.Installs.{ShellReply}
use prax_sandbox.Daemon.Routes.{
  Call, Request, Body, bytes, number, entries, hits, tar, capabilities, mode, shell, process,
  install, rebuild, restart, Response,
}

pub data Choice : Type 0 where
  http in_process : Choice

-- `make_transport`, on `daemon_url` where there is a configuration.
unfoldable pub make_transport : Option (Option Text) → Choice
make_transport (some (some daemon_url)) =
    if not (is_empty (strip is_space daemon_url)) then http else in_process
make_transport _ = in_process

-- `SandboxTransportError`, without the reason.
pub record SandboxTransportError : Type 0 where
  pub method : Text
  pub path : Text
  pub status : Option ℕ

pub data Answer (A : Type 0) : Type 0 where
  got : A → Answer A
  failed : SandboxTransportError → Answer A
  -- The body has another shape.
  other_body : Answer A

-- `send` is the session of `requests` and what answers it, `none` a `RequestException`. The lengths
-- of a tar and of a body in JSON are parameters.
pub record HttpTransport : Type 0 where
  pub daemon_token : Text
  pub send : Disk → Request → Disk × Option Response
  pub tar_length : List Member → ℕ
  pub json_length : Call → ℕ

abbrev pub check_response : Text → Text → Option Response → Answer Response
check_response method path none = failed record { method = method; path = path; status = none }
check_response method path (some r) =
    if leb 400 r.status
    then failed record { method = method; path = path; status = some r.status }
    else got r

abbrev pub request_of : HttpTransport → Option ℕ → Call → Request
request_of t content_length call = record {
  authorization = some (codes "Bearer " ++ t.daemon_token);
  content_length = content_length;
  call = call;
}

-- `_call`
unfoldable pub call_daemon :
    HttpTransport → Text → Text → Option ℕ → Call → Disk → Disk × Answer Response
call_daemon t method path content_length call d =
    let (d', r) = t.send d (request_of t content_length call) in (d', check_response method path r)

abbrev pub content_of : Body → Answer Text
content_of (bytes content) = got content
content_of _ = other_body

abbrev pub number_of : Body → Answer ℕ
number_of (number n) = got n
number_of _ = other_body

abbrev pub entries_of : Body → Answer (List Entry)
entries_of (entries es) = got es
entries_of _ = other_body

abbrev pub hits_of : Body → Answer (List Hit)
hits_of (hits hs) = got hs
hits_of _ = other_body

abbrev pub tar_of : Body → Answer (List TarMember)
tar_of (tar files) = got files
tar_of _ = other_body

abbrev pub process_of : Body → Answer Completed
process_of (process cp) = got cp
process_of _ = other_body

abbrev pub mode_of : Body → Answer Text
mode_of (mode m) = got m
mode_of _ = other_body

abbrev pub shell_of : Body → Answer ShellReply
shell_of (shell r) = got r
shell_of _ = other_body

abbrev pub install_of : Body → Answer InstallReply
install_of (install r) = got r
install_of _ = other_body

abbrev pub rebuild_of : Body → Answer RebuildReply
rebuild_of (rebuild r) = got r
rebuild_of _ = other_body

abbrev pub restart_of : Body → Answer RestartReply
restart_of (restart r) = got r
restart_of _ = other_body

abbrev pub capabilities_of : Body → Answer Bool
capabilities_of (capabilities r) = got r
capabilities_of _ = other_body

abbrev pub read_answer : {A : Type 0} → (Body → Answer A) → Answer Response → Answer A
read_answer read (got r) = read r.body
read_answer read (failed e) = failed e
read_answer read other_body = other_body

abbrev pub answer_with : {A : Type 0} → (Body → Answer A) → Disk × Answer Response → Disk × Answer A
answer_with read (d, a) = (d, read_answer read a)

abbrev pub is_got : {A : Type 0} → Answer A → Bool
is_got (got _) = true
is_got _ = false
