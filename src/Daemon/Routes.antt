-- ===== src/Daemon/Routes.antt =====
-- The routes of prax_sandbox/daemon/app.py, behind the payload cap and the bearer check. A request is what FastAPI makes of it; the working directory has no link on its way.
pub mod Limiter
mod Tests
use prax_sandbox.Base.{
  ℕ, Bool, true, false, not, ◌&&◌, List, Option, none, some, ltb, leb, all, min, if◌then◌else◌,
}
use prax_sandbox.Text.{Text}
use prax_sandbox.Files.Disk.{FilePath, Disk}
use prax_sandbox.Files.Confined.{
  FileError, escape, not_found, too_big, too_many, os_error, Result, ok, err, Member, read_file,
  write_file, push_tar,
}
use prax_sandbox.Files.Users.{resolve_user_root}
use prax_sandbox.Files.Listing.{Entry, Hit, TarMember, list_dir, grep, pull_tar}
use prax_sandbox.Exec.{Completed}
use prax_sandbox.ControlPlane.{InstallReply, RestartReply, RebuildReply}
use prax_sandbox.ControlPlane.Installs.{ShellReply}
use prax_sandbox.Daemon.Auth.{check_bearer}
use prax_sandbox.Daemon.Services.{Services}

-- What `build_app` is given of its configuration, and the directory that the process runs in.
pub record AppConfig : Type 0 where
  pub bearer_token : Text
  pub workspace_dir : Text
  pub max_payload_bytes : ℕ
  pub allow_rebuild : Bool
  pub cwd : FilePath

-- A route, with its parameters and its body.
pub data Call : Type 0 where
  files_read : Text → Text → ℕ → Call
  files_write : Text → Text → Text → Call
  files_push : Text → Text → List Member → Call
  -- Recursive or not; the query, the path, the names to look at, and the bound.
  files_list : Text → Text → Bool → Call
  files_grep : Text → Text → Text → Text → ℕ → Call
  files_pull : Text → Text → Call
  get_health get_capabilities get_runtime_mode : Call
  post_shell : Text → ℕ → Call
  post_exec : List Text → Option Text → List (Text × Text) → ℕ → Call
  post_packages : Text → Call
  post_rebuild : Option Text → Call
  post_restart : Call

pub record Request : Type 0 where
  pub authorization : Option Text
  -- A `Content-Length` of digits, as a number.
  pub content_length : Option ℕ
  pub call : Call

pub data Body : Type 0 where
  bytes : Text → Body
  -- The number under `bytes` or `extracted`, the truth value under `sandbox`.
  number : ℕ → Body
  truth : Bool → Body
  entries : List Entry → Body
  hits : List Hit → Body
  tar : List TarMember → Body
  -- Whether a rebuild is allowed; the other capabilities are fixed.
  capabilities : Bool → Body
  mode : Text → Body
  shell : ShellReply → Body
  process : Completed → Body
  install : InstallReply → Body
  rebuild : RebuildReply → Body
  restart : RestartReply → Body
  detail : Body

pub record Response : Type 0 where
  pub status : ℕ
  pub body : Body

abbrev pub respond : ℕ → Body → Response
respond status body = record { status = status; body = body }

-- What is not caught is FastAPI's 500.
abbrev pub root_status : FileError → ℕ
root_status escape = 400
root_status _ = 500

abbrev pub read_status : FileError → ℕ
read_status escape = 400
read_status not_found = 404
read_status too_big = 413
read_status _ = 500

abbrev pub write_status : FileError → ℕ
write_status escape = 400
write_status _ = 500

abbrev pub to_response : {A : Type 0} → (FileError → ℕ) → (A → Body) → Result A → Response
to_response status body (ok a) = respond 200 (body a)
to_response status body (err e) = respond (status e) detail

abbrev pub respond_with :
    {A : Type 0} → (FileError → ℕ) → (A → Body) → Disk × Result A → Disk × Response
respond_with status body (d, r) = (d, to_response status body r)

-- `_root`, and the operation on the root that it returns.
abbrev pub with_root :
    Disk × Result FilePath → (Disk → FilePath → Disk × Response) → Disk × Response
with_root (d, err e) operation = (d, respond (root_status e) detail)
with_root (d, ok root) operation = operation d root

abbrev pub root_of : AppConfig → Disk → Text → Disk × Result FilePath
root_of cfg d user_id = resolve_user_root d cfg.cwd cfg.workspace_dir user_id

-- What UTF-8 has a form for. In a name that is not UTF-8, Python has a surrogate for each bad byte.
abbrev pub is_encodable : Text → Bool
is_encodable t = all (λ c. not (leb 0xd800 c && leb c 0xdfff)) t

abbrev pub are_encodable : List Entry → Bool
are_encodable es = all (λ (e : Entry). is_encodable e.path) es

abbrev pub are_encodable_hits : List Hit → Bool
are_encodable_hits hs =
    all (λ (h : Hit). is_encodable h.path && is_encodable h.session_id && is_encodable h.snippet) hs

-- A JSON response: the error of `.encode("utf-8")` is FastAPI's 500.
abbrev pub to_json_response :
    {A : Type 0} → (FileError → ℕ) → (A → Bool) → (A → Body) → Result A → Response
to_json_response status encodes body (ok a) =
    if encodes a then respond 200 (body a) else respond 500 detail
to_json_response status encodes body (err e) = respond (status e) detail

abbrev pub respond_json :
    {A : Type 0} → (FileError → ℕ) → (A → Bool) → (A → Body) → Disk × Result A → Disk × Response
respond_json status encodes body (d, r) = (d, to_json_response status encodes body r)

abbrev pub read_route : AppConfig → Disk → Text → Text → ℕ → Disk × Response
read_route cfg d user_id path max_bytes = with_root (root_of cfg d user_id) (λ d root.
    respond_with read_status bytes (d, read_file d root path (min max_bytes cfg.max_payload_bytes)))

abbrev pub write_route : AppConfig → Disk → Text → Text → Text → Disk × Response
write_route cfg d user_id path data' =
    with_root (root_of cfg d user_id)
      (λ d root. respond_with write_status number (write_file d root path data'))

abbrev pub push_route : AppConfig → Disk → Text → Text → List Member → Disk × Response
push_route cfg d user_id path members =
    with_root (root_of cfg d user_id)
      (λ d root. respond_with write_status number (push_tar d root members path))

abbrev pub list_route : AppConfig → Disk → Text → Text → Bool → Disk × Response
list_route cfg d user_id path recursive =
    with_root (root_of cfg d user_id) (λ d root.
      respond_json write_status are_encodable entries (d, list_dir d root path recursive))

abbrev pub grep_route :
    AppConfig → Services → Disk → Text → Text → Text → Text → ℕ → Disk × Response
grep_route cfg s d user_id query path include' max_count =
    with_root (root_of cfg d user_id) (λ d root.
      respond_json write_status are_encodable_hits hits
        (d, grep s.fnmatch s.storage d root query path include' max_count))

abbrev pub pull_route : AppConfig → Services → Disk → Text → Text → Disk × Response
pull_route cfg s d user_id path =
    with_root (root_of cfg d user_id)
      (λ d root. respond_with write_status tar (d, pull_tar s.storage d root path))

abbrev pub health_route : Bool → Response
health_route ok' = respond 200 (truth ok')

-- `async with exec_limit`
abbrev pub limited : Services → Response → Response
limited s response = if s.is_busy then respond 429 detail else response

abbrev pub exec_response : Option Completed → Response
exec_response none = respond 500 detail
exec_response (some cp) = respond 200 (process cp)

abbrev pub rebuild_route : AppConfig → Services → Option Text → Response
rebuild_route cfg s content =
    if not cfg.allow_rebuild
    then respond 403 detail
    else respond 200 (rebuild (s.rebuild_sandbox content))

unfoldable pub run_route : AppConfig → Services → Disk → Call → Disk × Response
run_route cfg s d (files_read user_id path max_bytes) = read_route cfg d user_id path max_bytes
run_route cfg s d (files_write user_id path data') = write_route cfg d user_id path data'
run_route cfg s d (files_push user_id path members) = push_route cfg d user_id path members
run_route cfg s d (files_list user_id path recursive) = list_route cfg d user_id path recursive
run_route cfg s d (files_grep user_id query path include' max_count) =
    grep_route cfg s d user_id query path include' max_count
run_route cfg s d (files_pull user_id path) = pull_route cfg s d user_id path
run_route cfg s d get_health = (d, health_route s.is_healthy)
run_route cfg s d get_capabilities = (d, respond 200 (capabilities cfg.allow_rebuild))
run_route cfg s d get_runtime_mode = (d, respond 200 (mode s.runtime_mode))
run_route cfg s d (post_shell command timeout) =
    (d, limited s (respond 200 (shell (s.run_shell command timeout))))
run_route cfg s d (post_exec cmd cwd env timeout) =
    (d, limited s (exec_response (s.run_command cmd cwd env timeout)))
run_route cfg s d (post_packages package_name) =
    (d, respond 200 (install (s.install_package package_name)))
run_route cfg s d (post_rebuild content) = (d, rebuild_route cfg s content)
run_route cfg s d post_restart = (d, respond 200 (restart s.restart_sandbox))

abbrev pub is_too_large : AppConfig → Option ℕ → Bool
is_too_large cfg none = false
is_too_large cfg (some n) = ltb cfg.max_payload_bytes n

unfoldable pub serve : AppConfig → Services → Disk → Request → Disk × Response
unfolding run_route
serve cfg s d request =
    if is_too_large cfg request.content_length
    then (d, respond 413 detail)
    else if not (check_bearer request.authorization cfg.bearer_token)
    then (d, respond 401 detail)
    else run_route cfg s d request.call
