-- ===== src/Client/Remote.antt =====
-- Over the daemon, the client's file methods do what the in-process ones do.
pub mod Reads
pub mod Commands
use prax_sandbox.Base.{
  ℕ, ◌≤◌, ◌<◌, ◌≡◌, ◌≢◌, refl, Bool, true, false, List, [], Option, none, some, min, leb, length,
  arith,
}
use prax_sandbox.Text.{Text, codes, text_eq}
use prax_sandbox.Files.Disk.{FilePath, Disk}
use prax_sandbox.Files.Confined.{
  FileError, escape, not_found, too_big, too_many, os_error, Result, ok, err, Member, read_file,
  write_file,
}
use prax_sandbox.Files.Confined
use prax_sandbox.Files.Users.{resolve_user_root}
use prax_sandbox.Daemon.Auth.Laws.{check_bearer-own}
use prax_sandbox.Daemon.Services.{Services}
use prax_sandbox.Daemon.Routes.{
  AppConfig, Call, files_read, files_write, files_push, get_health, Body, bytes, number, Response,
  root_status, read_status, write_status, respond_with, respond_json, with_root, run_route, serve,
  is_too_large,
}
use prax_sandbox.Client.{
  Answer, got, failed, HttpTransport, check_response, call_daemon, content_of, number_of,
  answer_with,
}
use prax_sandbox.Client.Http
use prax_sandbox.Client.InProcess
use prax_sandbox.Client.InProcess.{at_root}

-- The transport of a client that has the daemon's token, with nothing between the two.
abbrev pub client_of : AppConfig → Services → (List Member → ℕ) → (Call → ℕ) → HttpTransport
client_of cfg s tar_length json_length = record {
  daemon_token = cfg.bearer_token;
  send = λ d request. let (d', r) = serve cfg s d request in (d', some r);
  tar_length = tar_length;
  json_length = json_length;
}

pub served :
    (cfg : AppConfig) (s : Services) (d : Disk) (t : List Member → ℕ) (j : Call → ℕ) (n : Option ℕ)
    (call : Call) (method path : Text)
    → cfg.bearer_token ≢ []
    → is_too_large cfg n ≡ false
    → call_daemon (client_of cfg s t j) method path n call d
      ≡ ((run_route cfg s d call).0, check_response method path (some (run_route cfg s d call).1))
unfolding call_daemon serve
served cfg s d t j n call method path token small =
    let own = check_bearer-own cfg.bearer_token token in rw (small, own, serve) refl

-- What an error becomes: 400 for a path that escapes, and more for any other error.
abbrev pub HasStatus : FileError → ℕ → Type 0
HasStatus escape s = s ≡ 400
HasStatus _ s = 400 < s

abbrev pub IsErrorOf : FileError → Option ℕ → Type 0
IsErrorOf e none = ⊥
IsErrorOf e (some s) = HasStatus e s

abbrev pub Agrees : {A : Type 0} → Result A → Answer A → Type 0
Agrees (ok a) (got b) = a ≡ b
Agrees (err e) (failed f) = IsErrorOf e f.status
Agrees _ _ = ⊥

-- The disk is the same, and the answer agrees.
abbrev pub IsSame : {A : Type 0} → Disk × Answer A → Disk × Result A → Type 0
IsSame (d, a) (d', r) = (d ≡ d') × Agrees r a

-- What is returned has a form in JSON.
abbrev pub Encodes : {A : Type 0} → (A → Bool) → Disk × Result A → Type 0
Encodes encodes (d, ok a) = encodes a ≡ true
Encodes encodes (d, err e) = Unit

root_status-HasStatus : (e : FileError) → HasStatus e (root_status e)
root_status-HasStatus escape = refl
root_status-HasStatus not_found = omega arith
root_status-HasStatus too_big = omega arith
root_status-HasStatus too_many = omega arith
root_status-HasStatus os_error = omega arith

read_status-HasStatus : (e : FileError) → HasStatus e (read_status e)
read_status-HasStatus escape = refl
read_status-HasStatus not_found = omega arith
read_status-HasStatus too_big = omega arith
read_status-HasStatus too_many = omega arith
read_status-HasStatus os_error = omega arith

pub write_status-HasStatus : (e : FileError) → HasStatus e (write_status e)
write_status-HasStatus escape = refl
write_status-HasStatus not_found = omega arith
write_status-HasStatus too_big = omega arith
write_status-HasStatus too_many = omega arith
write_status-HasStatus os_error = omega arith

HasStatus-error : (e : FileError) (s : ℕ) → HasStatus e s → leb 400 s ≡ true
HasStatus-error escape s h = ground arith
HasStatus-error not_found s h = ground arith
HasStatus-error too_big s h = ground arith
HasStatus-error too_many s h = ground arith
HasStatus-error os_error s h = ground arith

module _ {A : Type 0} (method path : Text) (status : FileError → ℕ) (body : A → Body)
    (read : Body → Answer A) (reads : (a : A) → read (body a) ≡ got a)
    (known : (e : FileError) → HasStatus e (status e)) where
  abbrev pub answered : Disk × Response → Disk × Answer A
  answered (d, r) = answer_with read (d, check_response method path (some r))

  result-IsSame : (x : Disk × Result A) → IsSame (answered (respond_with status body x)) x
  result-IsSame (d, ok a) = (refl, rw (reads a) refl)
  result-IsSame (d, err e) = rw (HasStatus-error e (status e) (known e)) (refl, known e)

  json-IsSame :
      (encodes : A → Bool) (x : Disk × Result A)
      → Encodes encodes x
      → IsSame (answered (respond_json status encodes body x)) x
  json-IsSame encodes (d, ok a) h = rw (h, reads a) (refl, refl)
  json-IsSame encodes (d, err e) h = rw (HasStatus-error e (status e) (known e)) (refl, known e)

  pub json_root-IsSame :
      (encodes : A → Bool) (x : Disk × Result FilePath)
      (operation : Disk → FilePath → Disk × Result A)
      → Encodes encodes (at_root x operation)
      → IsSame
          (answered (with_root x (λ d root. respond_json status encodes body (operation d root))))
          (at_root x operation)
  json_root-IsSame encodes (d, ok root) operation h = json-IsSame encodes (operation d root) h
  json_root-IsSame encodes (d, err e) operation h =
      rw (HasStatus-error e (root_status e) (root_status-HasStatus e))
        (refl, root_status-HasStatus e)

  pub root-IsSame :
      (x : Disk × Result FilePath) (operation : Disk → FilePath → Disk × Result A)
      → IsSame
          (answered (with_root x (λ d root. respond_with status body (operation d root))))
          (at_root x operation)
  root-IsSame (d, ok root) operation = result-IsSame (operation d root)
  root-IsSame (d, err e) operation =
      rw (HasStatus-error e (root_status e) (root_status-HasStatus e))
        (refl, root_status-HasStatus e)

module _ (cfg : AppConfig) (s : Services) (tar_length : List Member → ℕ) (json_length : Call → ℕ)
    (d : Disk) (token : cfg.bearer_token ≢ []) where
  -- A client with the daemon's token, which is not empty, and data within the payload cap: reading,
  -- writing and pushing a tar over the daemon leave the disk as the in-process operations on the
  -- daemon's workspace do, and give the same result, where the bound of a read is lowered to the
  -- cap; an error is raised just where those raise one, with status 400 just for a path that escapes.
  pub remote-IsSame :
      (user_id path data' : Text) (max_bytes : ℕ) (members : List Member)
      → length data' ≤ cfg.max_payload_bytes
      → tar_length members ≤ cfg.max_payload_bytes
      → IsSame (Http.file_read (client_of cfg s tar_length json_length) d user_id path max_bytes) (
          InProcess.file_read cfg.cwd cfg.workspace_dir d user_id path
            (min max_bytes cfg.max_payload_bytes))
        × IsSame
            (Http.file_write (client_of cfg s tar_length json_length) d user_id path data')
            (InProcess.file_write cfg.cwd cfg.workspace_dir d user_id path data')
        × IsSame
            (Http.push_tar (client_of cfg s tar_length json_length) d user_id members path)
            (InProcess.push_tar cfg.cwd cfg.workspace_dir d user_id members path)
  unfolding Http.file_read Http.file_write Http.push_tar InProcess.file_read InProcess.file_write
      InProcess.push_tar run_route
  remote-IsSame user_id path data' max_bytes members small small' =
      let root = resolve_user_root d cfg.cwd cfg.workspace_dir user_id in
      (
        rw
            (served cfg s d tar_length json_length none (files_read user_id path max_bytes)
              (codes "GET") (codes "/v1/files/read") token refl)
            (root-IsSame (codes "GET") (codes "/v1/files/read") read_status bytes content_of
              (λ a. refl) read_status-HasStatus root
              (λ d root. (d, read_file d root path (min max_bytes cfg.max_payload_bytes)))),
        rw
            (served cfg s d tar_length json_length (some (length data'))
              (files_write user_id path data') (codes "PUT") (codes "/v1/files/write") token
              (ground arith))
            (root-IsSame (codes "PUT") (codes "/v1/files/write") write_status number number_of
              (λ a. refl) write_status-HasStatus root (λ d root. write_file d root path data')),
        rw
            (served cfg s d tar_length json_length (some (tar_length members))
              (files_push user_id path members) (codes "PUT") (codes "/v1/files/push_tar") token
              (ground arith))
            (root-IsSame (codes "PUT") (codes "/v1/files/push_tar") write_status number number_of
              (λ a. refl) write_status-HasStatus root
              (λ d root. Confined.push_tar d root members path)),
      )

  -- For a client with the daemon's token, which is not empty, `health` is true whether or not the
  -- daemon reaches the container: it looks only at the status of the answer, which is 200 either way.
  pub health-healthy : Http.health (client_of cfg s tar_length json_length) d ≡ true
  unfolding Http.health run_route
  health-healthy =
      rw
        (served cfg s d tar_length json_length none get_health (codes "GET") (codes "/v1/health")
          token refl)
        refl
