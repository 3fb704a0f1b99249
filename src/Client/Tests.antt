-- ===== src/Client/Tests.antt =====
-- A client over a daemon with one file, and the theorems about the two there.
use prax_sandbox.Base.{
  ◌≡◌, ◌≢◌, refl, true, false, ℕ, none, List, [], ◌∷◌, some, contains, length, arith, ◌+◌, All,
}
use prax_sandbox.Text
use prax_sandbox.Text.{Text, codes, join}
use prax_sandbox.Files.Disk.{Disk, directory, file, path_beq, node_at, entry_at}
use prax_sandbox.Files.Realpath
use prax_sandbox.Files.Kernel
use prax_sandbox.Files.System
use prax_sandbox.Files.Confined
use prax_sandbox.Files.Confined.{Member, file_member, ok, Result}
use prax_sandbox.Files.Users.{resolve_user_root}
use prax_sandbox.Daemon.Auth.{fits, check_bearer}
use prax_sandbox.ControlPlane.{installed, no_docker, no_container}
use prax_sandbox.ControlPlane.Installs.{ran}
use prax_sandbox.Daemon.Services.{Services}
use prax_sandbox.Daemon.Routes.{
  AppConfig, Call, post_shell, post_exec, post_packages, post_rebuild, files_grep, run_route, serve,
}
use prax_sandbox.Client.{HttpTransport, http, in_process, make_transport, got, failed, call_daemon}
use prax_sandbox.Client.Http
use prax_sandbox.Client.InProcess
use prax_sandbox.Client.Plane
use prax_sandbox.Client.Plane.{reply, error_reply, daemon_capabilities}
use prax_sandbox.Client.Remote.Commands.{post_error, IsSmall, commands_made, commands-IsSame}
use prax_sandbox.Client.Remote.{client_of, IsSame, remote-IsSame}

client_runs : Unit {0}
unfolding Text.text_beq Text.join Text.lower Text.cut Text.starts_with Text.split Text.lstrip
    Text.rstrip Text.strip path_beq node_at entry_at Realpath.find_seen Realpath.name_step
    Realpath.walk Realpath.resolve Realpath.realpath Kernel.look_up Kernel.find_names Kernel.kernel
    System.find_place System.stat System.make_entry System.mkdir System.make_last System.make_dirs
    System.written System.write_entry System.open_write Confined.is_below Confined.confine
    Confined.names_below Confined.write_confined Confined.write_file Confined.read_file
    Confined.extract_member Confined.extract_all Confined.push_tar resolve_user_root fits
    check_bearer run_route serve make_transport call_daemon Http.file_read Http.file_write
    Http.push_tar Http.health InProcess.file_read InProcess.file_write InProcess.push_tar contains
client_runs = tt

abbrev disk : Disk
disk =
    (codes "w" ∷ [], directory)
    ∷ (codes "u" ∷ codes "w" ∷ [], directory)
    ∷ (codes "a" ∷ codes "u" ∷ codes "w" ∷ [], file (codes "hello"))
    ∷ []

abbrev cfg : AppConfig
cfg = record {
  bearer_token = codes "secret";
  workspace_dir = codes "/w";
  max_payload_bytes = 6;
  allow_rebuild = false;
  cwd = [];
}

abbrev tar_length : List Member → ℕ
tar_length members = length members

-- As long as the JSON of short texts with nothing to escape.
abbrev pub json_length : Call → ℕ
json_length (post_shell command timeout) = 40 + length command
json_length (post_exec cmd cwd env timeout) = 60 + length (join [] cmd)
json_length (post_packages package_name) = 11 + length package_name
json_length (post_rebuild none) = 2
json_length (post_rebuild (some content)) = 15 + length content
json_length (files_grep user_id query path include' max_count) =
    60 + (length user_id + length query + length path + length include')
json_length _ = 2

abbrev services : Services
services = record {
  is_busy = false;
  is_healthy = false;
  runtime_mode = codes "docker";
  run_shell = λ command timeout. ran command [] 0;
  run_command = λ cmd cwd env timeout. none;
  install_package = λ package_name. installed package_name [];
  rebuild_sandbox = λ content. no_docker;
  restart_sandbox = no_container;
  fnmatch = λ name pattern. true;
  storage = record { decode = λ t. t; special_text = λ p. none; inode = λ p. 0 };
}

abbrev client : HttpTransport
client = client_of cfg services tar_length json_length

abbrev stranger : HttpTransport
stranger = record {
  daemon_token = codes "other";
  send = client.send;
  tar_length = tar_length;
  json_length = json_length;
}

client_tests :
    ((Http.file_read client disk (codes "u") (codes "a") 10).1 ≡ got (codes "hello"))
    × ((Http.file_read client disk (codes "u") (codes "b") 10).1
        ≡ failed record { method = codes "GET"; path = codes "/v1/files/read"; status = some 404 })
    × ((Http.file_read stranger disk (codes "u") (codes "a") 10).1
        ≡ failed record { method = codes "GET"; path = codes "/v1/files/read"; status = some 401 })
    × ((Http.file_write client disk (codes "u") (codes "../x") []).1
        ≡ failed record { method = codes "PUT"; path = codes "/v1/files/write"; status = some 400 })
    × ((Http.file_write client disk (codes "u") (codes "x") (codes "too long")).1
        ≡ failed record { method = codes "PUT"; path = codes "/v1/files/write"; status = some 413 })
    × ((Http.file_write client disk (codes "u") (codes "x") (codes "abc")).1 ≡ got 3)
    × ((InProcess.file_read [] (codes "/w") disk (codes "u") (codes "a") 10).1 ≡ ok (codes "hello"))
    × (make_transport (some (some (codes " "))) ≡ in_process)
    × (make_transport (some (some (codes "https://d"))) ≡ http)
unfolding client_runs
client_tests = (refl, refl, refl, refl, refl, refl, refl, refl, refl)

has_token : cfg.bearer_token ≢ []
has_token e = cc

abbrev tar : List Member
tar = record { kind = file_member; member_name = codes "f"; contents = codes "new" } ∷ []

remote-IsSame_example :
    IsSame
      (Http.file_read client disk (codes "u") (codes "a") 10)
      (InProcess.file_read [] (codes "/w") disk (codes "u") (codes "a") 6)
    × IsSame
        (Http.file_write client disk (codes "u") (codes "a") (codes "abc"))
        (InProcess.file_write [] (codes "/w") disk (codes "u") (codes "a") (codes "abc"))
    × IsSame
        (Http.push_tar client disk (codes "u") tar (codes "a"))
        (InProcess.push_tar [] (codes "/w") disk (codes "u") tar (codes "a"))
remote-IsSame_example =
    remote-IsSame cfg services tar_length json_length disk has_token (codes "u") (codes "a")
      (codes "abc") 10 tar (omega arith) (omega arith)

abbrev wide : AppConfig
wide = record {
  bearer_token = codes "secret";
  workspace_dir = codes "/w";
  max_payload_bytes = 100;
  allow_rebuild = false;
  cwd = [];
}

abbrev wide_client : HttpTransport
wide_client = client_of wide services tar_length json_length

json-IsSmall : All (IsSmall wide services tar_length json_length disk has_token) (
    commands_made wide services tar_length json_length disk has_token
      (codes "ls")
      (codes "vim")
      (codes "ls" ∷ [])
      none
      []
      60
      none)
unfolding client_runs
json-IsSmall = (omega arith, (omega arith, (omega arith, (omega arith, (omega arith, tt)))))

commands-IsSame_example :
    (Plane.run_shell wide_client disk (codes "ls") 60 ≡ reply (ran (codes "ls") [] 0))
    × (Plane.run_command wide_client disk (codes "ls" ∷ []) none [] 60
        ≡ failed (post_error (codes "/v1/exec") 500))
    × (Plane.install_package wide_client disk (codes "vim") ≡ reply (installed (codes "vim") []))
    × (Plane.rebuild_sandbox wide_client disk none
        ≡ error_reply (post_error (codes "/v1/rebuild") 403))
    × (Plane.restart_sandbox wide_client disk ≡ reply no_container)
    × (Plane.runtime_mode wide_client disk ≡ got (codes "docker"))
    × (Plane.capabilities wide_client disk ≡ daemon_capabilities false)
commands-IsSame_example =
    commands-IsSame wide services tar_length json_length disk has_token (codes "ls") (codes "vim")
      (codes "ls" ∷ []) none [] 60 none json-IsSmall
