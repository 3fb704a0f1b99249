-- ===== src/Client/Facade/Tests.antt =====
-- A client of a daemon with one file, and the theorem about it there.
use prax_sandbox.Base.{
  ◌≡◌, ◌≢◌, refl, true, false, ℕ, List, [], ◌∷◌, Option, none, some, length, arith, contains, All,
}
use prax_sandbox.Text
use prax_sandbox.Text.{Text, codes}
use prax_sandbox.Files.Disk.{Disk, directory, file}
use prax_sandbox.Files.Confined.{Member, file_member}
use prax_sandbox.ControlPlane.{installed, no_docker, no_container}
use prax_sandbox.ControlPlane.Installs.{ran}
use prax_sandbox.Daemon.Services.{Services}
use prax_sandbox.Daemon.Routes.{AppConfig, files_grep, are_encodable, are_encodable_hits}
use prax_sandbox.Client.InProcess
use prax_sandbox.Client.Remote.{Encodes}
use prax_sandbox.Client.Remote.Commands.{IsSmall, commands_made}
use prax_sandbox.Client.Tests.{json_length}
use prax_sandbox.Files.Disk.{path_beq, node_at, entry_at}
use prax_sandbox.Files.Realpath
use prax_sandbox.Files.Kernel
use prax_sandbox.Files.System
use prax_sandbox.Files.Confined
use prax_sandbox.Files.Walk
use prax_sandbox.Files.Listing
use prax_sandbox.Files.Users.{resolve_user_root}
use prax_sandbox.Client.{make_transport}
use prax_sandbox.Client.Facade.{Transport, new_client, get_client}
use prax_sandbox.Client.Facade.Same.{AreSame, over_http, local_transport, new_client-AreSame}

facade_runs : Unit {0}
unfolding Text.text_beq Text.starts_with Text.split Text.join Text.has_text Text.lower_code
    Text.lower Text.lstrip Text.rstrip Text.strip path_beq node_at entry_at Realpath.find_seen
    Realpath.name_step Realpath.walk Realpath.resolve Realpath.realpath Kernel.look_up
    Kernel.find_names Kernel.kernel System.find_place System.stat System.make_entry System.mkdir
    System.make_last System.make_dirs Confined.is_below Confined.confine Confined.names_below
    Walk.names_in Walk.walk_files Walk.depth Walk.walk Listing.rel_text Listing.entry_of
    Listing.text_le Listing.insert_text Listing.sorted Listing.list_dir Listing.splitlines
    Listing.first_line Listing.first_match Listing.hit_of Listing.grep_files Listing.grep
    resolve_user_root InProcess.file_list InProcess.file_grep contains make_transport new_client
    get_client
facade_runs = tt

abbrev disk : Disk
disk =
    (codes "w" ∷ [], directory)
    ∷ (codes "u" ∷ codes "w" ∷ [], directory)
    ∷ (codes "a" ∷ codes "u" ∷ codes "w" ∷ [], file (codes "hello"))
    ∷ []

abbrev cfg : AppConfig
cfg = record {
  bearer_token = codes "secret";
  workspace_dir = codes "/w";
  max_payload_bytes = 100;
  allow_rebuild = true;
  cwd = [];
}

abbrev services : Services
services = record {
  is_busy = false;
  is_healthy = true;
  runtime_mode = codes "docker";
  run_shell = λ command timeout. ran command [] 0;
  run_command = λ cmd cwd env timeout. none;
  install_package = λ package_name. installed package_name [];
  rebuild_sandbox = λ content. no_docker;
  restart_sandbox = no_container;
  fnmatch = λ name pattern. true;
  storage = record { decode = λ t. t; special_text = λ p. none; inode = λ p. 0 };
}

abbrev tar : List Member
tar = record { kind = file_member; member_name = codes "f"; contents = codes "new" } ∷ []

abbrev tar_length : List Member → ℕ
tar_length members = length members

has_token : cfg.bearer_token ≢ []
has_token e = cc

abbrev daemon_url : Option (Option Text)
daemon_url = some (some (codes "https://d"))

client_tests :
    (a b : Transport)
    → (new_client daemon_url a b ≡ a)
      × (new_client (some none) a b ≡ b)
      × (get_client none a b ≡ (b, some b))
      × (get_client (some a) a b ≡ (a, some a))
unfolding facade_runs
client_tests a b = (refl, refl, refl, refl)

json-IsSmall : All (IsSmall cfg services tar_length json_length disk has_token) (
    files_grep (codes "u") (codes "ell") (codes "a") (codes "*") 200
    ∷ commands_made cfg services tar_length json_length disk has_token
        (codes "ls")
        (codes "vim")
        (codes "ls" ∷ [])
        none
        []
        60
        none)
unfolding facade_runs
json-IsSmall =
    (omega arith, (omega arith, (omega arith, (omega arith, (omega arith, (omega arith, tt))))))

listed :
    Encodes are_encodable (InProcess.file_list [] (codes "/w") disk (codes "u") (codes "a") true)
    × Encodes are_encodable_hits (
        InProcess.file_grep services.fnmatch services.storage []
          (codes "/w")
          disk
          (codes "u")
          (codes "ell")
          (codes "a")
          (codes "*")
          200)
unfolding facade_runs
listed = (refl, refl)

new_client-AreSame_example :
    AreSame disk
      (codes "u")
      (codes "a")
      (codes "ell")
      (codes "*")
      (codes "abc")
      (codes "ls")
      (codes "vim")
      true
      5
      200
      60
      tar
      none
      none
      (codes "ls" ∷ [])
      []
      (new_client daemon_url
        (over_http cfg services tar_length json_length)
        (local_transport cfg services))
      (local_transport cfg services)
new_client-AreSame_example =
    new_client-AreSame disk (codes "u") (codes "a") (codes "ell") (codes "*") (codes "abc")
      (codes "ls") (codes "vim") true 5 200 60 tar none none (codes "ls" ∷ []) [] cfg services
      tar_length json_length has_token json-IsSmall listed.0 listed.1 (omega arith) refl refl
      (omega arith) (omega arith) daemon_url
