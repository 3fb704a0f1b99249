-- ===== src/Client/Remote/Reads.antt =====
-- Over the daemon, listing, searching and pulling a tar give what they give in process.
use prax_sandbox.Base.{ℕ, ◌≤◌, ◌≢◌, refl, Bool, List, [], none, some, arith}
use prax_sandbox.Text.{Text, codes}
use prax_sandbox.Files.Disk.{Disk}
use prax_sandbox.Files.Confined.{Member}
use prax_sandbox.Files.Listing.{list_dir, grep}
use prax_sandbox.Files.Listing
use prax_sandbox.Files.Users.{resolve_user_root}
use prax_sandbox.Daemon.Services.{Services}
use prax_sandbox.Daemon.Routes.{
  AppConfig, Call, files_list, files_grep, files_pull, entries, hits, tar, write_status, run_route,
  are_encodable, are_encodable_hits,
}
use prax_sandbox.Client.{entries_of, hits_of, tar_of}
use prax_sandbox.Client.Http
use prax_sandbox.Client.InProcess
use prax_sandbox.Client.Remote.{
  client_of, served, IsSame, Encodes, root-IsSame, json_root-IsSame, write_status-HasStatus,
}

-- A client with the daemon's token, which is not empty, and a search whose body is within the payload
-- cap, and names and texts found that JSON can carry: listing, searching and pulling a tar over the
-- daemon leave the disk as the in-process operations on the daemon's workspace do, and give the same
-- result; an error is raised just where those raise one, with status 400 just for a path that
-- escapes.
pub reading-IsSame :
    (cfg : AppConfig) (s : Services) (tar_length : List Member → ℕ) (json_length : Call → ℕ)
    (d : Disk) (user_id path query include' : Text) (recursive : Bool) (max_count : ℕ)
    → cfg.bearer_token ≢ []
    → json_length (files_grep user_id query path include' max_count) ≤ cfg.max_payload_bytes
    → Encodes are_encodable (InProcess.file_list cfg.cwd cfg.workspace_dir d user_id path recursive)
    → Encodes are_encodable_hits (
        InProcess.file_grep s.fnmatch s.storage cfg.cwd cfg.workspace_dir d user_id query path
          include' max_count)
    → IsSame
        (Http.file_list (client_of cfg s tar_length json_length) d user_id path recursive)
        (InProcess.file_list cfg.cwd cfg.workspace_dir d user_id path recursive)
      × IsSame
          (Http.file_grep
            (client_of cfg s tar_length json_length)
            d
            user_id
            query
            path
            include'
            max_count)
          (InProcess.file_grep s.fnmatch s.storage cfg.cwd cfg.workspace_dir d user_id query path
            include' max_count)
      × IsSame
          (Http.pull_tar (client_of cfg s tar_length json_length) d user_id path)
          (InProcess.pull_tar s.storage cfg.cwd cfg.workspace_dir d user_id path)
unfolding Http.file_list Http.file_grep Http.pull_tar InProcess.file_list InProcess.file_grep
    InProcess.pull_tar run_route
reading-IsSame cfg s tar_length json_length d user_id path query include' recursive max_count token
      small names found =
    let root = resolve_user_root d cfg.cwd cfg.workspace_dir user_id in
    let search = files_grep user_id query path include' max_count in
    (
      rw
          (served cfg s d tar_length json_length none (files_list user_id path recursive)
            (codes "GET") (codes "/v1/files/list") token refl)
          (json_root-IsSame (codes "GET") (codes "/v1/files/list") write_status entries entries_of
            (λ a. refl) write_status-HasStatus are_encodable root
            (λ d root. (d, list_dir d root path recursive)) names),
      rw
          (served cfg s d tar_length json_length (some (json_length search)) search (codes "POST")
            (codes "/v1/files/grep") token (ground arith))
          (json_root-IsSame (codes "POST") (codes "/v1/files/grep") write_status hits hits_of
            (λ a. refl) write_status-HasStatus are_encodable_hits root
            (λ d root. (d, grep s.fnmatch s.storage d root query path include' max_count)) found),
      rw
          (served cfg s d tar_length json_length none (files_pull user_id path) (codes "GET")
            (codes "/v1/files/pull_tar") token refl)
          (root-IsSame (codes "GET") (codes "/v1/files/pull_tar") write_status tar tar_of
            (λ a. refl) write_status-HasStatus root
            (λ d root. (d, Listing.pull_tar s.storage d root path))),
    )
