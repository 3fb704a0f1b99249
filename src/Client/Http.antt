-- ===== src/Client/Http.antt =====
-- The methods of `HttpTransport` for files and health in prax_sandbox_client/transport.py.
use prax_sandbox.Base.{ℕ, Bool, List, none, some, length}
use prax_sandbox.Files.Listing.{TarMember, Entry, Hit}
use prax_sandbox.Text.{Text, codes}
use prax_sandbox.Files.Disk.{Disk}
use prax_sandbox.Files.Confined.{Member}
use prax_sandbox.Daemon.Routes.{
  files_read, files_write, files_push, files_list, files_grep, files_pull, get_health,
}
use prax_sandbox.Client.{
  Answer, HttpTransport, call_daemon, content_of, number_of, entries_of, hits_of, tar_of,
  answer_with, is_got,
}

unfoldable pub file_read : HttpTransport → Disk → Text → Text → ℕ → Disk × Answer Text
file_read t d user_id path max_bytes = answer_with content_of (
    call_daemon t (codes "GET") (codes "/v1/files/read") none (files_read user_id path max_bytes) d)

unfoldable pub file_write : HttpTransport → Disk → Text → Text → Text → Disk × Answer ℕ
file_write t d user_id path data' = answer_with number_of (
    call_daemon t (codes "PUT") (codes "/v1/files/write") (some (length data'))
      (files_write user_id path data') d)

unfoldable pub push_tar : HttpTransport → Disk → Text → List Member → Text → Disk × Answer ℕ
push_tar t d user_id members path = answer_with number_of (
    call_daemon t (codes "PUT") (codes "/v1/files/push_tar") (some (t.tar_length members))
      (files_push user_id path members) d)

unfoldable pub file_list : HttpTransport → Disk → Text → Text → Bool → Disk × Answer (List Entry)
file_list t d user_id path recursive = answer_with entries_of (
    call_daemon t (codes "GET") (codes "/v1/files/list") none (files_list user_id path recursive) d)

unfoldable pub file_grep :
    HttpTransport → Disk → Text → Text → Text → Text → ℕ → Disk × Answer (List Hit)
file_grep t d user_id query path include' max_count =
    let call = files_grep user_id query path include' max_count in
    answer_with hits_of
      (call_daemon t (codes "POST") (codes "/v1/files/grep") (some (t.json_length call)) call d)

unfoldable pub pull_tar : HttpTransport → Disk → Text → Text → Disk × Answer (List TarMember)
pull_tar t d user_id path =
    answer_with tar_of
      (call_daemon t (codes "GET") (codes "/v1/files/pull_tar") none (files_pull user_id path) d)

-- `r.ok`, and false for any exception.
unfoldable pub health : HttpTransport → Disk → Bool
health t d = is_got (call_daemon t (codes "GET") (codes "/v1/health") none get_health d).1
