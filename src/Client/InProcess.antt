-- ===== src/Client/InProcess.antt =====
-- The file methods of `InProcessTransport` in prax_sandbox_client/transport.py.
use prax_sandbox.Base.{ℕ, Bool, List}
use prax_sandbox.Text.{Text}
use prax_sandbox.Files.Disk.{FilePath, Disk}
use prax_sandbox.Files.Confined.{Result, ok, err, Member, read_file, write_file}
use prax_sandbox.Files.Confined
use prax_sandbox.Files.Listing.{Entry, Hit, Storage, TarMember, list_dir, grep}
use prax_sandbox.Files.Listing
use prax_sandbox.Files.Users.{resolve_user_root}

-- `_root` under the workspace, from the directory that the process runs in.
abbrev pub at_root :
    {A : Type 0} → Disk × Result FilePath → (Disk → FilePath → Disk × Result A) → Disk × Result A
at_root (d, err e) operation = (d, err e)
at_root (d, ok root) operation = operation d root

unfoldable pub file_read : FilePath → Text → Disk → Text → Text → ℕ → Disk × Result Text
file_read cwd workspace_dir d user_id path max_bytes =
    at_root (resolve_user_root d cwd workspace_dir user_id)
      (λ d root. (d, read_file d root path max_bytes))

unfoldable pub file_write : FilePath → Text → Disk → Text → Text → Text → Disk × Result ℕ
file_write cwd workspace_dir d user_id path data' =
    at_root (resolve_user_root d cwd workspace_dir user_id) (λ d root. write_file d root path data')

unfoldable pub push_tar : FilePath → Text → Disk → Text → List Member → Text → Disk × Result ℕ
push_tar cwd workspace_dir d user_id members path =
    at_root (resolve_user_root d cwd workspace_dir user_id)
      (λ d root. Confined.push_tar d root members path)

unfoldable pub file_list : FilePath → Text → Disk → Text → Text → Bool → Disk × Result (List Entry)
file_list cwd workspace_dir d user_id path recursive =
    at_root (resolve_user_root d cwd workspace_dir user_id)
      (λ d root. (d, list_dir d root path recursive))

-- With `fnmatch`, and what is not on the disk.
unfoldable pub file_grep :
    (Text → Text → Bool)
    → Storage
    → FilePath
    → Text
    → Disk
    → Text
    → Text
    → Text
    → Text
    → ℕ
    → Disk × Result (List Hit)
file_grep fnmatch storage cwd workspace_dir d user_id query path include' max_count =
    at_root (resolve_user_root d cwd workspace_dir user_id)
      (λ d root. (d, grep fnmatch storage d root query path include' max_count))

unfoldable pub pull_tar :
    Storage → FilePath → Text → Disk → Text → Text → Disk × Result (List TarMember)
pull_tar storage cwd workspace_dir d user_id path =
    at_root (resolve_user_root d cwd workspace_dir user_id)
      (λ d root. (d, Listing.pull_tar storage d root path))
