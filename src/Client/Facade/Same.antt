-- ===== src/Client/Facade/Same.antt =====
-- A `SandboxClient` of prax_sandbox_client/client.py does the same with a daemon and without one.
use prax_sandbox.Base.{
  ℕ, ◌≤◌, ◌≡◌, ◌≢◌, refl, ap, ◌∙◌, Bool, true, false, List, [], ◌∷◌, Option, none, some, min,
  length, arith, if◌then◌else◌, All,
}
use prax_sandbox.Text.{Text}
use prax_sandbox.Files.Disk.{Disk}
use prax_sandbox.Files.Confined.{Result, ok, err, Member}
use prax_sandbox.Exec.{Completed}
use prax_sandbox.Daemon.Services.{Services}
use prax_sandbox.Daemon.Routes.{AppConfig, Call, files_grep, are_encodable, are_encodable_hits}
use prax_sandbox.Client.{Choice, http, in_process, make_transport, Answer, got, failed, other_body}
use prax_sandbox.Client.InProcess
use prax_sandbox.Client.Remote.{client_of, IsSame, Encodes, remote-IsSame}
use prax_sandbox.Client.Remote.Reads.{reading-IsSame}
use prax_sandbox.Client.Remote.Commands.{IsSmall, commands_made, commands-IsSame, exec_answer}
use prax_sandbox.Client.Facade.{
  of_answer, of_result, outcome_of, or_raised, Transport, http_transport, in_process_transport,
  transport_of, new_client,
}

outcome-same :
    {A : Type 0} (x : Disk × Answer A) (y : Disk × Result A)
    → IsSame x y
    → of_answer x ≡ of_result y
outcome-same (d, got a) (d', ok b) (e, e') = cc
outcome-same (d, failed f) (d', err g) (e, e') = cc
outcome-same (d, got a) (d', err g) (e, h) = absurd h
outcome-same (d, failed f) (d', ok b) (e, h) = absurd h
outcome-same (d, other_body) (d', ok b) (e, h) = absurd h
outcome-same (d, other_body) (d', err g) (e, h) = absurd h

abbrev pub over_http : AppConfig → Services → (List Member → ℕ) → (Call → ℕ) → Transport
over_http cfg s tar_length json_length = http_transport (client_of cfg s tar_length json_length)

abbrev pub local_transport : AppConfig → Services → Transport
local_transport cfg s = in_process_transport cfg.cwd cfg.workspace_dir s

then_of : {A : Type 0} (b : Bool) (x y : A) → b ≡ true → (if b then x else y) ≡ x
then_of b x y h = rw h refl

else_of : {A : Type 0} (b : Bool) (x y : A) → b ≡ false → (if b then x else y) ≡ y
else_of b x y h = rw h refl

module _ (d : Disk) (user_id path query include' data' command package_name : Text)
    (recursive : Bool) (max_bytes max_count timeout : ℕ) (members : List Member)
    (content cwd : Option Text) (cmd : List Text) (env : List (Text × Text)) where
  -- The two transports leave the same disk and return the same.
  abbrev pub AreSame : Transport → Transport → Type 0
  AreSame a b =
      (a.file_list d user_id path recursive ≡ b.file_list d user_id path recursive)
      × (a.file_read d user_id path max_bytes ≡ b.file_read d user_id path max_bytes)
      × (a.file_write d user_id path data' ≡ b.file_write d user_id path data')
      × (a.file_grep d user_id query path include' max_count
          ≡ b.file_grep d user_id query path include' max_count)
      × (a.pull_tar d user_id path ≡ b.pull_tar d user_id path)
      × (a.push_tar d user_id members path ≡ b.push_tar d user_id members path)
      × (a.run_shell d command timeout ≡ b.run_shell d command timeout)
      × (a.run_command d cmd cwd env timeout ≡ b.run_command d cmd cwd env timeout)
      × (a.install_package d package_name ≡ b.install_package d package_name)
      × (a.rebuild_sandbox d content ≡ b.rebuild_sandbox d content)
      × (a.restart_sandbox d ≡ b.restart_sandbox d)
      × (a.runtime_mode d ≡ b.runtime_mode d)

  AreSame-self : (a : Transport) → AreSame a a
  AreSame-self a = (refl, refl, refl, refl, refl, refl, refl, refl, refl, refl, refl, refl)

  transport_of-AreSame :
      (c : Choice) (a b : Transport) → AreSame a b → AreSame (transport_of c a b) b
  transport_of-AreSame http a b h = h
  transport_of-AreSame in_process a b h = AreSame-self b

  module _ (cfg : AppConfig) (s : Services) (tar_length : List Member → ℕ) (json_length : Call → ℕ)
      (token : cfg.bearer_token ≢ [])
      (small : All (IsSmall cfg s tar_length json_length d token) (
        files_grep user_id query path include' max_count
        ∷ commands_made cfg s tar_length json_length d token command package_name cmd cwd env
            timeout content))
      (names : Encodes are_encodable
        (InProcess.file_list cfg.cwd cfg.workspace_dir d user_id path recursive))
      (found : Encodes are_encodable_hits (
        InProcess.file_grep s.fnmatch s.storage cfg.cwd cfg.workspace_dir d user_id query path
          include' max_count))
      (in_cap : max_bytes ≤ cfg.max_payload_bytes) (free : s.is_busy ≡ false)
      (rebuilds : cfg.allow_rebuild ≡ true) (small_data : length data' ≤ cfg.max_payload_bytes)
      (small_tar : tar_length members ≤ cfg.max_payload_bytes) where
    exec_outcome : (o : Option Completed) → outcome_of (exec_answer o) ≡ or_raised o
    exec_outcome none = refl
    exec_outcome (some cp) = refl

    http-AreSame : AreSame (over_http cfg s tar_length json_length) (local_transport cfg s)
    http-AreSame =
        let (read, write, push) =
          remote-IsSame cfg s tar_length json_length d token user_id path data' max_bytes members
            small_data small_tar in
        let (list, search, pull) =
          reading-IsSame cfg s tar_length json_length d user_id path query include' recursive
            max_count token small.0 names found in
        let (shell, command', install, rebuild, restart, mode, _) =
          commands-IsSame cfg s tar_length json_length d token command package_name cmd cwd env
            timeout content small.1 in
        let min_left : min max_bytes cfg.max_payload_bytes ≡ max_bytes = omega arith in
        (
          outcome-same _ _ list,
          outcome-same _ _ read
              ∙ ap (λ n. of_result (InProcess.file_read cfg.cwd cfg.workspace_dir d user_id path n))
                  min_left,
          outcome-same _ _ write,
          outcome-same _ _ search,
          outcome-same _ _ pull,
          outcome-same _ _ push,
          shell ∙ else_of s.is_busy _ _ free,
          ap outcome_of (command' ∙ else_of s.is_busy _ _ free)
              ∙ exec_outcome (s.run_command cmd cwd env timeout),
          install,
          rebuild ∙ then_of cfg.allow_rebuild _ _ rebuilds,
          restart,
          ap outcome_of mode,
        )

    -- Whatever `daemon_url` is given, a `SandboxClient` of a daemon with its token, which is not
    -- empty, does to the daemon's disk what the client in the daemon's process does, and returns the
    -- same or raises where it raises, for files, commands and the container: where the JSON of the
    -- calls made, the data and the bound of a read are within the payload cap, the names
    -- listed and the texts found are such that JSON can carry them, a place for commands is free, and the daemon
    -- allows a rebuild.
    pub new_client-AreSame :
        (daemon_url : Option (Option Text))
        → AreSame
            (new_client daemon_url (over_http cfg s tar_length json_length) (local_transport cfg s))
            (local_transport cfg s)
    unfolding new_client
    new_client-AreSame daemon_url =
        transport_of-AreSame (make_transport daemon_url) (over_http cfg s tar_length json_length)
          (local_transport cfg s) http-AreSame
