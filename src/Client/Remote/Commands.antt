-- ===== src/Client/Remote/Commands.antt =====
-- Over the daemon, a client's commands are those of the daemon's control plane.
use prax_sandbox.Base.{
  ℕ, ◌≤◌, ◌≡◌, ◌≢◌, refl, ap, ◌∙◌, inl, inr, false, List, [], ◌∷◌, Option, none, some, arith,
  if◌then◌else◌, Bool-cases, Option-cases, All,
}
use prax_sandbox.Text.{Text, codes}
use prax_sandbox.Files.Disk.{Disk}
use prax_sandbox.Files.Confined.{Member}
use prax_sandbox.Exec.{Completed}
use prax_sandbox.Daemon.Services.{Services}
use prax_sandbox.Daemon.Routes.{
  AppConfig, Call, post_shell, post_exec, post_packages, post_rebuild, post_restart,
  get_capabilities, get_runtime_mode, Body, run_route, is_too_large,
}
use prax_sandbox.Client.{
  SandboxTransportError, Answer, got, failed, HttpTransport, read_answer, check_response,
  answer_with, call_daemon, shell_of, process_of, rebuild_of, install_of, restart_of, mode_of,
  capabilities_of,
}
use prax_sandbox.Client.Plane
use prax_sandbox.Client.Plane.{
  post, to_json, or_unreachable, or_default, JsonReply, reply, error_reply, Capabilities,
  daemon_capabilities,
}
use prax_sandbox.Client.Remote.{client_of, served}

-- The error that a POST raises.
abbrev pub post_error : Text → ℕ → SandboxTransportError
post_error path status = record { method = codes "POST"; path = path; status = some status }

abbrev pub exec_answer : Option Completed → Answer Completed
exec_answer none = failed (post_error (codes "/v1/exec") 500)
exec_answer (some cp) = got cp

module _ (cfg : AppConfig) (s : Services) (tar_length : List Member → ℕ) (json_length : Call → ℕ)
    (d : Disk) (token : cfg.bearer_token ≢ []) where
  -- The JSON of a call is within the payload cap.
  abbrev pub IsSmall : Call → Type 0
  IsSmall call = json_length call ≤ cfg.max_payload_bytes

  posts_small : (call : Call) → IsSmall call → is_too_large cfg (some (json_length call)) ≡ false
  posts_small call small = ground arith

  abbrev client : HttpTransport
  client = client_of cfg s tar_length json_length

  posted :
      {A : Type 0} (read : Body → Answer A) (path : Text) (call : Call)
      → IsSmall call
      → post read client d path call
        ≡ read_answer read (check_response (codes "POST") path (some (run_route cfg s d call).1))
  posted read path call small =
      ap (λ x. (answer_with read x).1)
        (served cfg s d tar_length json_length (some (json_length call)) call (codes "POST") path
          token (posts_small call small))

  asked :
      {A : Type 0} (read : Body → Answer A) (path : Text) (call : Call)
      → (answer_with read (call_daemon client (codes "GET") path none call d)).1
        ≡ read_answer read (check_response (codes "GET") path (some (run_route cfg s d call).1))
  asked read path call =
      ap (λ x. (answer_with read x).1)
        (served cfg s d tar_length json_length none call (codes "GET") path token refl)

  run_shell-answer :
      (command : Text) (timeout : ℕ)
      → IsSmall (post_shell command timeout)
      → Plane.run_shell client d command timeout ≡ (
          if s.is_busy
          then error_reply (post_error (codes "/v1/shell") 429)
          else reply (s.run_shell command timeout))
  unfolding Plane.run_shell run_route
  run_shell-answer command timeout small =
      ap to_json (posted shell_of (codes "/v1/shell") (post_shell command timeout) small)
      ∙ elim (Bool-cases s.is_busy) [ inl e ↦ rw e refl | inr e ↦ rw e refl ]

  run_command-answer :
      (cmd : List Text) (cwd : Option Text) (env : List (Text × Text)) (timeout : ℕ)
      → IsSmall (post_exec cmd cwd env timeout)
      → Plane.run_command client d cmd cwd env timeout ≡ (
          if s.is_busy
          then failed (post_error (codes "/v1/exec") 429)
          else exec_answer (s.run_command cmd cwd env timeout))
  unfolding Plane.run_command run_route
  run_command-answer cmd cwd env timeout small =
      posted process_of (codes "/v1/exec") (post_exec cmd cwd env timeout) small
      ∙ elim (Bool-cases s.is_busy) [
        | inl e ↦ rw e refl
        | inr e ↦ elim (Option-cases (s.run_command cmd cwd env timeout)) [
          | inl r ↦ rw (e, r) refl
          | inr (cp, r) ↦ rw (e, r) refl
        ]
      ]

  rebuild_sandbox-answer :
      (content : Option Text)
      → IsSmall (post_rebuild content)
      → Plane.rebuild_sandbox client d content ≡ (
          if cfg.allow_rebuild
          then reply (s.rebuild_sandbox content)
          else error_reply (post_error (codes "/v1/rebuild") 403))
  unfolding Plane.rebuild_sandbox run_route
  rebuild_sandbox-answer content small =
      ap to_json (posted rebuild_of (codes "/v1/rebuild") (post_rebuild content) small)
      ∙ elim (Bool-cases cfg.allow_rebuild) [ inl e ↦ rw e refl | inr e ↦ rw e refl ]

  -- The calls with a body that the client makes.
  abbrev pub commands_made :
      Text → Text → List Text → Option Text → List (Text × Text) → ℕ → Option Text → List Call
  commands_made command package_name cmd cwd env timeout content =
      post_shell command timeout
      ∷ post_exec cmd cwd env timeout
      ∷ post_packages package_name
      ∷ post_rebuild content
      ∷ post_restart
      ∷ []

  -- A client with the daemon's token, which is not empty, and the JSON of each of these calls within
  -- the payload cap: a
  -- shell command and a list of words are run by the daemon's control plane, with its results as they
  -- are, unless all places are taken, which is error 429; an exception of `run_command` is error
  -- 500; packages, restart and mode are those of the control plane too, and so is a rebuild where the
  -- daemon allows it, while it is error 403 where not, as the capabilities say.
  pub commands-IsSame :
      (command package_name : Text) (cmd : List Text) (cwd : Option Text) (env : List (Text × Text))
      (timeout : ℕ) (content : Option Text)
      → All IsSmall (commands_made command package_name cmd cwd env timeout content)
      → (Plane.run_shell client d command timeout ≡ (
          if s.is_busy
          then error_reply (post_error (codes "/v1/shell") 429)
          else reply (s.run_shell command timeout)))
        × (Plane.run_command client d cmd cwd env timeout ≡ (
            if s.is_busy
            then failed (post_error (codes "/v1/exec") 429)
            else exec_answer (s.run_command cmd cwd env timeout)))
        × (Plane.install_package client d package_name ≡ reply (s.install_package package_name))
        × (Plane.rebuild_sandbox client d content ≡ (
            if cfg.allow_rebuild
            then reply (s.rebuild_sandbox content)
            else error_reply (post_error (codes "/v1/rebuild") 403)))
        × (Plane.restart_sandbox client d ≡ reply s.restart_sandbox)
        × (Plane.runtime_mode client d ≡ got s.runtime_mode)
        × (Plane.capabilities client d ≡ daemon_capabilities cfg.allow_rebuild)
  unfolding Plane.install_package Plane.restart_sandbox Plane.runtime_mode Plane.capabilities
      run_route
  commands-IsSame command package_name cmd cwd env timeout content
        (shell, (exec, (install, (rebuild, (restart, _))))) =
      (
        run_shell-answer command timeout shell,
        run_command-answer cmd cwd env timeout exec,
        ap to_json (posted install_of (codes "/v1/packages") (post_packages package_name) install),
        rebuild_sandbox-answer content rebuild,
        ap to_json (posted restart_of (codes "/v1/restart") post_restart restart),
        ap or_unreachable (asked mode_of (codes "/v1/runtime-mode") get_runtime_mode),
        ap or_default (asked capabilities_of (codes "/v1/capabilities") get_capabilities),
      )
