-- ===== src/ControlPlane/Rebuild.antt =====
-- Nothing is restarted after a build that failed.
use prax_sandbox.Base.{
  ℕ, ◌≡◌, ap, ◌⊎◌, inl, inr, Bool, true, false, List, [], Option, none, some, arith, Bool-cases,
  ◌==◌, nat_eq, if◌then◌else◌, Elem,
}
use prax_sandbox.Text.{Text, text_eq}
use prax_sandbox.Exec.{or_no_text}
use prax_sandbox.ControlPlane.{
  Plane, World, Host, Build, build_done, build_too_long, Effect, write_dockerfile,
  restart_container, RebuildReply, rebuild_sandbox, write_step, build_step, after_build,
  after_effect, no_dockerfile,
}

after_effect-Elem :
    (e x : Effect) (r : List Effect × RebuildReply)
    → Elem x (after_effect e r).0
    → (e ≡ x) ⊎ Elem x r.0
after_effect-Elem e x (effects, r) h = h

if-Elem :
    (b : Bool) (x : Effect) (r : List Effect × RebuildReply) (refused : RebuildReply)
    → Elem x (if b then r else ([], refused)).0
    → Elem x r.0
if-Elem true x r refused h = h
if-Elem false x r refused h = absurd h

module _ (world : World) (cfg : Plane) (host : Host) (container : Text) where
  abbrev IsRestarted : List Effect × RebuildReply → Type 0
  IsRestarted r = Elem (restart_container container) r.0

  abbrev IsGood : Build → Type 0
  IsGood b = (stderr : Text) × (now : ℕ) × (b ≡ build_done 0 stderr now)

  after_build-restart : (b : Build) → IsRestarted (after_build world cfg host b) → IsGood b
  after_build-restart build_too_long h = absurd h
  after_build-restart (build_done code stderr now) h = elim (Bool-cases (code == 0)) [
    | inl e ↦
        let same : code ≡ 0 = ground arith in (stderr, now, ap (λ c. build_done c stderr now) same)
    | inr e ↦ absurd (rw e at h)
  ]

  build_step-restart :
      (written : Option Text)
      → IsRestarted (build_step world cfg host written)
      → IsGood (host.build written)
  build_step-restart written h = elim h [
    | inl e ↦ cc
    | inr h' ↦ after_build-restart (host.build written) h'
  ]

  write_step-restart :
      (content : Option Text)
      → IsRestarted (write_step world cfg host content)
      → IsGood (host.build content)
  write_step-restart none h = build_step-restart none h
  write_step-restart (some content) h =
      let step = build_step world cfg host (some content) in
      let h' =
        if-Elem host.has_dockerfile (restart_container container)
          (after_effect (write_dockerfile content) step) no_dockerfile h in
      elim (after_effect-Elem (write_dockerfile content) (restart_container container) step h') [
        | inl e ↦ cc
        | inr h'' ↦ build_step-restart (some content) h''
      ]

  -- The container is restarted only in Docker mode and after a build of this Dockerfile that
  -- returned 0: what runs is left alone where the build failed or took too long.
  pub rebuild_sandbox-restart :
      (content : Option Text)
      → IsRestarted (rebuild_sandbox world cfg host content)
      → (cfg.persistent ≡ true) × IsGood (host.build (or_no_text content))
  unfolding rebuild_sandbox
  rebuild_sandbox-restart content h = elim (Bool-cases cfg.persistent) [
    | inr e ↦ absurd (rw (e, rebuild_sandbox) at h)
    | inl e ↦ elim (Bool-cases host.has_docker) [
      | inr e' ↦ absurd (rw (e, e', rebuild_sandbox) at h)
      | inl e' ↦ (e, write_step-restart (or_no_text content) (rw (e, e', rebuild_sandbox) at h))
    ]
  ]
