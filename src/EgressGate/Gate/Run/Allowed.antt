-- ===== src/EgressGate/Gate/Run/Allowed.antt =====
-- Which requests are allowed in the end (`Gate.decide` in prax_sandbox/egress_gate/gate.py).
use prax_sandbox.Base.{
  ℕ, ◌≡◌, refl, ◌⊎◌, inl, inr, Bool, true, false, List, Option, none, some, arith, Option-cases,
}
use prax_sandbox.Text.{Text}
use prax_sandbox.EgressGate.Policy.{Action, allow, deny, ask, Reason}
use prax_sandbox.EgressGate.Policy
use prax_sandbox.EgressGate.Gate.{
  Gate, GateConfig, Waiter, Why, Outcome, returned, waits, is_tainted, dest_key, recall,
  after_recall, after_policy, decide, ask_person,
}
use prax_sandbox.EgressGate.Gate.Run.{
  System, Event, decided, step, run, after_request, wake_up, run_out, waiter_at, request, wake,
  give_up,
}
use prax_sandbox.EgressGate.Gate.Run.Approval.{Granted, Remembers, recall_allow}
use prax_sandbox.EgressGate.Gate.Run.Licence.{run-IsApproved}
use prax_sandbox.EgressGate.Gate.Run.Waiting.{All-waiter_at}

module _ (cfg : GateConfig) (es : List Event) where
  abbrev Clean : Type 0
  Clean = is_tainted (run cfg es).gate (run cfg es).clock ≡ false

  -- Why a request that this event ends may be allowed: by the policy, or by a person's answer
  -- among the events before it.
  abbrev pub Licensed : Event → Type 0
  Licensed (request host port method path) =
      let verdict =
        Policy.decide cfg.policy host port method
          (is_tainted (run cfg es).gate (run cfg es).clock) in
      (verdict.action ≡ allow)
      ⊎ ((verdict.action ≡ ask)
          × ((b : Bool) × Granted cfg es (dest_key host port method path) b × (Clean ⊎ (b ≡ true))))
  Licensed (wake n) =
      (w : Waiter) × (waiter_at n (run cfg es).waiters ≡ some w)
      × Granted cfg es w.dest w.question.tainted
  Licensed _ = ⊥

module _ (cfg : GateConfig) (P : Text → Bool → Type 0) (g : Gate) (m : Remembers P g) (now : ℕ)
    (host : Text) (port : ℕ) (method path : Option Text) where
  ask_person-waits :
      (t : Bool) (dest : Text) (why : Why)
      → (ask_person cfg g now dest host port method path t).1 ≡ returned allow why
      → ⊥
  unfolding ask_person
  ask_person-waits t dest why e = ground arith

  after_policy-allow :
      (t : Bool) (action : Action) (reason : Reason) (why : Why)
      → (after_policy cfg g now host port method path t action reason).1 ≡ returned allow why
      → (action ≡ allow)
        ⊎ ((action ≡ ask)
            × ((b : Bool) × P (dest_key host port method path) b × ((t ≡ false) ⊎ (b ≡ true))))
  unfolding after_policy after_recall
  after_policy-allow t allow reason why e = inl refl
  after_policy-allow t deny reason why e = ground arith
  after_policy-allow t ask reason why e =
      let d = dest_key host port method path in
      elim (Option-cases (recall cfg (g.decisions d) now t)) [
        | inl new ↦ absurd (ask_person-waits t d why (rw (new, after_recall) at e))
        | inr ((a, w), known) ↦
            let same : a ≡ allow = ground arith in
            inr (refl, recall_allow cfg P g m d now t w (ground arith))
      ]

reply-after_request :
    (s : System) (r : Gate × Outcome) (why : Why)
    → (after_request s r).1 ≡ decided allow why
    → r.1 ≡ returned allow why
unfolding after_request
reply-after_request s (g, returned action why') why e = ground arith
reply-after_request s (g, waits w) why e = ground arith

wake_up-allow :
    (s : System) (n : ℕ) (o : Option Waiter) (why : Why)
    → (wake_up s n o).1 ≡ decided allow why
    → (w : Waiter) × (o ≡ some w) × (why' : Why) × (s.futures w.question.id ≡ some (allow, why'))
unfolding wake_up
wake_up-allow s n none why e = cc
wake_up-allow s n (some w) why e = elim (Option-cases (s.futures w.question.id)) [
  | inl unset ↦ ground arith
  | inr ((a, w'), set) ↦ (w, refl, w', ground arith)
]

run_out-denies :
    (cfg : GateConfig) (s : System) (n : ℕ) (o : Option Waiter) (why : Why)
    → (run_out cfg s n o).1 ≡ decided allow why
    → ⊥
unfolding run_out
run_out-denies cfg s n none why e = cc
run_out-denies cfg s n (some w) why e = ground arith

-- After any events, if an event lets a request through, then that event is the request itself, and
-- the policy allows it as it stands, or asks about it and a person allowed its destination before,
-- in answer to a question that was put while the sandbox was tainted if it is tainted now; or the
-- event wakes a request that waits, and a person allowed its destination before, in answer to a
-- question that was put while the sandbox was as tainted or as clean as at the question that the
-- request waits on. What the taint became while the request waited is not looked at.
pub allow-Licensed :
    (cfg : GateConfig) (es : List Event) (e : Event) (why : Why)
    → (step cfg (run cfg es) e).1 ≡ decided allow why
    → Licensed cfg es e
unfolding step decide
allow-Licensed cfg es (request host port method path) why h =
    let s = run cfg es in
    after_policy-allow cfg (Granted cfg es) s.gate (run-IsApproved cfg es).remembers s.clock host
      port method path _ _ _ why (reply-after_request s _ why h)
allow-Licensed cfg es (wake n) why h =
    let (w, at, w', won) = wake_up-allow (run cfg es) n _ why h in
    let collects = All-waiter_at _ n (run cfg es).waiters w (run-IsApproved cfg es).collects at in
    (w, at, collects w' won)
allow-Licensed cfg es (give_up n) why h = absurd (run_out-denies cfg (run cfg es) n _ why h)
allow-Licensed cfg es e why h = cc
