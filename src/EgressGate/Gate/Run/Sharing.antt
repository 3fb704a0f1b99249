-- ===== src/EgressGate/Gate/Run/Sharing.antt =====
-- Requests for one destination share one question, and what ends it ends it for all of them
-- (`Gate._ask`, `_forget` and `answer` in prax_sandbox/egress_gate/gate.py).
use prax_sandbox.Base.{
  ℕ, ◌+◌, ◌-◌, ◌≤◌, ◌≡◌, ◌≢◌, ◌⊎◌, inl, inr, refl, sym, ap, ◌∙◌, Bool, true, List, [], ◌∷◌, ◌++◌,
  Option, none, some, arith, leb, Map, Option-cases, nat_eq,
}
use prax_sandbox.Text.{Text, text_eq}
use prax_sandbox.EgressGate.Policy.{Action, allow, deny, ask, Reason}
use prax_sandbox.EgressGate.Policy
use prax_sandbox.EgressGate.Gate.{
  Gate, GateConfig, Pending, Waiter, Why, by_policy, no_answer, asked_no_answer, find, find_some,
  dest_key, Outcome, returned, waits, is_tainted, recall, after_recall, after_policy, decide,
  await_answer, ask_person, resolve, forget, time_out,
}
use prax_sandbox.EgressGate.Gate.Run.{
  System, Event, Reply, nothing, decided, waiter_at, without, after_request, wake_up, run_out, step,
  run, request, wake, give_up,
}
use prax_sandbox.EgressGate.Gate.Run.Questions.{Agrees, find-remove}
use prax_sandbox.EgressGate.Gate.Run.Sound.{run-IsSound}

pub gate-after_request : (s : System) (r : Gate × Outcome) → (after_request s r).0.gate ≡ r.0
unfolding after_request
gate-after_request s (g, returned action why) = refl
gate-after_request s (g, waits w) = refl

-- What becomes of a request, whose policy gives this action, while the question `p` for its
-- destination is listed: the policy decides it, or a remembered answer does, or it waits on that
-- question, until as long after the question was put as a question may take.
abbrev pub IsServed :
    GateConfig → System → Text → Pending → Action → Reason → System × Reply → Type 0
IsServed cfg s dest p action reason (s', reply) =
    let t = is_tainted s.gate s.clock in
    (s'.gate ≡ s.gate)
    × (((action ≢ ask) × (reply ≡ decided action (by_policy reason)) × (s'.waiters ≡ s.waiters))
        ⊎ (((action ≡ ask)
              × ((answer' : Action) × (why : Why) × (recall cfg (s.decisions dest) s.clock t
                    ≡ some (answer', why))
                  × (reply ≡ decided answer' why)
                  × (s'.waiters ≡ s.waiters)))
            ⊎ ((action ≡ ask)
                × (recall cfg (s.decisions dest) s.clock t ≡ none)
                × (reply ≡ nothing)
                × (s'.waiters
                    ≡ s.waiters
                      ++ (record {
                        question = p;
                        dest = dest;
                        tainted = t;
                        deadline = s.clock + (cfg.ask_timeout - (s.clock - p.created));
                      }
                          ∷ [])))))

module _ (cfg : GateConfig) (s : System) (a : Agrees s.gate) (host : Text) (port : ℕ)
    (method path : Option Text) (p : Pending) (listed : find p.id s.pending ≡ some p)
    (same : dest_key host port method path ≡ p.key) where
  abbrev here : Text
  here = dest_key host port method path

  abbrev taint_now : Bool
  taint_now = is_tainted s.gate s.clock

  ask_person-waits : ask_person cfg s.gate s.clock here host port method path taint_now ≡ (
    s.gate,
    waits (record {
      question = p;
      dest = here;
      tainted = taint_now;
      deadline = s.clock + (cfg.ask_timeout - (s.clock - p.created));
    }),
  )
  unfolding ask_person await_answer
  ask_person-waits =
      let (_, _, at, _) = a.listed p.id p listed in
      let there : find_some (s.by_dest here) s.pending ≡ some p = rw same (rw at listed) in
      rw (there, ask_person) refl

  after_policy-IsServed :
      (action : Action) (reason : Reason)
      → IsServed cfg s here p action reason (
          after_request s
            (after_policy cfg s.gate s.clock host port method path taint_now action reason))
  unfolding after_policy after_recall after_request
  after_policy-IsServed allow reason = (refl, inl ((λ e. cc), refl, refl))
  after_policy-IsServed deny reason = (refl, inl ((λ e. cc), refl, refl))
  after_policy-IsServed ask reason =
      elim (Option-cases (recall cfg (s.decisions here) s.clock taint_now)) [
        | inl new ↦
            rw (new, after_recall, ask_person-waits) (refl, inr (inr (refl, refl, refl, refl)))
        | inr ((answer', why), known) ↦
            rw (known, after_recall) (refl, inr (inl (refl, (answer', why, refl, refl, refl))))
      ]

-- After any events, a request whose destination has a listed question leaves the gate as it is. If the
-- policy does not ask, the policy decides it; if it asks, a remembered answer that serves decides
-- it; and if there is none, it joins the requests that wait, on that very question and no other,
-- with what is left of that question's time.
pub request-shared :
    (cfg : GateConfig) (es : List Event) (host : Text) (port : ℕ) (method path : Option Text)
    (p : Pending)
    → find p.id (run cfg es).pending ≡ some p
    → dest_key host port method path ≡ p.key
    → IsServed cfg
        (run cfg es)
        (dest_key host port method path)
        p
        (Policy.decide cfg.policy host port method
          (is_tainted (run cfg es).gate (run cfg es).clock)).action
        (Policy.decide cfg.policy host port method
          (is_tainted (run cfg es).gate (run cfg es).clock)).reason
        (step cfg (run cfg es) (request host port method path))
unfolding step decide
request-shared cfg es host port method path p listed same =
    after_policy-IsServed cfg (run cfg es) (run-IsSound cfg es).agrees host port method path p
      listed same _ _

-- How a question's future is read once nobody answers any more: as it was set, or as a denial.
abbrev pub or_no_answer : Option (Action × Why) → Action × Why
or_no_answer none = (deny, asked_no_answer)
or_no_answer (some r) = r

resolve-or_no_answer :
    (futures : Map ℕ (Action × Why)) (i : ℕ)
    → resolve futures i (deny, asked_no_answer) i ≡ some (or_no_answer (futures i))
resolve-or_no_answer futures i = elim (Option-cases (futures i)) [
  | inl unset ↦ rw unset (ground arith)
  | inr (r, set) ↦ rw (set, resolve) set
]

wake_up-set :
    (s : System) (n : ℕ) (w : Waiter) (r : Action × Why)
    → s.futures w.question.id ≡ some r
    → (wake_up s n (some w)).1 ≡ decided r.0 r.1
unfolding wake_up
wake_up-set s n w (action, why) h = rw (h, wake_up) refl

-- When a request gives up because it has waited until its deadline: it is denied, its question is no
-- longer listed, and its destination is denied for the denial's time; and every other request that
-- waits on that question, when it wakes next, gets what the question was answered with before that,
-- or is denied if it was not answered.
pub give_up-resolves :
    (cfg : GateConfig) (s : System) (n : ℕ) (w : Waiter) (m : ℕ) (other : Waiter)
    → waiter_at n s.waiters ≡ some w
    → w.deadline ≤ s.clock
    → waiter_at m (step cfg s (give_up n)).0.waiters ≡ some other
    → other.question.id ≡ w.question.id
    → ((step cfg s (give_up n)).1 ≡ decided deny asked_no_answer)
      × (find w.question.id (step cfg s (give_up n)).0.pending ≡ none)
      × ((step cfg s (give_up n)).0.decisions w.dest
          ≡ some record {
            action = deny;
            expires = s.clock + cfg.deny_ttl;
            why = no_answer;
            granted_tainted = w.tainted;
          })
      × ((step cfg (step cfg s (give_up n)).0 (wake m)).1
          ≡ decided
              (or_no_answer (s.futures w.question.id)).0
              (or_no_answer (s.futures w.question.id)).1)
unfolding step run_out time_out forget
give_up-resolves cfg s n w m other at late there same =
    let over : System = record s {
      gate = time_out cfg s.gate s.clock w;
      waiters = without n s.waiters;
    } in
    let test : leb w.deadline s.clock ≡ true = ground arith in
    let done : step cfg s (give_up n) ≡ (over, decided deny asked_no_answer) =
      rw (at, step, run_out, test) refl in
    let r = or_no_answer (s.futures w.question.id) in
    let set : over.futures other.question.id ≡ some r =
      rw same (resolve-or_no_answer s.futures w.question.id) in
    let there' : waiter_at m over.waiters ≡ some other =
      ap (λ (x : System × Reply). waiter_at m x.0.waiters) (sym done) ∙ there in
    rw done (
      refl,
      ground (arith, find-remove w.question.id w.question.id s.pending),
      ground (arith, text_eq.equals_iff w.dest w.dest),
      rw (there', step) (wake_up-set over m other r set),
    )
