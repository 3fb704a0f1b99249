-- ===== src/EgressGate/Gate/Run/Licence.antt =====
-- Every request that is allowed was allowed by the policy or by a person: the induction over the
-- events of prax_sandbox/egress_gate/gate.py.
use mathlib.Core.Path.{subst}
use prax_sandbox.Base.{
  ℕ, ◌≡◌, refl, sym, ◌⊎◌, inl, inr, Bool, true, false, List, [], ◌∷◌, Option, none, some, arith,
  Option-cases, Bool-cases, All, leb, ap, Map, ◌==◌, nat_eq,
}
use prax_sandbox.Text.{Text, text_eq}
use prax_sandbox.EgressGate.Policy.{Action}
use prax_sandbox.EgressGate.Gate.{
  Gate, GateConfig, Pending, Waiter, Why, find, find_some, is_tainted, dest_key, settle, answer,
  forget, time_out, set_taint, decide, ask_person, Outcome, returned, waits,
}
use prax_sandbox.EgressGate.Gate.Deciding.{decide_cases}
use prax_sandbox.EgressGate.Gate.Run.{
  System, Event, step, run, after_request, wake_up, run_out, without, pass, request, wake, give_up,
  answer_question, taint,
}
use prax_sandbox.EgressGate.Gate.Run.Questions.{Agrees, IsAttended, IsSound}
use prax_sandbox.EgressGate.Gate.Run.Sound.{run-IsSound}
use prax_sandbox.EgressGate.Gate.Run.Approval.{
  Granted, Grants, Remembers, Collects, Remembers-time_out, Remembers-set_taint, Remembers-settle,
}
use prax_sandbox.EgressGate.Gate.Run.Waiting.{All-map, All-zip, All-snoc, All-without}

pub record IsApproved (P : Text → Bool → Type 0) (g : Gate) (ws : List Waiter) : Type 0 where
  pub remembers : Remembers P g
  pub collects : All (Collects P g) ws

-- What `decide` may do to the parts that matter here.
abbrev Asked : (Text → Bool → Type 0) → Gate → Gate × Outcome → Type 0
Asked P g (g', returned action why) = g' ≡ g
Asked P g (g', waits w) =
    (g'.decisions ≡ g.decisions) × (g'.futures ≡ g.futures) × (g.futures w.question.id ≡ none)

module _ (cfg : GateConfig) (P : Text → Bool → Type 0) (g : Gate) (a : Agrees g) where
  unresolved : (o : Option ℕ) (p : Pending) → find_some o g.pending ≡ some p → g.futures p.id ≡ none
  unresolved none p e = cc
  unresolved (some i) p e =
      let (same, _, _, unset) = a.listed i p e in subst (λ j. g.futures j ≡ none) (sym same) unset

  ask_person-Asked :
      (now : ℕ) (dest host : Text) (port : ℕ) (method path : Option Text) (t : Bool)
      → Asked P g (ask_person cfg g now dest host port method path t)
  unfolding ask_person
  ask_person-Asked now dest host port method path t =
      elim (Option-cases (find_some (g.by_dest dest) g.pending)) [
        | inl new ↦ rw (new, ask_person) (refl, refl, a.fresh g.next_id (omega arith))
        | inr (p, there) ↦ rw (there, ask_person) (refl, refl, unresolved (g.by_dest dest) p there)
      ]

  decide-Asked :
      (now : ℕ) (host : Text) (port : ℕ) (method path : Option Text)
      → Asked P g (decide cfg g now host port method path)
  decide-Asked now host port method path =
      decide_cases cfg g now host port method path (Asked P g) (λ action why. refl)
        (λ t. ask_person-Asked now (dest_key host port method path) host port method path t)

after_request-IsApproved :
    (P : Text → Bool → Type 0) (s : System) (r : Gate × Outcome)
    → IsApproved P s.gate s.waiters
    → Asked P s.gate r
    → IsApproved P (after_request s r).0.gate (after_request s r).0.waiters
unfolding after_request
after_request-IsApproved P s (g, returned action why) h e =
    subst (λ g'. IsApproved P g' s.waiters) (sym e) h
after_request-IsApproved P s (g, waits w) h (d, f, new) = record {
  remembers = λ k x. rw d (h.remembers k x);
  collects =
      All-snoc (Collects P g) s.waiters w
        (All-map (Collects P s.gate) (Collects P g) (λ v c why. rw f (c why)) s.waiters h.collects)
        (λ why e. cc (new, e, ap (λ (fs : Map ℕ (Action × Why)). fs w.question.id) f));
}

-- Weaker approval.
IsApproved-map :
    (P Q : Text → Bool → Type 0) (g : Gate) (ws : List Waiter)
    → ((d : Text) (b : Bool) → P d b → Q d b)
    → IsApproved P g ws
    → IsApproved Q g ws
IsApproved-map P Q g ws f h = record {
  remembers = λ d x e is. f d x.granted_tainted (h.remembers d x e is);
  collects =
      All-map (Collects P g) (Collects Q g) (λ w c why e. f w.dest w.question.tainted (c why e)) ws
        h.collects;
}

module _ (cfg : GateConfig) (P : Text → Bool → Type 0) (s : System) (sound : IsSound s)
    (h : IsApproved P s.gate s.waiters) where
  wake_up-IsApproved :
      (n : ℕ) (o : Option Waiter) → IsApproved P (wake_up s n o).0.gate (wake_up s n o).0.waiters
  unfolding wake_up
  wake_up-IsApproved n none = h
  wake_up-IsApproved n (some w) = elim (Option-cases (s.futures w.question.id)) [
    | inl e ↦ rw (e, wake_up) h
    | inr (r, e) ↦
        rw (e, wake_up)
          (record { remembers = h.remembers; collects = All-without _ n s.waiters h.collects })
  ]

  Collects-time_out :
      (w v : Waiter) → Collects P s.gate v → Collects P (time_out cfg s.gate s.clock w) v
  unfolding time_out forget
  Collects-time_out w v c why e = c why (ground arith)

  run_out-IsApproved :
      (n : ℕ) (o : Option Waiter)
      → IsApproved P (run_out cfg s n o).0.gate (run_out cfg s n o).0.waiters
  unfolding run_out
  run_out-IsApproved n none = h
  run_out-IsApproved n (some w) = elim (Bool-cases (leb w.deadline s.clock)) [
    | inl late ↦ rw late (record {
      remembers = Remembers-time_out cfg P s.gate h.remembers s.clock w;
      collects =
          All-map (Collects P s.gate) (Collects P (time_out cfg s.gate s.clock w))
            (Collects-time_out w) (without n s.waiters) (All-without _ n s.waiters h.collects);
    })
    | inr early ↦ rw early h
  ]

  futures-set_taint :
      (on : Bool) (reason : Text) (ttl : Option ℕ) (raise_only : Bool)
      → (set_taint cfg s.gate s.clock on reason ttl raise_only).futures ≡ s.futures
  unfolding set_taint
  futures-set_taint true reason ttl raise_only = refl
  futures-set_taint false reason ttl raise_only = refl

  taint-IsApproved :
      (on : Bool) (reason : Text) (ttl : Option ℕ) (raise_only : Bool)
      → IsApproved P (set_taint cfg s.gate s.clock on reason ttl raise_only) s.waiters
  taint-IsApproved on reason ttl raise_only = record {
    remembers = Remembers-set_taint cfg P s.gate h.remembers s.clock on reason ttl raise_only;
    collects =
        All-map (Collects P s.gate)
          (Collects P (set_taint cfg s.gate s.clock on reason ttl raise_only))
          (λ w c why e. c why (rw (futures-set_taint on reason ttl raise_only) at e)) s.waiters
          h.collects;
  }

  Collects-settle :
      (p : Pending) (granted : Bool) (ttl : Option ℕ) (by : Text)
      → find p.id s.pending ≡ some p
      → (granted ≡ true
          → (is_tainted s.gate s.clock ≡ false) ⊎ (p.tainted ≡ true)
          → P p.key p.tainted)
      → (w : Waiter) → IsAttended s.gate w
      → Collects P s.gate w
      → Collects P (settle cfg s.gate s.clock p granted ttl by) w
  unfolding settle forget
  Collects-settle p granted ttl by listed new w at c why e =
      let (_, _, _, unset) = sound.agrees.listed p.id p listed in
      elim (Bool-cases (p.id == w.question.id)) [
        | inr other ↦ c why (ground arith)
        | inl same ↦
            let id : p.id ≡ w.question.id = ground arith in
            let found : find p.id s.pending ≡ some w.question =
              subst (λ i. find i s.pending ≡ some w.question) (sym id)
                (at.visible (subst (λ i. s.futures i ≡ none) id unset)) in
            let one : p ≡ w.question = cc (found, listed) in
            let granted_now : P p.key p.tainted = new (ground arith) (ground arith) in
            subst (λ d. P d w.question.tainted) (sym at.same_key)
              (subst (λ q. P q.key q.tainted) one granted_now)
      ]

  answer-IsApproved :
      (id : ℕ) (granted : Bool) (ttl : Option ℕ) (by : Text)
      → ((p : Pending)
          → find id s.pending ≡ some p
          → granted ≡ true
          → (is_tainted s.gate s.clock ≡ false) ⊎ (p.tainted ≡ true)
          → P p.key p.tainted)
      → IsApproved P (answer cfg s.gate s.clock id granted ttl by).0 s.waiters
  unfolding answer
  answer-IsApproved id granted ttl by new = elim (Option-cases (find id s.pending)) [
    | inl e ↦ rw (e, answer) h
    | inr (p, e) ↦
        let (same, _, _, _) = sound.agrees.listed id p e in
        rw (e, answer)
          (record {
            remembers =
                Remembers-settle cfg P s.gate h.remembers s.clock p granted ttl by (new p e);
            collects =
                All-zip (IsAttended s.gate) (Collects P s.gate)
                  (Collects P (settle cfg s.gate s.clock p granted ttl by))
                  (Collects-settle p granted ttl by
                    (subst (λ i. find i s.pending ≡ some p) (sym same) e) (new p e))
                  s.waiters sound.attended h.collects;
          })
  ]

module _ (cfg : GateConfig) where
  abbrev pub InForce : List Event → Type 0
  InForce es = IsApproved (Granted cfg es) (run cfg es).gate (run cfg es).waiters

  grant :
      (es : List Event) (id : ℕ) (granted : Bool) (ttl : Option ℕ) (by : Text) (p : Pending)
      → find id (run cfg es).pending ≡ some p
      → granted ≡ true
      → (is_tainted (run cfg es).gate (run cfg es).clock ≡ false) ⊎ (p.tainted ≡ true)
      → Grants (run cfg es) (answer_question id granted ttl by) p.key p.tainted
  grant es id true ttl by p listed yes_given fits = (p, listed, refl, refl, fits)
  grant es id false ttl by p listed yes_given fits = cc

  later :
      (es : List Event) (e : Event)
      → InForce es
      → IsApproved (Granted cfg (e ∷ es)) (run cfg es).gate (run cfg es).waiters
  later es e = IsApproved-map (Granted cfg es) (Granted cfg (e ∷ es)) _ _ (λ d b old. inr old)

  step-IsApproved :
      (es : List Event) (e : Event)
      → InForce es
      → IsApproved
          (Granted cfg (e ∷ es))
          (step cfg (run cfg es) e).0.gate
          (step cfg (run cfg es) e).0.waiters
  unfolding step
  step-IsApproved es (pass d) h = later es (pass d) h
  step-IsApproved es (request host port method path) h =
      let s = run cfg es in
      after_request-IsApproved _ s (decide cfg s.gate s.clock host port method path)
        (later es (request host port method path) h)
        (decide-Asked cfg (Granted cfg es) s.gate (run-IsSound cfg es).agrees s.clock host port
          method path)
  step-IsApproved es (wake n) h =
      wake_up-IsApproved cfg _ (run cfg es) (run-IsSound cfg es) (later es (wake n) h) n _
  step-IsApproved es (give_up n) h =
      run_out-IsApproved cfg _ (run cfg es) (run-IsSound cfg es) (later es (give_up n) h) n _
  step-IsApproved es (answer_question id granted ttl by) h =
      answer-IsApproved cfg _ (run cfg es) (run-IsSound cfg es)
        (later es (answer_question id granted ttl by) h) id granted ttl by
        (λ p listed yes_given fits. inl (grant es id granted ttl by p listed yes_given fits))
  step-IsApproved es (taint on reason ttl raise_only) h =
      taint-IsApproved cfg _ (run cfg es) (run-IsSound cfg es)
        (later es (taint on reason ttl raise_only) h) on reason ttl raise_only

  pub run-IsApproved : (es : List Event) → InForce es
  unfolding run
  run-IsApproved [] = record { remembers = λ d x e is. cc; collects = tt }
  run-IsApproved (e ∷ es) = step-IsApproved es e (run-IsApproved es)
