-- ===== src/EgressGate/Gate/Run/Taint.antt =====
-- Taint: an allow that a person gave clean does not outlive it, and a raise-only caller cannot
-- shorten it (`Gate.set_taint` in prax_sandbox/egress_gate/gate.py).
use prax_sandbox.Base.{
  ℕ, ◌≤◌, ◌≡◌, refl, inl, inr, Bool, true, false, List, [], ◌∷◌, Option, none, some, arith,
  Option-cases, Bool-cases, leb, All, ◌++◌, ap,
}
use prax_sandbox.Text.{Text}
use prax_sandbox.EgressGate.Policy.{allow}
use prax_sandbox.EgressGate.Gate.{
  Gate, GateConfig, Decision, Pending, Waiter, Outcome, returned, waits, find, find_some, dest_key,
  decide, ask_person, settle, answer, forget, time_out, set_taint,
}
use prax_sandbox.EgressGate.Gate.Deciding.{decide_cases}
use prax_sandbox.EgressGate.Gate.Run.{
  System, Event, step, run, after_request, wake_up, run_out, pass, request, wake, give_up,
  answer_question, taint,
}
use prax_sandbox.EgressGate.Gate.Run.Sharing.{gate-after_request}

-- No allow that was given to a question put clean is remembered while the sandbox is tainted.
abbrev pub IsPurged : Gate → ℕ → Type 0
IsPurged g now =
    (d : Text) (x : Decision)
    → g.decisions d ≡ some x
    → x.action ≡ allow
    → x.granted_tainted ≡ false
    → g.tainted_until ≤ now

-- Asking changes neither what is remembered nor the taint.
abbrev Untouched : Gate → Gate × Outcome → Type 0
Untouched g r = (r.0.decisions ≡ g.decisions) × (r.0.tainted_until ≡ g.tainted_until)

module _ (cfg : GateConfig) (g : Gate) (now : ℕ) where
  ask_person-Untouched :
      (dest host : Text) (port : ℕ) (method path : Option Text) (t : Bool)
      → Untouched g (ask_person cfg g now dest host port method path t)
  unfolding ask_person
  ask_person-Untouched dest host port method path t =
      elim (Option-cases (find_some (g.by_dest dest) g.pending)) [
        | inl new ↦ rw (new, ask_person) (refl, refl)
        | inr (p, there) ↦ rw (there, ask_person) (refl, refl)
      ]

  decide-Untouched :
      (host : Text) (port : ℕ) (method path : Option Text)
      → Untouched g (decide cfg g now host port method path)
  decide-Untouched host port method path =
      decide_cases cfg g now host port method path (Untouched g) (λ action why. (refl, refl))
        (ask_person-Untouched (dest_key host port method path) host port method path)

  module _ (h : IsPurged g now) where
    time_out-IsPurged : (w : Waiter) → IsPurged (time_out cfg g now w) now
    unfolding time_out forget
    time_out-IsPurged w d x e is clean = ground (arith, h d x)

    settle-IsPurged :
        (p : Pending) (granted : Bool) (ttl : Option ℕ) (by : Text)
        → IsPurged (settle cfg g now p granted ttl by) now
    unfolding settle forget
    settle-IsPurged p granted ttl by d x e is clean = ground (arith, h d x)

    answer-IsPurged :
        (id : ℕ) (granted : Bool) (ttl : Option ℕ) (by : Text)
        → IsPurged (answer cfg g now id granted ttl by).0 now
    unfolding answer
    answer-IsPurged id granted ttl by = elim (Option-cases (find id g.pending)) [
      | inl e ↦ rw (e, answer) h
      | inr (p, e) ↦ rw (e, answer) (settle-IsPurged p granted ttl by)
    ]

    set_taint-IsPurged :
        (on : Bool) (reason : Text) (ttl : Option ℕ) (raise_only : Bool)
        → IsPurged (set_taint cfg g now on reason ttl raise_only) now
    unfolding set_taint
    set_taint-IsPurged true reason ttl raise_only d x e is clean = ground (arith, h d x)
    set_taint-IsPurged false reason ttl raise_only d x e is clean = omega arith

abbrev Purged : System → Type 0
Purged s = IsPurged s.gate s.clock

after_request-Purged :
    (s : System) (r : Gate × Outcome) → Untouched s.gate r → Purged s → Purged (after_request s r).0
unfolding after_request
after_request-Purged s (g, returned action why) (d, t) h k x = rw (d, t) (h k x)
after_request-Purged s (g, waits w) (d, t) h k x = rw (d, t) (h k x)

wake_up-Purged : (s : System) (n : ℕ) (o : Option Waiter) → Purged s → Purged (wake_up s n o).0
unfolding wake_up
wake_up-Purged s n none h = h
wake_up-Purged s n (some w) h = elim (Option-cases (s.futures w.question.id)) [
  | inl e ↦ rw (e, wake_up) h
  | inr (r, e) ↦ rw (e, wake_up) h
]

module _ (cfg : GateConfig) where
  run_out-Purged :
      (s : System) (n : ℕ) (o : Option Waiter) → Purged s → Purged (run_out cfg s n o).0
  unfolding run_out
  run_out-Purged s n none h = h
  run_out-Purged s n (some w) h = elim (Bool-cases (leb w.deadline s.clock)) [
    | inl late ↦ rw late (time_out-IsPurged cfg s.gate s.clock h w)
    | inr early ↦ rw early h
  ]

  step-Purged : (s : System) (e : Event) → Purged s → Purged (step cfg s e).0
  unfolding step
  step-Purged s (pass d) h = λ k x e is clean. omega (arith, h k x e is clean)
  step-Purged s (request host port method path) h =
      after_request-Purged s _ (decide-Untouched cfg s.gate s.clock host port method path) h
  step-Purged s (wake n) h = wake_up-Purged s n _ h
  step-Purged s (give_up n) h = run_out-Purged s n _ h
  step-Purged s (answer_question id granted ttl by) h =
      answer-IsPurged cfg s.gate s.clock h id granted ttl by
  step-Purged s (taint on reason ttl raise_only) h =
      set_taint-IsPurged cfg s.gate s.clock h on reason ttl raise_only

  -- After any events, if an allow is remembered that answered a question put while the sandbox was
  -- clean, then the sandbox is not tainted now.
  pub run-IsPurged : (es : List Event) → IsPurged (run cfg es).gate (run cfg es).clock
  unfolding run
  run-IsPurged [] = λ d x e is clean. cc
  run-IsPurged (e ∷ es) = step-Purged (run cfg es) e (run-IsPurged es)

-- Every event but a call of `set_taint` that clears the taint or may shorten it.
abbrev pub IsRaising : Event → Type 0
IsRaising (taint on reason ttl raise_only) = (on ≡ true) × (raise_only ≡ true)
IsRaising _ = Unit

module _ (cfg : GateConfig) where
  tainted_until-step :
      (s : System) (e : Event) → IsRaising e → s.tainted_until ≤ (step cfg s e).0.tainted_until
  unfolding step after_request wake_up run_out time_out forget answer settle set_taint
  tainted_until-step s (pass d) h = omega arith
  tainted_until-step s (request host port method path) h =
      let r = decide cfg s.gate s.clock host port method path in
      let (_, same) = decide-Untouched cfg s.gate s.clock host port method path in
      let kept = ap (λ (g : Gate). g.tainted_until) (gate-after_request s r) in
      omega (arith, same, kept)
  tainted_until-step s (wake n) h = ground arith
  tainted_until-step s (give_up n) h = ground arith
  tainted_until-step s (answer_question id granted ttl by) h = ground arith
  tainted_until-step s (taint true reason ttl true) h = ground arith
  tainted_until-step s (taint on reason ttl raise_only) h = cc

  -- However the events go on, the taint that stands is never shortened, as long as none of them is a
  -- call of `set_taint` that clears it or is not raise-only.
  pub tainted_until-run :
      (new es : List Event)
      → All IsRaising new
      → (run cfg es).tainted_until ≤ (run cfg (new ++ es)).tainted_until
  unfolding run
  tainted_until-run [] es h = omega arith
  tainted_until-run (e ∷ new) es (h, hs) =
      omega (arith, tainted_until-run new es hs, tainted_until-step (run cfg (new ++ es)) e h)
