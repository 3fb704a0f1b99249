-- ===== src/EgressGate/Gate/Run/Sound.antt =====
-- Every event keeps questions, index, futures and waiting requests in agreement.
use mathlib.Core.Path.{subst}
use prax_sandbox.Base.{
  ℕ, ◌<◌, ◌≡◌, refl, sym, leb, Bool, true, false, List, [], ◌∷◌, Option, none, some, arith, nat_eq,
  All, Map, Option-cases, Bool-cases, inl, inr,
}
use prax_sandbox.Text.{Text, text_eq}
use prax_sandbox.EgressGate.Policy.{Action}
use prax_sandbox.EgressGate.Gate.{
  Gate, GateConfig, Pending, Waiter, Why, Outcome, returned, waits, find, find_some, ask_person,
  decide, time_out, answer, settle, is_stale, set_taint, dest_key, Decision,
}
use prax_sandbox.EgressGate.Gate.Deciding.{decide_cases}
use prax_sandbox.EgressGate.Gate.Run.{
  System, Event, start, waiter_at, without, after_request, wake_up, run_out, step, run, pass,
  request, wake, give_up, answer_question, taint,
}
use prax_sandbox.EgressGate.Gate.Run.Questions.{
  Agrees, IsAttended, IsSound, closed, Agrees-closed, IsAttended-closed, opened, find_new,
  Agrees-opened, IsAttended-opened, find-append,
}
use prax_sandbox.EgressGate.Gate.Run.Waiting.{All-map, All-snoc, All-without, All-waiter_at}

abbrev IsSoundAfter : List Waiter → Gate × Outcome → Type 0
IsSoundAfter ws (g, returned action why) = Agrees g × All (IsAttended g) ws
IsSoundAfter ws (g, waits w) = Agrees g × All (IsAttended g) ws × IsAttended g w

after_request-IsSound :
    (s : System) (r : Gate × Outcome) → IsSoundAfter s.waiters r → IsSound (after_request s r).0
unfolding after_request
after_request-IsSound s (g, returned action why) (a, h) = record { agrees = a; attended = h }
after_request-IsSound s (g, waits w) (a, h, new) = record {
  agrees = a;
  attended = All-snoc (IsAttended g) s.waiters w h new;
}

module _ (cfg : GateConfig) (g : Gate) (a : Agrees g) (ws : List Waiter)
    (h : All (IsAttended g) ws) where
  join_question :
      (p : Pending) (dest : Text) (tainted : Bool) (deadline : ℕ)
      → find_some (g.by_dest dest) g.pending ≡ some p
      → IsAttended g (record { question = p; dest = dest; tainted = tainted; deadline = deadline })
  join_question p dest tainted deadline e = elim (Option-cases (g.by_dest dest)) [
    | inl none_there ↦ ground arith
    | inr (i, at) ↦
        let found : find i g.pending ≡ some p = ground arith in
        let (q, seen, key) = a.indexed dest i at in
        let (id, known, _, _) = a.listed i p found in
        record {
          known = omega arith;
          same_key = cc (key, seen, found);
          visible = λ _. ground arith;
        }
  ]

  unasked : (dest : Text) → find_some (g.by_dest dest) g.pending ≡ none → g.by_dest dest ≡ none
  unasked dest e = elim (Option-cases (g.by_dest dest)) [
    | inl none_there ↦ none_there
    | inr (i, at) ↦ let (q, seen, key) = a.indexed dest i at in ground arith
  ]

  opened-IsSoundAfter :
      (p : Pending) (tainted : Bool) (deadline : ℕ)
      → p.id ≡ g.next_id
      → g.by_dest p.key ≡ none
      → IsSoundAfter ws (
        opened g p,
        waits (record { question = p; dest = p.key; tainted = tainted; deadline = deadline }),
      )
  opened-IsSoundAfter p tainted deadline new none_there = (
    Agrees-opened g p a new none_there,
    All-map (IsAttended g) (IsAttended (opened g p)) (IsAttended-opened g p a new none_there) ws h,
    record {
      known = omega arith;
      same_key = refl;
      visible = λ _. ground (arith, find-append p.id g.pending p, find_new g p a new none_there);
    },
  )

  ask_person-IsSoundAfter :
      (now : ℕ) (dest host : Text) (port : ℕ) (method path : Option Text) (t : Bool)
      → IsSoundAfter ws (ask_person cfg g now dest host port method path t)
  unfolding ask_person
  ask_person-IsSoundAfter now dest host port method path t =
      elim (Option-cases (find_some (g.by_dest dest) g.pending)) [
        | inl new ↦ rw (new, ask_person) (opened-IsSoundAfter _ t _ refl (unasked dest new))
        | inr (p, there) ↦ rw (there, ask_person) (a, h, join_question p dest t _ there)
      ]

  decide-IsSoundAfter :
      (now : ℕ) (host : Text) (port : ℕ) (method path : Option Text)
      → IsSoundAfter ws (decide cfg g now host port method path)
  decide-IsSoundAfter now host port method path =
      decide_cases cfg g now host port method path (IsSoundAfter ws) (λ action why. (a, h))
        (λ t. ask_person-IsSoundAfter now (dest_key host port method path) host port method path t)

module _ (cfg : GateConfig) (s : System) (sound : IsSound s) where
  -- Only these four fields matter.
  unaffected :
      (g : Gate)
      → g.pending ≡ s.pending
      → g.by_dest ≡ s.by_dest
      → g.next_id ≡ s.next_id
      → g.futures ≡ s.futures
      → IsSound (record s { gate = g })
  unaffected g p b n f = record {
    agrees = record {
      listed = λ i q. rw (p, b, n, f) (sound.agrees.listed i q);
      indexed = λ d i. rw (p, b) (sound.agrees.indexed d i);
      fresh = λ i. rw (n, f) (sound.agrees.fresh i);
    };
    attended =
        All-map (IsAttended s.gate) (IsAttended g)
          (λ w h. record {
            known = rw n h.known;
            same_key = h.same_key;
            visible = rw (p, f) h.visible;
          })
          s.waiters sound.attended;
  }

  close_question :
      (p : Pending) (r : Action × Why) (ds : Map Text Decision)
      → p.id < s.next_id
      → (s.futures p.id ≡ none → find p.id s.pending ≡ some p)
      → (ws : List Waiter) → All (IsAttended s.gate) ws
      → IsSound (record s { gate = closed s.gate p r ds; waiters = ws })
  close_question p r ds old seen ws h = record {
    agrees = Agrees-closed s.gate p r ds sound.agrees old seen;
    attended =
        All-map (IsAttended s.gate) (IsAttended (closed s.gate p r ds))
          (IsAttended-closed s.gate p r ds sound.agrees old seen) ws h;
  }

  wake_up-IsSound : (n : ℕ) (o : Option Waiter) → IsSound (wake_up s n o).0
  unfolding wake_up
  wake_up-IsSound n none = sound
  wake_up-IsSound n (some w) = elim (Option-cases (s.futures w.question.id)) [
    | inl e ↦ rw (e, wake_up) sound
    | inr (r, e) ↦
        rw (e, wake_up)
          (record { agrees = sound.agrees; attended = All-without _ n s.waiters sound.attended })
  ]

  time_out-IsSound :
      (w : Waiter) (ws : List Waiter)
      → IsAttended s.gate w
      → All (IsAttended s.gate) ws
      → IsSound (record s { gate = time_out cfg s.gate s.clock w; waiters = ws })
  unfolding time_out
  time_out-IsSound w ws at h =
      simp at.same_key (close_question w.question _ _ at.known at.visible ws h)

  run_out-IsSound :
      (n : ℕ) (o : Option Waiter) → waiter_at n s.waiters ≡ o → IsSound (run_out cfg s n o).0
  unfolding run_out
  run_out-IsSound n none e = sound
  run_out-IsSound n (some w) e = elim (Bool-cases (leb w.deadline s.clock)) [
    | inl late ↦ rw late (
        time_out-IsSound w (without n s.waiters) (All-waiter_at _ n s.waiters w sound.attended e)
          (All-without _ n s.waiters sound.attended))
    | inr early ↦ rw early sound
  ]

  settle-IsSound :
      (p : Pending) (granted : Bool) (ttl : Option ℕ) (by : Text)
      → find p.id s.pending ≡ some p
      → IsSound (record s { gate = settle cfg s.gate s.clock p granted ttl by })
  unfolding settle
  settle-IsSound p granted ttl by e =
      let (_, old, _, _) = sound.agrees.listed p.id p e in
      let close = λ (r : Action × Why) (ds : Map Text Decision).
        close_question p r ds old (λ _. e) s.waiters sound.attended in
      elim (Bool-cases (is_stale cfg s.gate s.clock p granted)) [
        | inl stale ↦ rw stale (close _ _)
        | inr fresh ↦ rw fresh (close _ _)
      ]

  answer-IsSound :
      (id : ℕ) (granted : Bool) (ttl : Option ℕ) (by : Text)
      → IsSound (record s { gate = (answer cfg s.gate s.clock id granted ttl by).0 })
  unfolding answer
  answer-IsSound id granted ttl by = elim (Option-cases (find id s.pending)) [
    | inl e ↦ rw (e, answer) sound
    | inr (p, e) ↦
        let (same, _, _, _) = sound.agrees.listed id p e in
        rw (e, answer)
          (settle-IsSound p granted ttl by (subst (λ i. find i s.pending ≡ some p) (sym same) e))
  ]

  taint-IsSound :
      (on : Bool) (reason : Text) (ttl : Option ℕ) (raise_only : Bool)
      → IsSound (record s { gate = set_taint cfg s.gate s.clock on reason ttl raise_only })
  unfolding set_taint
  taint-IsSound true reason ttl raise_only = unaffected _ refl refl refl refl
  taint-IsSound false reason ttl raise_only = unaffected _ refl refl refl refl

step-IsSound : (cfg : GateConfig) (s : System) (e : Event) → IsSound s → IsSound (step cfg s e).0
unfolding step
step-IsSound cfg s (pass d) h = record { agrees = h.agrees; attended = h.attended }
step-IsSound cfg s (request host port method path) h =
    after_request-IsSound s (decide cfg s.gate s.clock host port method path)
      (decide-IsSoundAfter cfg s.gate h.agrees s.waiters h.attended s.clock host port method path)
step-IsSound cfg s (wake n) h = wake_up-IsSound cfg s h n (waiter_at n s.waiters)
step-IsSound cfg s (give_up n) h = run_out-IsSound cfg s h n (waiter_at n s.waiters) refl
step-IsSound cfg s (answer_question id granted ttl by) h = answer-IsSound cfg s h id granted ttl by
step-IsSound cfg s (taint on reason ttl raise_only) h =
    taint-IsSound cfg s h on reason ttl raise_only

start-IsSound : IsSound start
unfolding find
start-IsSound = record {
  agrees = record { listed = λ i p h. cc; indexed = λ d i h. cc; fresh = λ i h. refl };
  attended = tt;
}

-- After any events, each listed question is indexed by its destination alone, unanswered, and has an
-- id that was given out; each index entry leads to a listed question for its destination; and each
-- waiting request has an answer to collect, or its question is listed, so that it can be answered.
pub run-IsSound : (cfg : GateConfig) (es : List Event) → IsSound (run cfg es)
unfolding run
run-IsSound cfg [] = start-IsSound
run-IsSound cfg (e ∷ es) = step-IsSound cfg (run cfg es) e (run-IsSound cfg es)
