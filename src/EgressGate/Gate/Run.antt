-- ===== src/EgressGate/Gate/Run.antt =====
-- The gate over time (`Gate.decide`, `_ask`, `answer` and `set_taint` in
-- prax_sandbox/egress_gate/gate.py, as the event loop interleaves them). An event is one stretch of
-- code between two `await`s: a request that arrives, a waiting request that goes on because its
-- question was answered or because its time is over, a call of the admin API, time that passes.
-- A request may time out after its question was answered, where both happen before it runs again.
mod Waiting
pub mod Questions
pub mod Sound
pub mod Sharing
pub mod Answers
pub mod Approval
pub mod Licence
pub mod Allowed
pub mod Taint
use prax_sandbox.Base.{
  ℕ, zero, suc, ◌+◌, Bool, true, false, List, [], ◌∷◌, ◌++◌, Option, none, some, leb, if◌then◌else◌,
  update,
}
use prax_sandbox.Text.{Text}
use prax_sandbox.EgressGate.Policy.{Action, deny}
use prax_sandbox.EgressGate.Gate.{
  Gate, GateConfig, Waiter, Why, Outcome, returned, waits, asked_no_answer, new_gate, set_taint,
  decide, time_out, answer,
}

pub record System : Type 0 where
  pub gate : Gate
  pub open gate use *
  pub waiters : List Waiter
  pub clock : ℕ

pub data Event : Type 0 where
  pass : ℕ → Event
  request : Text → ℕ → Option Text → Option Text → Event
  -- The waiting request at this place of the list goes on.
  wake give_up : ℕ → Event
  answer_question : ℕ → Bool → Option ℕ → Text → Event
  taint : Bool → Text → Option ℕ → Bool → Event

-- What an event gives back to its caller.
pub data Reply : Type 0 where
  nothing : Reply
  decided : Action → Why → Reply
  answered : Bool → Reply

abbrev pub start : System
start = record { gate = new_gate; waiters = []; clock = 0 }

unfoldable pub waiter_at : ℕ → List Waiter → Option Waiter
waiter_at n [] = none
waiter_at zero (w ∷ ws) = some w
waiter_at (suc n) (w ∷ ws) = waiter_at n ws

unfoldable pub without : ℕ → List Waiter → List Waiter
without n [] = []
without zero (w ∷ ws) = ws
without (suc n) (w ∷ ws) = w ∷ without n ws

unfoldable pub after_request : System → Gate × Outcome → System × Reply
after_request s (g, returned action why) = (record s { gate = g }, decided action why)
after_request s (g, waits w) = (record s { gate = g; waiters = s.waiters ++ (w ∷ []) }, nothing)

unfoldable pub wake_up : System → ℕ → Option Waiter → System × Reply
wake_up s n none = (s, nothing)
wake_up s n (some w) = elim (s.futures w.question.id) [
  | none ↦ (s, nothing)
  | some (action, why) ↦ (record s { waiters = without n s.waiters }, decided action why)
]

module _ (cfg : GateConfig) where
  unfoldable pub run_out : System → ℕ → Option Waiter → System × Reply
  run_out s n none = (s, nothing)
  run_out s n (some w) =
      if leb w.deadline s.clock
      then (
        record s { gate = time_out cfg s.gate s.clock w; waiters = without n s.waiters },
        decided deny asked_no_answer,
      )
      else (s, nothing)

  unfoldable pub step : System → Event → System × Reply
  step s (pass d) = (record s { clock = s.clock + d }, nothing)
  step s (request host port method path) =
      after_request s (decide cfg s.gate s.clock host port method path)
  step s (wake n) = wake_up s n (waiter_at n s.waiters)
  step s (give_up n) = run_out s n (waiter_at n s.waiters)
  step s (answer_question id granted ttl by) =
      let (g, found) = answer cfg s.gate s.clock id granted ttl by in
      (record s { gate = g }, answered found)
  step s (taint on reason ttl raise_only) =
      (record s { gate = set_taint cfg s.gate s.clock on reason ttl raise_only }, nothing)

  -- The events so far, the last one first.
  unfoldable pub run : List Event → System
  run [] = start
  run (e ∷ es) = (step (run es) e).0
