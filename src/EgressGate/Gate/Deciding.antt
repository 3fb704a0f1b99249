-- ===== src/EgressGate/Gate/Deciding.antt =====
-- The ways that `Gate.decide` of prax_sandbox/egress_gate/gate.py can take: what holds of a gate that
-- returns an answer and of one that asks a person holds of the decision.
use prax_sandbox.Base.{ℕ, Bool, Option, none, some}
use prax_sandbox.Text.{Text}
use prax_sandbox.EgressGate.Policy.{Action, allow, deny, ask, Reason}
use prax_sandbox.EgressGate.Gate.{
  Gate, GateConfig, Why, Outcome, returned, dest_key, after_recall, after_policy, decide,
  ask_person, is_tainted,
}

module _ (cfg : GateConfig) (g : Gate) (now : ℕ) (host : Text) (port : ℕ)
    (method path : Option Text) (Q : Gate × Outcome → Type 0)
    (returns : (action : Action) (why : Why) → Q (g, returned action why))
    (asks : (t : Bool)
      → Q (ask_person cfg g now (dest_key host port method path) host port method path t)) where
  after_recall_cases :
      (t : Bool) (o : Option (Action × Why)) → Q (after_recall cfg g now host port method path t o)
  unfolding after_recall
  after_recall_cases t (some (action, why)) = returns action why
  after_recall_cases t none = asks t

  after_policy_cases :
      (t : Bool) (action : Action) (reason : Reason)
      → Q (after_policy cfg g now host port method path t action reason)
  unfolding after_policy
  after_policy_cases t allow reason = returns allow _
  after_policy_cases t deny reason = returns deny _
  after_policy_cases t ask reason = after_recall_cases t _

  pub decide_cases : Q (decide cfg g now host port method path)
  unfolding decide
  decide_cases = after_policy_cases (is_tainted g now) _ _
