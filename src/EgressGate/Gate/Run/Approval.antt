-- ===== src/EgressGate/Gate/Run/Approval.antt =====
-- Nothing that the policy leaves to a person is allowed without one (`Gate.decide` and `answer` in
-- prax_sandbox/egress_gate/gate.py).
use prax_sandbox.Base.{
  ℕ, ◌+◌, ◌≡◌, ◌⊎◌, inl, inr, Bool, true, false, List, [], ◌∷◌, Option, some, arith, Option-cases,
  Bool-cases, if◌then◌else◌,
}
use prax_sandbox.Text.{Text, text_eq, text_beq, text_beq_iff}
use prax_sandbox.EgressGate.Policy.{allow, deny}
use prax_sandbox.EgressGate.Gate.{
  Gate, GateConfig, Decision, Pending, Waiter, Why, by_person, find, is_tainted, is_stale, hold,
  settle, forget, time_out, set_taint, recall,
}
use prax_sandbox.EgressGate.Gate.Run.{System, Event, run, answer_question}

-- A person allows, by this event, the destination `d` in answer to a question that was put while
-- the sandbox was tainted as `b` says; tainted now, only a question put tainted can be allowed.
abbrev pub Grants : System → Event → Text → Bool → Type 0
Grants s (answer_question id true ttl by) d b =
    (p : Pending) × (find id s.pending ≡ some p)
    × (p.key ≡ d)
    × (p.tainted ≡ b)
    × ((is_tainted s.gate s.clock ≡ false) ⊎ (b ≡ true))
Grants s _ d b = ⊥

module _ (cfg : GateConfig) where
  abbrev pub Granted : List Event → Text → Bool → Type 0
  Granted [] d b = ⊥
  Granted (e ∷ es) d b = Grants (run cfg es) e d b ⊎ Granted es d b

-- What is remembered as allowed satisfies `P`, by destination and taint of the question.
abbrev pub Remembers : (Text → Bool → Type 0) → Gate → Type 0
Remembers P g =
    (d : Text) (x : Decision) → g.decisions d ≡ some x → x.action ≡ allow → P d x.granted_tainted

-- So does what a waiting request is about to be allowed.
abbrev pub Collects : (Text → Bool → Type 0) → Gate → Waiter → Type 0
Collects P g w =
    (why : Why) → g.futures w.question.id ≡ some (allow, why) → P w.dest w.question.tainted

module _ (cfg : GateConfig) (P : Text → Bool → Type 0) (g : Gate) (m : Remembers P g) where
  pub Remembers-time_out : (now : ℕ) (w : Waiter) → Remembers P (time_out cfg g now w)
  unfolding time_out
  Remembers-time_out now w d x e = ground (arith, m d x)

  pub Remembers-set_taint :
      (now : ℕ) (on : Bool) (reason : Text) (ttl : Option ℕ) (raise_only : Bool)
      → Remembers P (set_taint cfg g now on reason ttl raise_only)
  unfolding set_taint
  Remembers-set_taint now true reason ttl raise_only d x e = ground (arith, m d x)
  Remembers-set_taint now false reason ttl raise_only d x e = m d x e

  abbrev written_decision : ℕ → Pending → Bool → Option ℕ → Text → Decision
  written_decision now p granted ttl by = record {
    action = if granted then allow else deny;
    expires = now + hold cfg granted ttl;
    why = by_person granted by;
    granted_tainted = p.tainted;
  }

  pub Remembers-settle :
      (now : ℕ) (p : Pending) (granted : Bool) (ttl : Option ℕ) (by : Text)
      → (granted ≡ true → (is_tainted g now ≡ false) ⊎ (p.tainted ≡ true) → P p.key p.tainted)
      → Remembers P (settle cfg g now p granted ttl by)
  unfolding settle forget
  Remembers-settle now p granted ttl by new d x e is =
      elim (Bool-cases (is_stale cfg g now p granted)) [
        | inl old ↦ m d x (rw old at e) is
        | inr fresh ↦ elim (Bool-cases (text_beq p.key d)) [
          | inl same ↦
              let written : some (written_decision now p granted ttl by) ≡ some x =
                rw (fresh, same) at e in
              let yes_given : granted ≡ true = ground arith in
              let taint : x.granted_tainted ≡ p.tainted = ground arith in
              rw (← (text_beq_iff p.key d).0 same, taint) (new yes_given (ground arith))
          | inr other ↦ m d x (rw (fresh, other) at e) is
        ]
      ]

  pub recall_allow :
      (d : Text) (now : ℕ) (t : Bool) (why : Why)
      → recall cfg (g.decisions d) now t ≡ some (allow, why)
      → (b : Bool) × P d b × ((t ≡ false) ⊎ (b ≡ true))
  unfolding recall
  recall_allow d now t why e = elim (Option-cases (g.decisions d)) [
    | inl unknown ↦ ground arith
    | inr (x, at) ↦ (x.granted_tainted, m d x at (ground arith), ground arith)
  ]
