-- ===== src/EgressGate/Gate/Run/Answers.antt =====
-- What an answer does (`Gate.answer` in prax_sandbox/egress_gate/gate.py).
use mathlib.Core.Path.{subst}
use prax_sandbox.Base.{
  ℕ, ◌+◌, ◌≡◌, refl, sym, ◌⊎◌, Bool, true, false, List, Option, none, some, arith, Option-cases,
  Bool-cases, inl, inr, if◌then◌else◌, update,
}
use prax_sandbox.Text.{Text, text_eq}
use prax_sandbox.EgressGate.Policy.{allow, deny}
use prax_sandbox.EgressGate.Gate.{
  Gate, GateConfig, Pending, by_person, tainted_since_asked, find, is_tainted, is_stale, hold,
  settle, answer, forget,
}
use prax_sandbox.EgressGate.Gate.Run.{Event, run}
use prax_sandbox.EgressGate.Gate.Run.Questions.{Agrees, find-remove}
use prax_sandbox.EgressGate.Gate.Run.Sound.{run-IsSound}

-- The gate before, and the gate with the reply after.
pub data AnswerEffect (cfg : GateConfig) (g : Gate) (now id : ℕ) (granted : Bool) (ttl : Option ℕ)
    (by : Text) (g' : Gate) (found : Bool) : Type 0 where
  unknown :
      find id g.pending ≡ none
      → g' ≡ g
      → found ≡ false
      → AnswerEffect cfg g now id granted ttl by g' found
  -- Refused for this request, and nothing is remembered.
  stale :
      (p : Pending)
      → find id g.pending ≡ some p
      → granted ≡ true
      → is_tainted g now ≡ true
      → p.tainted ≡ false
      → g'.decisions ≡ g.decisions
      → g'.futures id ≡ some (deny, tainted_since_asked)
      → find id g'.pending ≡ none
      → found ≡ true
      → AnswerEffect cfg g now id granted ttl by g' found
  recorded :
      (p : Pending)
      → find id g.pending ≡ some p
      → (granted ≡ false) ⊎ (is_tainted g now ≡ false) ⊎ (p.tainted ≡ true)
      → g'.decisions
        ≡ update g.decisions p.key (
            some (record {
              action = if granted then allow else deny;
              expires = now + hold cfg granted ttl;
              why = by_person granted by;
              granted_tainted = p.tainted;
            }))
      → g'.futures id ≡ some ((if granted then allow else deny), by_person granted by)
      → find id g'.pending ≡ none
      → found ≡ true
      → AnswerEffect cfg g now id granted ttl by g' found

module _ (cfg : GateConfig) (g : Gate) (a : Agrees g) (now : ℕ) (granted : Bool) (ttl : Option ℕ)
    (by : Text) where
  settle-effect :
      (p : Pending)
      → find p.id g.pending ≡ some p
      → AnswerEffect cfg g now p.id granted ttl by (settle cfg g now p granted ttl by) true
  unfolding settle forget
  settle-effect p e =
      let (_, _, _, open_future) = a.listed p.id p e in
      let gone = find-remove p.id p.id g.pending in
      elim (Bool-cases (is_stale cfg g now p granted)) [
        | inl old ↦ rw old (
            stale p e (ground arith) (ground arith) (ground arith) refl (ground arith)
              (ground arith) refl)
        | inr fresh ↦ rw fresh (recorded p e (ground arith) refl (ground arith) (ground arith) refl)
      ]

  answer-effect :
      (id : ℕ)
      → AnswerEffect cfg g now id granted ttl by
          (answer cfg g now id granted ttl by).0
          (answer cfg g now id granted ttl by).1
  unfolding answer
  answer-effect id = elim (Option-cases (find id g.pending)) [
    | inl e ↦ rw (e, answer) (unknown e refl refl)
    | inr (p, e) ↦
        let (same, _, _, _) = a.listed id p e in
        rw (e, answer)
          (subst
            (λ i. AnswerEffect cfg g now i granted ttl by (settle cfg g now p granted ttl by) true)
            same (settle-effect p (subst (λ i. find i g.pending ≡ some p) (sym same) e)))
  ]

-- After any events, an answer to an id that is not listed changes nothing and is not found. One to
-- a listed question takes it off the list and resolves its future: with the person's answer, which
-- is remembered for the destination with its time to live and the question's taint; or, if it
-- allows a question put clean and the sandbox is tainted now, with a refusal that is not remembered.
pub run-answer :
    (cfg : GateConfig) (es : List Event) (id : ℕ) (granted : Bool) (ttl : Option ℕ) (by : Text)
    → AnswerEffect cfg
        (run cfg es).gate
        (run cfg es).clock
        id
        granted
        ttl
        by
        (answer cfg (run cfg es).gate (run cfg es).clock id granted ttl by).0
        (answer cfg (run cfg es).gate (run cfg es).clock id granted ttl by).1
run-answer cfg es id granted ttl by =
    answer-effect cfg (run cfg es).gate (run-IsSound cfg es).agrees (run cfg es).clock granted ttl
      by id
