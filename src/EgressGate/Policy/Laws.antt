-- ===== src/EgressGate/Policy/Laws.antt =====
-- `Policy.decide` of prax_sandbox/egress_gate/policy.py: the first rule that applies decides.
use prax_sandbox.Base.{
  ℕ, suc, ◌+◌, ◌≡◌, refl, ap, inl, inr, Bool, true, false, not, List, [], ◌∷◌, ◌++◌, Option, none,
  arith, if◌then◌else◌, Bool-cases, length, keep, is_empty, All,
}
use prax_sandbox.Text.{Text}
use prax_sandbox.EgressGate.Policy.{
  Action, Rule, Policy, Verdict, by_rule, by_default, applies, misses_method, decide, decide_from,
}
use prax_sandbox.EgressGate.Policy.Matching.{Applies, applies_iff}

-- A verdict together with why it is the one: no rule before the named one applies, or none at all.
pub data Decided (host : Text) (port : ℕ) (method : Option Text) (tainted : Bool) (first : ℕ)
    (rules : List Rule) (default : Action) (v : Verdict) : Type 0 where
  named :
      (before : List Rule) (rule : Rule) (after : List Rule)
      → rules ≡ before ++ (rule ∷ after)
      → All (λ r. ¬ Applies r host port method tainted) before
      → Applies rule host port method tainted
      → v ≡ record { action = rule.action; reason = by_rule (first + length before) rule.host }
      → Decided host port method tainted first rules default v
  no_rule :
      All (λ r. ¬ Applies r host port method tainted) rules
      → v ≡ record { action = default; reason = by_default }
      → Decided host port method tainted first rules default v

module _ (host : Text) (port : ℕ) (method : Option Text) (tainted : Bool) (default : Action) where
  skip_rule :
      (first : ℕ) (r : Rule) (rules : List Rule) (v : Verdict)
      → ¬ Applies r host port method tainted
      → Decided host port method tainted (suc first) rules default v
      → Decided host port method tainted first (r ∷ rules) default v
  skip_rule first r rules v skip (named before rule after e none_before a ev) =
      named (r ∷ before) rule after (ap (λ rs. r ∷ rs) e) (skip, none_before) a (ground arith)
  skip_rule first r rules v skip (no_rule rest ev) = no_rule (skip, rest) ev

  decide_from-Decided :
      (first : ℕ) (rules : List Rule)
      → Decided host port method tainted first rules default
          (decide_from host port method tainted first rules default)
  unfolding decide_from
  decide_from-Decided first [] = no_rule tt refl
  decide_from-Decided first (r ∷ rules) =
      let fits = applies_iff r host port method tainted in
      elim (Bool-cases (applies r host port method tainted)) [
        | inl here ↦ rw here (named [] r rules refl tt (fits.0 here) (ground arith))
        | inr past ↦
            rw past (
              skip_rule first r rules _ (λ a. cc (fits.1 a))
                (decide_from-Decided (suc first) rules))
      ]

-- Whatever the policy and the request, the verdict is that of the first rule that applies, named by
-- its index and host, and the default's exactly where no rule applies.
pub decide-Decided :
    (p : Policy) (host : Text) (port : ℕ) (method : Option Text) (tainted : Bool)
    → Decided host port method tainted 0 p.rules p.default (decide p host port method tainted)
unfolding decide
decide-Decided p host port method tainted =
    decide_from-Decided host port method tainted p.default 0 p.rules

abbrev pub is_always : Rule → Bool
is_always r = not r.clean_only

abbrev pub is_any_method : Rule → Bool
is_any_method r = is_empty r.methods

-- Dropping rules that do not apply changes no action.
module _ (host : Text) (port : ℕ) (method : Option Text) (t t' : Bool) (default : Action)
    (p : Rule → Bool) where
  abbrev action_from : Bool → ℕ → List Rule → Action
  action_from b i rules = (decide_from host port method b i rules default).action

  action-keep :
      ((r : Rule)
        → applies r host port method t ≡ (if p r then applies r host port method t' else false))
      → (i j : ℕ) (rules : List Rule) → action_from t i rules ≡ action_from t' j (keep p rules)
  unfolding decide_from
  action-keep same i j [] = refl
  action-keep same i j (r ∷ rules) =
      ground
        (arith, same r, action-keep same (suc i) j rules, action-keep same (suc i) (suc j) rules)

-- While the sandbox is tainted, the action is the one that the policy would give clean with its
-- `clean_only` rules struck out.
pub decide-tainted :
    (p : Policy) (host : Text) (port : ℕ) (method : Option Text)
    → (decide p host port method true).action
      ≡ (decide (record p { rules = keep is_always p.rules }) host port method false).action
unfolding decide applies
decide-tainted p host port method =
    action-keep host port method true false p.default is_always (λ r. ground arith) 0 0 p.rules

-- A CONNECT request, whose method is hidden, gets the action that the policy would give with all
-- rules struck out that name methods.
pub decide-connect :
    (p : Policy) (host : Text) (port : ℕ) (tainted : Bool)
    → (decide p host port none tainted).action
      ≡ (decide (record p { rules = keep is_any_method p.rules }) host port none tainted).action
unfolding decide applies misses_method
decide-connect p host port tainted =
    action-keep host port none tainted tainted p.default is_any_method (λ r. ground arith) 0 0
      p.rules
