-- ===== src/EgressGate/Proxy/Effects.antt =====
-- What `_handle` of prax_sandbox/egress_gate/gate.py does to the outside, and when.
use prax_sandbox.Base.{
  ℕ, ◌≡◌, ◌≢◌, refl, inl, inr, true, List, [], ◌∷◌, Option, none, some, arith, Elem, All,
  Option-cases,
}
use prax_sandbox.Text.{Text}
use prax_sandbox.EgressGate.Ip.{Address}
use prax_sandbox.EgressGate.Policy.{Action, allow, deny, ask, Reason, Policy, Verdict}
use prax_sandbox.EgressGate.Policy
use prax_sandbox.EgressGate.Gate.{Gate, GateConfig, Why, is_tainted}
use prax_sandbox.EgressGate.Proxy.{
  Effect, lookup_name, connect, Request, Refusal, Resolved, pinned, refused, is_reachable,
  first_bad, literal_refusal, check_addresses, forward, addresses, reach, after_decision,
  after_literal, after_verdict, handle_request,
}

first_bad-none :
    (p : Policy) (as' : List Address)
    → first_bad p as' ≡ none
    → All (λ a. is_reachable p a ≡ true) as'
unfolding first_bad
first_bad-none p [] h = tt
first_bad-none p (a ∷ as') h = ground (arith, first_bad-none p as')

-- The address that is pinned is the first one, and every one may be reached.
check_addresses-pinned :
    (p : Policy) (found : Option (List Address)) (a : Address)
    → check_addresses p found ≡ pinned a
    → (as' : List Address) × (found ≡ some (a ∷ as')) × All (λ b. is_reachable p b ≡ true) (a ∷ as')
unfolding check_addresses
check_addresses-pinned p none a h = cc
check_addresses-pinned p (some []) a h = cc
check_addresses-pinned p (some (b ∷ as')) a h = elim (Option-cases (first_bad p (b ∷ as'))) [
  | inl good ↦
      let same : b ≡ a = ground arith in
      (as', ground arith, rw (← same) (first_bad-none p (b ∷ as') good))
  | inr (bad, e) ↦ ground arith
]

module _ (ip_address : Text → Option Address) (resolver : Text → ℕ → Option (List Address)) where
  abbrev reaches : Policy → Request → Why → Resolved → List Effect
  reaches = reach ip_address resolver

  forward-quiet :
      (r : Request) (a : Address) (h : Text) (n : ℕ)
      → (Elem (connect a n) (forward r) → ⊥) × (Elem (lookup_name h n) (forward r) → ⊥)
  unfolding forward
  forward-quiet r a h n = ground arith

  reach-connect :
      (p : Policy) (r : Request) (why : Why) (found : Resolved) (a : Address) (n : ℕ)
      → Elem (connect a n) (reaches p r why found)
      → (found ≡ pinned a) × (n ≡ r.port)
  unfolding reach
  reach-connect p r why (refused x) a n h = ground arith
  reach-connect p r why (pinned b) a n h = ground (arith, (forward-quiet r a r.host n).0)

  reach-lookup :
      (p : Policy) (r : Request) (why : Why) (found : Resolved) (h : Text) (n : ℕ)
      → Elem (lookup_name h n) (reaches p r why found)
      → ⊥
  unfolding reach
  reach-lookup p r why (refused x) h n e = ground arith
  reach-lookup p r why (pinned b) h n e = ground (arith, (forward-quiet r b h n).1)

  abbrev found_for : Request → Option (List Address)
  found_for r = (addresses ip_address resolver r).1

  -- The address is the first of those found for the host, and all of them may be reached.
  abbrev pub IsChecked : Policy → Request → Address → Type 0
  IsChecked p r a =
      (as' : List Address) × (found_for r ≡ some (a ∷ as'))
      × All (λ b. is_reachable p b ≡ true) (a ∷ as')

  decision-connect :
      (p : Policy) (r : Request) (action : Action) (why : Why) (a : Address) (n : ℕ)
      → Elem (connect a n) (after_decision ip_address resolver p r (action, why))
      → (action ≡ allow) × (n ≡ r.port) × IsChecked p r a
  unfolding after_decision addresses
  decision-connect p r deny why a n h = ground arith
  decision-connect p r ask why a n h = ground arith
  decision-connect p r allow why a n h =
      let found = found_for r in
      let here : Elem (connect a n) (reaches p r why (check_addresses p found)) = ground arith in
      let (same, at) = reach-connect p r why (check_addresses p found) a n here in
      (refl, at, check_addresses-pinned p found a same)

  decision-lookup :
      (p : Policy) (r : Request) (action : Action) (why : Why) (h : Text) (n : ℕ)
      → Elem (lookup_name h n) (after_decision ip_address resolver p r (action, why))
      → (action ≡ allow) × (ip_address r.host ≡ none) × (h ≡ r.host) × (n ≡ r.port)
  unfolding after_decision addresses
  decision-lookup p r deny why h n e = ground arith
  decision-lookup p r ask why h n e = ground arith
  decision-lookup p r allow why h n e =
      ground (arith, reach-lookup p r why (check_addresses p (found_for r)) h n)

  -- An effect that a destination can notice.
  abbrev IsOutside : Effect → Type 0
  IsOutside (connect a n) = Unit
  IsOutside (lookup_name h n) = Unit
  IsOutside _ = ⊥

  after_literal-outside :
      (p : Policy) (r : Request) (d : Action × Why) (o : Option Refusal) (e : Effect)
      → IsOutside e
      → Elem e (after_literal ip_address resolver p r d o)
      → Elem e (after_decision ip_address resolver p r d)
  unfolding after_literal
  after_literal-outside p r d none e out h = h
  after_literal-outside p r d (some x) (connect a n) out h = ground arith
  after_literal-outside p r d (some x) (lookup_name a n) out h = ground arith
  after_literal-outside p r d (some x) e out h = absurd out

  after_verdict-outside :
      (p : Policy) (r : Request) (d : Action × Why) (action : Action) (reason : Reason) (e : Effect)
      → IsOutside e
      → Elem e (after_verdict ip_address resolver p r d action reason)
      → (action ≢ deny) × Elem e (after_decision ip_address resolver p r d)
  unfolding after_verdict
  after_verdict-outside p r d deny reason (connect a n) out h = ground arith
  after_verdict-outside p r d deny reason (lookup_name a n) out h = ground arith
  after_verdict-outside p r d deny reason e out h = absurd out
  after_verdict-outside p r d allow reason e out h =
      (λ x. cc, after_literal-outside p r d (literal_refusal p (ip_address r.host)) e out h)
  after_verdict-outside p r d ask reason e out h =
      (λ x. cc, after_literal-outside p r d (literal_refusal p (ip_address r.host)) e out h)

  abbrev verdict_on : GateConfig → Gate → ℕ → Request → Verdict
  verdict_on cfg g now r = Policy.decide cfg.policy r.host r.port r.judged_method (is_tainted g now)

  -- A connection is opened only after the request was allowed and not denied by the policy, to the
  -- port that was judged, and to the first of the host's addresses, every one of which is public or
  -- allowed by the policy as an exception.
  pub connect-IsChecked :
      (cfg : GateConfig) (g : Gate) (now : ℕ) (r : Request) (action : Action) (why : Why)
      (a : Address) (n : ℕ)
      → Elem (connect a n) (handle_request ip_address resolver cfg g now r (action, why))
      → ((verdict_on cfg g now r).action ≢ deny)
        × (action ≡ allow)
        × (n ≡ r.port)
        × IsChecked cfg.policy r a
  unfolding handle_request
  connect-IsChecked cfg g now r action why a n h =
      let v = verdict_on cfg g now r in
      let (not_denied, later) =
        after_verdict-outside cfg.policy r (action, why) v.action v.reason (connect a n) tt h in
      let (is, at, checked) = decision-connect cfg.policy r action why a n later in
      (not_denied, is, at, checked)

  -- A name is looked up only after the request was allowed and not denied by the policy, and only
  -- if it is the host that was judged and no IP address.
  pub lookup_name-allow :
      (cfg : GateConfig) (g : Gate) (now : ℕ) (r : Request) (action : Action) (why : Why) (h : Text)
      (n : ℕ)
      → Elem (lookup_name h n) (handle_request ip_address resolver cfg g now r (action, why))
      → ((verdict_on cfg g now r).action ≢ deny)
        × (action ≡ allow)
        × (ip_address r.host ≡ none)
        × (h ≡ r.host)
  unfolding handle_request
  lookup_name-allow cfg g now r action why h n e =
      let v = verdict_on cfg g now r in
      let (not_denied, later) =
        after_verdict-outside cfg.policy r (action, why) v.action v.reason (lookup_name h n) tt e in
      let (is, named, same, _) = decision-lookup cfg.policy r action why h n later in
      (not_denied, is, named, same)
