-- ===== src/EgressGate/Entry/Tests.antt =====
-- The gate with one relay, without a token, and with a relay that cannot be read.
use prax_sandbox.Base.{
  ℕ, ◌≡◌, ◌≢◌, refl, Bool, true, [], ◌∷◌, Option, none, some, ◌==◌, if◌then◌else◌, inl, inr, Elem,
}
use prax_sandbox.Text
use prax_sandbox.Text.{Text, codes, text_eq}
use prax_sandbox.EgressGate.Policy.{Policy, deny}
use prax_sandbox.EgressGate.Gate.{GateConfig}
use prax_sandbox.EgressGate.Entry.{
  proxy_on, admin_on, relay_on, refused_start, crashed, serving, parse_relay, open_relays,
  start_gate,
}
use prax_sandbox.EgressGate.Entry.Guarded.{admin_token, IsGuarded, start_gate-IsGuarded}

entry_runs : Unit {0}
unfolding Text.text_beq Text.split parse_relay open_relays start_gate
entry_runs = tt

abbrev policy : Policy
policy = record { default = deny; rules = []; allow_private_addresses = [] }

abbrev env : Text → Text → Text → Option Text
env token relays name =
    if name == codes "EGRESS_ADMIN_TOKEN"
    then some token
    else if name == codes "INGRESS_RELAY"
    then some relays
    else none

abbrev number : Text → Option ℕ
number t = if t == codes "x" then none else some 7

abbrev load : Text → Option Policy
load path = some policy

abbrev free : ℕ → Bool
free port = true

abbrev config : GateConfig
config = record {
  policy = policy;
  admin_token = codes "secret";
  taint_token = [];
  ask_timeout = 7;
  allow_ttl = 7;
  deny_ttl = 60;
  taint_ttl = 900;
  max_connections = 256;
}

entry_tests :
    (start_gate (env (codes "secret") (codes ",1:box:2")) load number number free
      ≡ (proxy_on config 7 ∷ admin_on config 7 ∷ relay_on 7 (codes "box") 7 ∷ [], serving))
    × (start_gate (env [] (codes "1:box:2")) load number number free ≡ ([], refused_start))
    × (start_gate (env (codes "secret") (codes "1:box")) load number number free
        ≡ (proxy_on config 7 ∷ admin_on config 7 ∷ [], crashed))
unfolding entry_runs
entry_tests = (refl, refl, refl)

listens :
    Elem
      (relay_on 7 (codes "box") 7)
      (start_gate (env (codes "secret") (codes ",1:box:2")) load number number free).0
unfolding entry_runs
listens = inr (inr (inl refl))

start_gate-IsGuarded_example :
    (admin_token (env (codes "secret") (codes ",1:box:2")) load number number free ≢ [])
    × IsGuarded
        (env (codes "secret") (codes ",1:box:2"))
        load
        number
        number
        free
        (relay_on 7 (codes "box") 7)
start_gate-IsGuarded_example =
    start_gate-IsGuarded (env (codes "secret") (codes ",1:box:2")) load number number free
      (relay_on 7 (codes "box") 7) listens
