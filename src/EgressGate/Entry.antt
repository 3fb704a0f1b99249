-- ===== src/EgressGate/Entry.antt =====
-- How the gate starts: `main` of prax_sandbox/egress_gate/__main__.py. The environment, the reading
-- of the policy, `int` and `float` are parameters, `none` for an exception, and so is whether a port
-- can be listened on.
pub mod Guarded
mod Tests
use prax_sandbox.Base.{
  ℕ, Bool, true, false, not, List, [], ◌∷◌, ◌++◌, Option, none, some, if◌then◌else◌, is_empty, keep,
}
use prax_sandbox.Text.{Text, codes, split}
use prax_sandbox.EgressGate.Policy.{Policy}
use prax_sandbox.EgressGate.Gate.{GateConfig}

-- `os.environ.get(name, default)`
abbrev pub env_or : (Text → Option Text) → Text → Text → Text
env_or env name default = elim (env name) [ none ↦ default | some v ↦ v ]

-- What is listened on.
pub data Listener : Type 0 where
  proxy_on admin_on : GateConfig → ℕ → Listener
  -- The port here, and the host and the port there.
  relay_on : ℕ → Text → ℕ → Listener

pub data End : Type 0 where
  -- `SystemExit`, and any other exception.
  refused_start crashed : End
  -- The servers are served for ever.
  serving : End

-- `listen, host, port = spec.split(":")`, and the two numbers.
abbrev pub relay_with : Option ℕ → Text → Option ℕ → Option (ℕ × Text × ℕ)
relay_with (some listen) host (some port) = some (listen, host, port)
relay_with _ _ _ = none

unfoldable pub parse_relay : (Text → Option ℕ) → List Text → Option (ℕ × Text × ℕ)
parse_relay int (listen ∷ host ∷ port ∷ []) = relay_with (int listen) host (int port)
parse_relay int _ = none

abbrev pub listen_then : Bool → Listener → List Listener × End → List Listener × End
listen_then binds l (listeners, end') = if binds then (l ∷ listeners, end') else ([], crashed)

abbrev pub relay_then :
    (ℕ → Bool) → Option (ℕ × Text × ℕ) → List Listener × End → List Listener × End
relay_then binds none rest = ([], crashed)
relay_then binds (some (listen, host, port)) rest =
    listen_then (binds listen) (relay_on listen host port) rest

-- The relays in their order, up to the first that fails.
unfoldable pub open_relays : (Text → Option ℕ) → (ℕ → Bool) → List Text → List Listener × End
unfolding parse_relay
open_relays int binds [] = ([], serving)
open_relays int binds (spec ∷ specs) =
    relay_then binds (parse_relay int (split b':' spec)) (open_relays int binds specs)

abbrev pub relay_specs : (Text → Option Text) → List Text
relay_specs env = keep (λ s. not (is_empty s)) (split b',' (env_or env (codes "INGRESS_RELAY") []))

abbrev pub config_with : Policy → Text → Text → Option ℕ → Option ℕ → Option GateConfig
config_with policy token taint_token (some ask_timeout) (some allow_ttl) = some record {
  policy = policy;
  admin_token = token;
  taint_token = taint_token;
  ask_timeout = ask_timeout;
  allow_ttl = allow_ttl;
  deny_ttl = 60;
  taint_ttl = 900;
  max_connections = 256;
}
config_with _ _ _ _ _ = none

abbrev pub gate_config :
    (Text → Option Text) → (Text → Option ℕ) → Text → Option Policy → Option GateConfig
gate_config env float token none = none
gate_config env float token (some policy) =
    config_with policy token (env_or env (codes "EGRESS_TAINT_TOKEN") [])
      (float (env_or env (codes "EGRESS_ASK_TIMEOUT") (codes "120")))
      (float (env_or env (codes "EGRESS_ALLOW_TTL") (codes "600")))

abbrev pub listen_at :
    (ℕ → Bool) → (ℕ → Listener) → Option ℕ → List Listener × End → List Listener × End
listen_at binds l none rest = ([], crashed)
listen_at binds l (some port) rest = listen_then (binds port) (l port) rest

-- The proxy, the admin API and the relays.
abbrev pub open_servers :
    (Text → Option Text) → (Text → Option ℕ) → (ℕ → Bool) → Option GateConfig → List Listener × End
open_servers env int binds none = ([], crashed)
open_servers env int binds (some cfg) =
    listen_at binds (proxy_on cfg) (int (env_or env (codes "EGRESS_PROXY_PORT") (codes "3128"))) (
      listen_at binds (admin_on cfg) (int (env_or env (codes "EGRESS_ADMIN_PORT") (codes "8790")))
        (open_relays int binds (relay_specs env)))

-- `load` is `Policy.load`.
unfoldable pub start_gate :
    (Text → Option Text)
    → (Text → Option Policy)
    → (Text → Option ℕ)
    → (Text → Option ℕ)
    → (ℕ → Bool)
    → List Listener × End
unfolding open_relays
start_gate env load int float binds =
    let token = env_or env (codes "EGRESS_ADMIN_TOKEN") [] in
    if is_empty token
    then ([], refused_start)
    else open_servers env int binds (
        gate_config env float token
          (load (env_or env (codes "EGRESS_POLICY") (codes "/etc/egress/policy.json"))))
