-- ===== src/EgressGate/Entry/Guarded.antt =====
-- When the gate of prax_sandbox/egress_gate/__main__.py listens.
use prax_sandbox.Base.{
  ℕ, ◌≡◌, ◌≢◌, ◌⊎◌, refl, sym, ap, ◌∙◌, inl, inr, Bool, true, false, List, [], ◌∷◌, Option, none,
  some, Elem, Bool-cases, Option-cases, is_empty, subst,
}
use prax_sandbox.Text.{Text, codes, split}
use prax_sandbox.EgressGate.Policy.{Policy}
use prax_sandbox.EgressGate.Gate.{GateConfig}
use prax_sandbox.EgressGate.Entry.{
  env_or, Listener, proxy_on, admin_on, relay_on, End, parse_relay, listen_then, relay_then,
  open_relays, relay_specs, gate_config, config_with, listen_at, open_servers, start_gate,
}

no_config : {c : GateConfig} → none ≡ some c → ⊥
no_config h = cc

module _ (env : Text → Option Text) (load : Text → Option Policy) (int float : Text → Option ℕ)
    (binds : ℕ → Bool) where
  abbrev pub admin_token : Text
  admin_token = env_or env (codes "EGRESS_ADMIN_TOKEN") []

  abbrev pub loaded : Option Policy
  loaded = load (env_or env (codes "EGRESS_POLICY") (codes "/etc/egress/policy.json"))

  -- A gate of the policy that was loaded, with the token of the environment.
  abbrev pub IsOwn : GateConfig → Type 0
  IsOwn cfg =
      (loaded ≡ some cfg.policy)
      × (cfg.admin_token ≡ admin_token)
      × (cfg.taint_token ≡ env_or env (codes "EGRESS_TAINT_TOKEN") [])

  abbrev pub IsGuarded : Listener → Type 0
  IsGuarded (proxy_on cfg port) =
      IsOwn cfg × (int (env_or env (codes "EGRESS_PROXY_PORT") (codes "3128")) ≡ some port)
  IsGuarded (admin_on cfg port) =
      IsOwn cfg × (int (env_or env (codes "EGRESS_ADMIN_PORT") (codes "8790")) ≡ some port)
  IsGuarded (relay_on listen host port) =
      ((policy : Policy) × (loaded ≡ some policy))
      × (spec : Text) × Elem spec (relay_specs env)
      × (parse_relay int (split b':' spec) ≡ some (listen, host, port))

  listen_then-Elem :
      (b : Bool) (l m : Listener) (rest : List Listener × End)
      → Elem l (listen_then b m rest).0
      → (m ≡ l) ⊎ Elem l rest.0
  listen_then-Elem true l m (ls, e) h = h
  listen_then-Elem false l m (ls, e) h = absurd h

  abbrev IsFrom : List Text → Listener → Type 0
  IsFrom specs l =
      (listen : ℕ) × (host : Text) × (port : ℕ) × (spec : Text) × (relay_on listen host port ≡ l)
      × Elem spec specs
      × (parse_relay int (split b':' spec) ≡ some (listen, host, port))

  open_relays-IsFrom :
      (specs : List Text) (l : Listener) → Elem l (open_relays int binds specs).0 → IsFrom specs l
  unfolding open_relays
  open_relays-IsFrom [] l h = absurd h
  open_relays-IsFrom (spec ∷ specs) l h = elim (Option-cases (parse_relay int (split b':' spec))) [
    | inl e ↦ absurd (rw (e, relay_then) at h)
    | inr ((listen, host, port), e) ↦
        elim (listen_then-Elem (binds listen) l (relay_on listen host port)
          (open_relays int binds specs) (rw (e, relay_then) at h)) [
            | inl same ↦ (listen, host, port, spec, same, inl refl, e)
            | inr later ↦
                let (listen', host', port', spec', same, found, e') =
                  open_relays-IsFrom specs l later in
                (listen', host', port', spec', same, inr found, e')
          ]
  ]

  relay-IsGuarded :
      (l : Listener) (policy : Policy)
      → loaded ≡ some policy
      → IsFrom (relay_specs env) l
      → IsGuarded l
  relay-IsGuarded l policy h (listen, host, port, spec, same, found, e) =
      subst IsGuarded same ((policy, h), spec, found, e)

  config_with-IsOwn :
      (policy : Policy) (ask ttl : Option ℕ) (cfg : GateConfig)
      → loaded ≡ some policy
      → config_with policy admin_token (env_or env (codes "EGRESS_TAINT_TOKEN") []) ask ttl
        ≡ some cfg
      → IsOwn cfg
  config_with-IsOwn policy (some ask) (some ttl) cfg e h =
      let same = some_eq h in
      (
        e ∙ ap (λ c. some c.policy) same,
        sym (ap (λ c. c.admin_token) same),
        sym (ap (λ c. c.taint_token) same),
      )
    where
      some_eq : {c c' : GateConfig} → some c ≡ some c' → c ≡ c'
      some_eq h = cc
  config_with-IsOwn policy (some ask) none cfg e h = absurd (no_config h)
  config_with-IsOwn policy none ttl cfg e h = absurd (no_config h)

  gate_config-IsOwn :
      (o : Option Policy) (cfg : GateConfig)
      → loaded ≡ o
      → gate_config env float admin_token o ≡ some cfg
      → IsOwn cfg
  gate_config-IsOwn none cfg e h = absurd (no_config h)
  gate_config-IsOwn (some policy) cfg e h =
      config_with-IsOwn policy (float (env_or env (codes "EGRESS_ASK_TIMEOUT") (codes "120")))
        (float (env_or env (codes "EGRESS_ALLOW_TTL") (codes "600"))) cfg e h

  listen_at-Elem :
      (f : ℕ → Listener) (o : Option ℕ) (l : Listener) (rest : List Listener × End)
      → Elem l (listen_at binds f o rest).0
      → ((port : ℕ) × (o ≡ some port) × (f port ≡ l)) ⊎ Elem l rest.0
  listen_at-Elem f none l rest h = absurd h
  listen_at-Elem f (some port) l rest h = elim (listen_then-Elem (binds port) l (f port) rest h) [
    | inl same ↦ inl (port, refl, same)
    | inr later ↦ inr later
  ]

  servers-IsGuarded :
      (c : Option GateConfig) (l : Listener)
      → gate_config env float admin_token loaded ≡ c
      → Elem l (open_servers env int binds c).0
      → IsGuarded l
  servers-IsGuarded none l h found = absurd found
  servers-IsGuarded (some cfg) l h found =
      let own = gate_config-IsOwn loaded cfg refl h in
      let proxy_port = int (env_or env (codes "EGRESS_PROXY_PORT") (codes "3128")) in
      let admin_port = int (env_or env (codes "EGRESS_ADMIN_PORT") (codes "8790")) in
      let relays = open_relays int binds (relay_specs env) in
      elim (listen_at-Elem (proxy_on cfg) proxy_port l
        (listen_at binds (admin_on cfg) admin_port relays) found) [
          | inl (port, e, same) ↦ subst IsGuarded same (own, e)
          | inr later ↦ elim (listen_at-Elem (admin_on cfg) admin_port l relays later) [
            | inl (port, e, same) ↦ subst IsGuarded same (own, e)
            | inr last ↦
                relay-IsGuarded l cfg.policy own.0 (open_relays-IsFrom (relay_specs env) l last)
          ]
        ]

  -- Where anything is listened on, there is an admin token, and the policy was loaded: the proxy and
  -- the admin API serve a gate with that policy, that token and the raise-only token of the
  -- environment, at their own ports, and each relay stands in `INGRESS_RELAY` as it is opened.
  pub start_gate-IsGuarded :
      (l : Listener)
      → Elem l (start_gate env load int float binds).0
      → (admin_token ≢ []) × IsGuarded l
  unfolding start_gate
  start_gate-IsGuarded l h = elim (Bool-cases (is_empty admin_token)) [
    | inl e ↦ absurd (rw (e, start_gate) at h)
    | inr e ↦ (
      (λ same. apart (sym (ap is_empty same) ∙ e)),
      servers-IsGuarded (gate_config env float admin_token loaded) l refl (rw (e, start_gate) at h),
    )
  ]
    where
      apart : true ≡ false → ⊥
      apart e = cc
