-- ===== src/Daemon/Startup/Laws.antt =====
-- The daemon fails closed (prax_sandbox/daemon/config.py and __main__.py).
use prax_sandbox.Base.{
  ℕ, ◌≡◌, ◌≢◌, refl, ◌⊎◌, inl, inr, true, [], ◌∷◌, Option, none, some, Map, arith, Option-cases,
}
use prax_sandbox.Text.{Text, text_eq}
use prax_sandbox.Daemon.Startup.{
  DaemonConfig, or_none, is_set, is_loopback, validate_or_die, Tls, tls_of, serves, start_with,
  start, numbers, config_of,
}

-- A token is set, and the socket is on the loopback or speaks TLS with the files configured.
pub record IsClosed (cfg : DaemonConfig) (tls : Option Tls) : Type 0 where
  pub token : Text
  pub token_set : cfg.bearer_token ≡ some token
  pub token_given : token ≢ []
  pub guarded :
      (is_loopback cfg.bind_host ≡ true)
      ⊎ ((t : Tls) × (tls ≡ some t)
          × (cfg.tls_cert ≡ some t.certfile)
          × (cfg.tls_key ≡ some t.keyfile))

is_set-some : (o : Option Text) → is_set o ≡ true → (t : Text) × (o ≡ some t) × (t ≢ [])
is_set-some none h = cc
is_set-some (some []) h = cc
is_set-some (some (c ∷ t)) h = (c ∷ t, refl, λ e. cc)

tls_of-set :
    (cert key ca : Option Text)
    → is_set cert ≡ true
    → is_set key ≡ true
    → (t : Tls) × (tls_of cert key ca ≡ some t) × (cert ≡ some t.certfile) × (key ≡ some t.keyfile)
tls_of-set none key ca h k = cc
tls_of-set (some cert) none ca h k = cc
tls_of-set (some []) (some key) ca h k = cc
tls_of-set (some (c ∷ cert)) (some []) ca h k = cc
tls_of-set (some (c ∷ cert)) (some (d ∷ key)) ca h k =
    (record { certfile = c ∷ cert; keyfile = d ∷ key; ca = or_none ca }, refl, refl, refl)

validate_or_die-none :
    (cfg : DaemonConfig)
    → validate_or_die cfg ≡ none
    → (is_set cfg.bearer_token ≡ true)
      × ((is_loopback cfg.bind_host ≡ true)
          ⊎ ((is_set cfg.tls_cert ≡ true) × (is_set cfg.tls_key ≡ true)))
unfolding validate_or_die
validate_or_die-none cfg h = ground arith

start_with-IsClosed :
    (cfg cfg' : DaemonConfig) (tls : Option Tls)
    → start_with cfg ≡ serves cfg' tls
    → IsClosed cfg' tls
unfolding start_with
start_with-IsClosed cfg cfg' tls h = elim (Option-cases (validate_or_die cfg)) [
  | inr (refusal, e) ↦ ground arith
  | inl e ↦
      let (given, guard) = validate_or_die-none cfg e in
      let (token, set, filled) = is_set-some cfg.bearer_token given in
      let same : cfg ≡ cfg' = ground arith in
      let same_tls : tls_of cfg.tls_cert cfg.tls_key cfg.mtls_ca ≡ tls = ground arith in
      rw (← same, ← same_tls)
        (record {
          token = token;
          token_set = set;
          token_given = filled;
          guarded = elim guard [
            | inl loopback ↦ inl loopback
            | inr (cert, key) ↦ inr (tls_of-set cfg.tls_cert cfg.tls_key cfg.mtls_ca cert key)
          ];
        })
]

-- Whatever the environment and the files hold, the daemon serves only with a token that is set, and
-- only on the loopback or over TLS.
pub start-IsClosed :
    (read_file : Text → Option Text) (int : Text → Option ℕ) (env : Map Text Text)
    (cfg : DaemonConfig) (tls : Option Tls)
    → start read_file int env ≡ serves cfg tls
    → IsClosed cfg tls
unfolding start
start-IsClosed read_file int env cfg tls h = elim (Option-cases (numbers read_file int env)) [
  | inl e ↦ ground arith
  | inr (n, e) ↦ start_with-IsClosed (config_of read_file int env n) cfg tls (ground arith)
]
