-- ===== src/Daemon/Startup.antt =====
-- How the daemon starts: `DaemonConfig` of prax_sandbox/daemon/config.py and `main` of
-- prax_sandbox/daemon/__main__.py. A file is read by a parameter, `none` where there is none, and so
-- is a number, `none` for the `ValueError` of `int`; a negative number is outside.
pub mod Laws
use prax_sandbox.Base.{
  ℕ, ◌*◌, Bool, true, false, not, ◌&&◌, ◌||◌, List, [], ◌∷◌, Option, none, some, Map, if◌then◌else◌,
  ◌==◌, is_empty, contains,
}
use prax_sandbox.Text.{Text, codes, text_eq, lower, strip, is_space}

pub record DaemonConfig : Type 0 where
  pub bind_host : Text
  pub port : ℕ
  pub tls_cert : Option Text
  pub tls_key : Option Text
  pub mtls_ca : Option Text
  pub bearer_token : Option Text
  pub cdp_host : Text
  pub cdp_port : ℕ
  pub container_label : Text
  pub workspace_dir : Text
  pub image : Text
  pub max_concurrent_exec : ℕ
  pub max_payload_bytes : ℕ
  pub request_timeout : ℕ
  pub allow_rebuild : Bool
  pub enforce_exec_timeout : Bool

abbrev pub get : Option Text → Text → Text
get none d = d
get (some v) d = v

-- `v or None`
abbrev pub or_none : Option Text → Option Text
or_none none = none
or_none (some v) = if is_empty v then none else some v

-- `_bool`
unfoldable pub to_bool : Option Text → Bool → Bool
to_bool none default = default
to_bool (some v) default =
    contains (codes "1" ∷ codes "true" ∷ codes "yes" ∷ codes "on" ∷ []) (lower (strip is_space v))

-- The numbers of the environment.
pub record Numbers : Type 0 where
  pub port : ℕ
  pub cdp_port : ℕ
  pub max_concurrent_exec : ℕ
  pub max_payload_bytes : ℕ
  pub request_timeout : ℕ

-- `bool(self.tls_cert and self.tls_key)`
abbrev pub is_set : Option Text → Bool
is_set none = false
is_set (some v) = not (is_empty v)

abbrev pub has_tls : DaemonConfig → Bool
has_tls cfg = is_set cfg.tls_cert && is_set cfg.tls_key

abbrev pub is_loopback : Text → Bool
is_loopback host = host == codes "127.0.0.1" || host == codes "::1" || host == codes "localhost"

pub data Refused : Type 0 where
  no_token plaintext : Refused

unfoldable pub validate_or_die : DaemonConfig → Option Refused
validate_or_die cfg =
    if not (is_set cfg.bearer_token)
    then some no_token
    else if not (is_loopback cfg.bind_host) && not (has_tls cfg)
    then some plaintext
    else none

-- What uvicorn is given.
pub record Tls : Type 0 where
  pub certfile : Text
  pub keyfile : Text
  -- Client certificates are then required.
  pub ca : Option Text

pub data Start : Type 0 where
  bad_number : Start
  exits : Refused → Start
  serves : DaemonConfig → Option Tls → Start

abbrev pub tls_of : Option Text → Option Text → Option Text → Option Tls
tls_of (some cert) (some key) ca =
    if is_empty cert || is_empty key
    then none
    else some (record { certfile = cert; keyfile = key; ca = or_none ca })
tls_of _ _ ca = none

-- `main`, from a configuration that was read.
unfoldable pub start_with : DaemonConfig → Start
unfolding validate_or_die
start_with cfg = elim (validate_or_die cfg) [
  | some refusal ↦ exits refusal
  | none ↦ serves cfg (tls_of cfg.tls_cert cfg.tls_key cfg.mtls_ca)
]

module _ (read_file : Text → Option Text) (int : Text → Option ℕ) (env : Map Text Text) where
  -- The token, or else the content of the token file.
  unfoldable pub token_of : Option Text → Option Text → Option Text
  token_of token file =
      if is_set token || not (is_set file) then token else elim (read_file (get file [])) [
        | none ↦ token
        | some content ↦ some (strip is_space content)
      ]

  unfoldable pub numbers : Option Numbers
  numbers = elim (int (get (env (codes "PRAX_SANDBOX_DAEMON_PORT")) (codes "8843"))) [
    | none ↦ none
    | some port ↦ elim (int (get (env (codes "PRAX_SANDBOX_CDP_PORT")) (codes "9222"))) [
      | none ↦ none
      | some cdp ↦ elim (int (get (env (codes "PRAX_SANDBOX_MAX_CONCURRENT_EXEC")) (codes "8"))) [
        | none ↦ none
        | some execs ↦
            elim (int (get (env (codes "PRAX_SANDBOX_MAX_PAYLOAD_BYTES")) (codes "104857600"))) [
              | none ↦ none
              | some payload ↦
                  elim (int (get (env (codes "PRAX_SANDBOX_REQUEST_TIMEOUT")) (codes "600"))) [
                    | none ↦ none
                    | some timeout ↦ some (record {
                      port = port;
                      cdp_port = cdp;
                      max_concurrent_exec = execs;
                      max_payload_bytes = payload;
                      request_timeout = timeout;
                    })
                  ]
            ]
      ]
    ]
  ]

  unfoldable pub config_of : Numbers → DaemonConfig
  unfolding token_of to_bool
  config_of n = record {
    bind_host = get (env (codes "PRAX_SANDBOX_DAEMON_HOST")) (codes "127.0.0.1");
    port = n.port;
    tls_cert = or_none (env (codes "PRAX_SANDBOX_DAEMON_TLS_CERT"));
    tls_key = or_none (env (codes "PRAX_SANDBOX_DAEMON_TLS_KEY"));
    mtls_ca = or_none (env (codes "PRAX_SANDBOX_DAEMON_MTLS_CA"));
    bearer_token = or_none (
        token_of (env (codes "PRAX_SANDBOX_DAEMON_TOKEN"))
          (env (codes "PRAX_SANDBOX_DAEMON_TOKEN_FILE")));
    cdp_host = get (env (codes "PRAX_SANDBOX_CDP_HOST")) (codes "127.0.0.1");
    cdp_port = n.cdp_port;
    container_label =
        get (env (codes "PRAX_SANDBOX_CONTAINER_LABEL"))
          (codes "com.docker.compose.service=sandbox");
    workspace_dir = get (env (codes "PRAX_SANDBOX_WORKSPACE_DIR")) (codes "/workspace");
    image = get (env (codes "SANDBOX_IMAGE")) (codes "prax-sandbox:latest");
    max_concurrent_exec = n.max_concurrent_exec;
    max_payload_bytes = n.max_payload_bytes;
    request_timeout = n.request_timeout;
    allow_rebuild = to_bool (env (codes "PRAX_SANDBOX_ALLOW_REBUILD")) false;
    enforce_exec_timeout = to_bool (env (codes "PRAX_SANDBOX_ENFORCE_EXEC_TIMEOUT")) false;
  }

  unfoldable pub start : Start
  start = elim numbers [ none ↦ bad_number | some n ↦ start_with (config_of n) ]
