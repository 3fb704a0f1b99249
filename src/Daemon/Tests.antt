-- ===== src/Daemon/Tests.antt =====
-- The daemon's token and start, after tests/test_daemon.py, and the theorems about them there.
use prax_sandbox.Base.{
  ℕ, ◌≡◌, ◌≢◌, refl, true, false, [], Option, none, some, Map, if◌then◌else◌, ◌==◌, contains,
}
use prax_sandbox.Text.{Text, codes, text_eq, text_beq, lower, cut, starts_with, strip}
use prax_sandbox.Daemon.Auth.{fits, check_bearer}
use prax_sandbox.Daemon.Auth.Laws.{Presents, check_bearer-Presents}
use prax_sandbox.Daemon.Startup.{
  DaemonConfig, to_bool, validate_or_die, no_token, plaintext, exits, serves, bad_number, token_of,
  numbers, config_of, start_with, start,
}
use prax_sandbox.Daemon.Startup.Laws.{IsClosed, start-IsClosed}

daemon_runs : Unit {0}
unfolding text_beq lower cut starts_with strip fits check_bearer to_bool validate_or_die token_of
    numbers config_of start_with start contains
daemon_runs = tt

bearer_tests :
    (check_bearer (some (codes "bEARER secret")) (codes "secret") ≡ true)
    × (check_bearer (some (codes "Basic secret")) (codes "secret") ≡ false)
    × (check_bearer (some (codes "Bearer ")) [] ≡ false)
    × (check_bearer none (codes "secret") ≡ false)
unfolding daemon_runs
bearer_tests = (refl, refl, refl, refl)

check_bearer-Presents_example :
    Presents (codes "bEARER secret") (codes "secret") × (codes "secret" ≢ [])
check_bearer-Presents_example =
    check_bearer-Presents (codes "bEARER secret") (codes "secret") bearer_tests.0

abbrev no_file : Text → Option Text
no_file path = none

abbrev token_file : Text → Option Text
token_file path = some (codes " secret ")

-- Every number is read as 7.
abbrev seven : Text → Option ℕ
seven s = some 7

abbrev env : Map Text Text
env name =
    if name == codes "PRAX_SANDBOX_DAEMON_TOKEN_FILE" then some (codes "/run/token") else none

abbrev public_env : Map Text Text
public_env name =
    if name == codes "PRAX_SANDBOX_DAEMON_HOST" then some (codes "0.0.0.0") else env name

abbrev cfg : DaemonConfig
cfg = record {
  bind_host = codes "127.0.0.1";
  port = 7;
  tls_cert = none;
  tls_key = none;
  mtls_ca = none;
  bearer_token = some (codes "secret");
  cdp_host = codes "127.0.0.1";
  cdp_port = 7;
  container_label = codes "com.docker.compose.service=sandbox";
  workspace_dir = codes "/workspace";
  image = codes "prax-sandbox:latest";
  max_concurrent_exec = 7;
  max_payload_bytes = 7;
  request_timeout = 7;
  allow_rebuild = false;
  enforce_exec_timeout = false;
}

start_tests :
    (start token_file seven env ≡ serves cfg none)
    × (start no_file seven env ≡ exits no_token)
    × (start token_file seven public_env ≡ exits plaintext)
    × (start token_file (λ s. none) env ≡ bad_number)
unfolding daemon_runs
start_tests = (refl, refl, refl, refl)

start-IsClosed_example : IsClosed cfg none
start-IsClosed_example = start-IsClosed token_file seven env cfg none start_tests.0
