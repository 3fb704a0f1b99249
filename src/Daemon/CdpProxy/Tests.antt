-- ===== src/Daemon/CdpProxy/Tests.antt =====
-- The proxy after tests/test_daemon.py, and the theorem about it there.
use prax_sandbox.Base.{
  ◌≡◌, refl, true, false, [], ◌∷◌, Option, none, some, Bool, inl, inr, contains, Elem,
}
use prax_sandbox.Text
use prax_sandbox.Text.{Text, codes}
use prax_sandbox.Daemon.Auth.{fits, check_bearer}
use prax_sandbox.Daemon.CdpProxy.{
  CdpConfig, chrome_origin, upstream_url, from_client, one_ended, accept, close_client, dial,
  to_upstream, close_upstream, cdp_ws, parsed, raw, cdp_json,
}
use prax_sandbox.Daemon.CdpProxy.Laws.{cdp_ws-dial}

proxy_runs : Unit {0}
unfolding Text.text_beq Text.lower Text.cut Text.starts_with Text.lstrip Text.decimal fits
    check_bearer cdp_ws cdp_json contains
proxy_runs = tt

abbrev cfg : CdpConfig
cfg = record { cdp_host = codes "box"; cdp_port = 9222; bearer_token = codes "secret" }

abbrev bearer : Option Text
bearer = some (codes "Bearer secret")

abbrev as_is : Text → Text
as_is t = t

abbrev up : Text → Bool
up url = true

abbrev down : Text → Bool
down url = false

abbrev chrome_url : Text
chrome_url = codes "ws://box:9222/page"

ws_tests :
    (cdp_ws cfg as_is up bearer (codes "/page") (from_client [] ∷ one_ended ∷ from_client [] ∷ [])
      ≡ accept ∷ dial chrome_url chrome_origin ∷ to_upstream [] ∷ close_upstream ∷ [])
    × (cdp_ws cfg as_is up none (codes "/page") [] ≡ close_client 1008 ∷ [])
    × (cdp_ws cfg as_is down bearer (codes "page") []
        ≡ accept ∷ dial chrome_url chrome_origin ∷ close_client 1011 ∷ [])
unfolding proxy_runs
ws_tests = (refl, refl, refl)

json_tests :
    (cdp_json {J = Text} cfg
        (λ url host. some (codes "[ws://box:9222/a,ws://localhost:9222/b]"))
        (λ t. none)
        record { scheme = codes "https"; netloc = codes "d"; path = codes "/v1/cdp/json" }
      ≡ raw (codes "[wss://d/v1/cdp/ws/a,wss://d/v1/cdp/ws/b]"))
    × (cdp_json {J = Text} cfg
          (λ url host. some url)
          (λ t. some t)
          record { scheme = codes "http"; netloc = codes "d"; path = codes "/v1/cdp/json" }
        ≡ parsed (codes "http://box:9222/json"))
unfolding proxy_runs
json_tests = (refl, refl)

dials : Elem (dial chrome_url chrome_origin) (cdp_ws cfg as_is up bearer (codes "/page") [])
unfolding proxy_runs
dials = inr (inl refl)

cdp_ws-dial_example :
    (check_bearer bearer (codes "secret") ≡ true)
    × ((chrome_url ≡ upstream_url cfg (codes "/page")) × (chrome_origin ≡ chrome_origin))
cdp_ws-dial_example =
    cdp_ws-dial cfg as_is up bearer (codes "/page") [] chrome_url chrome_origin dials
