-- ===== src/Cdp/Send/Proxied/Tests.antt =====
-- A page through the daemon, and the theorem about it there.
use prax_sandbox.Base.{
  ℕ, ◌≡◌, refl, Bool, true, false, [], ◌∷◌, ◌++◌, Option, none, some, contains, nat_eq, drop, arith,
  ◌≢◌,
}
use prax_sandbox.Text
use prax_sandbox.Text.{Text, codes, text_eq, crlf}
use prax_sandbox.Cdp.Targets.{CdpAddress, Remote, verified}
use prax_sandbox.Cdp.Connect.{port_of, endpoint_of, parse_ws, handshake_lines}
use prax_sandbox.Daemon.Auth.{fits, check_bearer}
use prax_sandbox.Daemon.CdpProxy.{
  CdpConfig, chrome, Url, rewrite, public_base, chrome_origin, cdp_ws, BridgeEvent, one_ended,
  accept, close_upstream,
}
use prax_sandbox.Daemon.CdpProxy
use prax_sandbox.Cdp.Send.Proxied.{
  page_url, proxied, is_secure, daemon_endpoint, rewrite-dial, IsPlain, GivesPlain,
}

proxied_runs : Unit {0}
unfolding Text.text_beq Text.lower Text.cut Text.starts_with Text.has_text Text.lstrip Text.decimal
    endpoint_of parse_ws handshake_lines contains fits check_bearer cdp_ws rewrite
proxied_runs = tt

abbrev at : CdpAddress
at = record { host = codes "box"; port = 9223 }

abbrev cfg : CdpConfig
cfg = record { cdp_host = codes "box"; cdp_port = 9222; bearer_token = codes "secret" }

abbrev asked : Url
asked = record { scheme = codes "https"; netloc = codes "d"; path = codes "/v1/cdp/json" }

abbrev daemon : Remote
daemon = record { base = codes "https://d"; token = some (codes "secret"); tls_verify = verified }

abbrev no_int : Text → Option ℕ
no_int t = none

abbrev as_is : Text → Text
as_is t = t

abbrev up : Text → Bool
up url = true

abbrev page_path : Text
page_path = codes "devtools/page/1"

has_token : cfg.bearer_token ≢ []
has_token e = cc

plain : (contains asked.netloc b'/' ≡ false) × (Text.starts_with (codes "/") page_path ≡ false)
unfolding proxied_runs
plain = (refl, refl)

apart :
    (Text.has_text (codes "ws://box:9222/") page_path ≡ false)
    × (Text.has_text (codes "ws://localhost:9222/") (proxied (public_base asked) page_path) ≡ false)
    × (Text.has_text (codes "ws://127.0.0.1:9222/") (proxied (public_base asked) page_path) ≡ false)
unfolding proxied_runs
apart = (refl, refl, refl)

default_port_read : port_of no_int (is_secure asked) asked.netloc ≡ some 443
unfolding proxied_runs
default_port_read = refl

chrome_apart : Text.has_text (codes "ws://" ++ (chrome cfg ++ codes "/")) page_path ≡ false
unfolding proxied_runs
chrome_apart = refl

-- The path after `/v1/cdp/ws/`.
abbrev path_of : Text → Text
path_of t = drop 11 t

path_of-GivesPlain : GivesPlain path_of
path_of-GivesPlain t h = refl

page_path-IsPlain : IsPlain page_path
page_path-IsPlain = ground arith

rewrite-dial_example :
    (parse_ws no_int (rewrite cfg (public_base asked) (page_url cfg page_path))
      ≡ some (daemon_endpoint asked 443 page_path))
    × (handshake_lines at (some daemon) (codes "k") (daemon_endpoint asked 443 page_path)
        ≡ codes "GET /v1/cdp/ws/devtools/page/1 HTTP/1.1"
          ∷ codes "Host: d"
          ∷ codes "Upgrade: websocket"
          ∷ codes "Connection: Upgrade"
          ∷ codes "Sec-WebSocket-Key: k"
          ∷ codes "Sec-WebSocket-Version: 13"
          ∷ codes "Origin: http://127.0.0.1:9222"
          ∷ codes "Authorization: Bearer secret"
          ∷ [])
    × (cdp_ws cfg as_is up
          (some (codes "Bearer secret"))
          (path_of (daemon_endpoint asked 443 page_path).path)
          (one_ended ∷ [])
        ≡ accept
          ∷ CdpProxy.dial (page_url cfg page_path) chrome_origin
          ∷ CdpProxy.bridge as_is (one_ended ∷ []))
rewrite-dial_example =
    rewrite-dial cfg asked at daemon no_int as_is up (one_ended ∷ []) page_path (codes "k") 443
      path_of path_of-GivesPlain page_path-IsPlain refl has_token plain.0 default_port_read plain.1
      chrome_apart apart.1 apart.2
