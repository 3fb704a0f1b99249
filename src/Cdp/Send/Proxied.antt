-- ===== src/Cdp/Send/Proxied.antt =====
-- Chrome's pages through the daemon: what prax_sandbox/daemon/cdp_proxy.py makes of a page's
-- address, and what `_ws_connect` of prax_sandbox/cdp_service.py makes of that.
mod Tests
use prax_sandbox.Base.{
  ℕ, ◌≤◌, ◌≡◌, ◌≢◌, refl, sym, ap, ◌∙◌, inl, inr, Bool, true, false, List, [], ◌∷◌, ◌++◌, Option,
  some, arith, contains, append_assoc, if◌then◌else◌, ◌==◌, nat_eq, Bool-cases, All,
}
use prax_sandbox.Text.{Text, codes, text_eq, cut, has_text, starts_with, lstrip, partition}
use prax_sandbox.Text.Replace.{replace-none, replace-prefix}
use prax_sandbox.Daemon.Auth.{check_bearer}
use prax_sandbox.Daemon.Auth.Laws.{check_bearer-own}
use prax_sandbox.Daemon.CdpProxy.{
  CdpConfig, chrome, chrome_origin, upstream_url, BridgeEvent, accept, dial, close_client, bridge,
  cdp_ws, rewrite, Url, public_base,
}
use prax_sandbox.Cdp.Targets.{Remote, CdpAddress}
use prax_sandbox.Cdp.Connect.{
  Endpoint, endpoint_of, endpoint_at, port_of, host_of, parse_ws, handshake_lines, bearer_line,
}

-- The address of a page in Chrome, and at the daemon.
abbrev pub page_url : CdpConfig → Text → Text
page_url cfg path = (codes "ws://" ++ (chrome cfg ++ codes "/")) ++ path

abbrev pub proxied : Text → Text → Text
proxied base path = (base ++ codes "/v1/cdp/ws/") ++ path

rewrite-page :
    (cfg : CdpConfig) (base path : Text)
    → has_text (codes "ws://" ++ (chrome cfg ++ codes "/")) path ≡ false
    → has_text (codes "ws://localhost:9222/") (proxied base path) ≡ false
    → has_text (codes "ws://127.0.0.1:9222/") (proxied base path) ≡ false
    → rewrite cfg base (page_url cfg path) ≡ proxied base path
unfolding rewrite
rewrite-page cfg base path own local loop =
    let new = base ++ codes "/v1/cdp/ws/" in
    let first = replace-prefix b'w' (codes "s://" ++ (chrome cfg ++ codes "/")) new path in
    rw
      (
        first,
        replace-none (codes "ws://" ++ (chrome cfg ++ codes "/")) new path own,
        replace-none (codes "ws://localhost:9222/") new (new ++ path) local,
      )
      (replace-none (codes "ws://127.0.0.1:9222/") new (new ++ path) loop)

cut-one : (c : ℕ) (s t : Text) → contains s c ≡ false → cut (c ∷ []) (s ++ (c ∷ t)) ≡ some (s, t)
unfolding cut starts_with contains
cut-one c [] t h = ground arith
cut-one c (x ∷ s) t h = ground (arith, cut-one c s t)

abbrev pub is_secure : Url → Bool
is_secure url = contains (codes "https" ∷ codes "wss" ∷ []) url.scheme

abbrev pub daemon_endpoint : Url → ℕ → Text → Endpoint
daemon_endpoint url port path = record {
  secure = is_secure url;
  host_port = url.netloc;
  host = host_of url.netloc;
  port = port;
  path = codes "/v1/cdp/ws/" ++ path;
}

abbrev address_rest : Url → Text → Text
address_rest url path = url.netloc ++ (codes "/v1/cdp/ws/" ++ path)

endpoint_of-cut :
    (int : Text → Option ℕ) (secure : Bool) (rest host_port tail : Text)
    → cut (codes "/") rest ≡ some (host_port, tail)
    → endpoint_of int secure rest
      ≡ endpoint_at secure host_port
          (host_of host_port)
          (codes "/" ++ tail)
          (port_of int secure host_port)
unfolding endpoint_of
endpoint_of-cut int secure rest host_port tail h =
    let parted : partition (codes "/") rest ≡ (host_port, true, tail) = rw (h, partition) refl in
    ap (λ p. endpoint_at secure p.0 (host_of p.0) (codes "/" ++ p.2) (port_of int secure p.0))
      parted

endpoint_of-proxied :
    (int : Text → Option ℕ) (secure : Bool) (url : Url) (path : Text) (port : ℕ)
    → contains url.netloc b'/' ≡ false
    → port_of int secure url.netloc ≡ some port
    → endpoint_of int secure (address_rest url path)
      ≡ some record {
        secure = secure;
        host_port = url.netloc;
        host = host_of url.netloc;
        port = port;
        path = codes "/v1/cdp/ws/" ++ path;
      }
endpoint_of-proxied int secure url path port plain has_port =
    endpoint_of-cut int secure (address_rest url path) url.netloc (codes "v1/cdp/ws/" ++ path)
      (cut-one b'/' url.netloc (codes "v1/cdp/ws/" ++ path) plain)
    ∙ rw has_port refl

proxied-parts :
    (scheme netloc path : Text)
    → ((scheme ++ (codes "://" ++ netloc)) ++ codes "/v1/cdp/ws/") ++ path
      ≡ scheme ++ (codes "://" ++ (netloc ++ (codes "/v1/cdp/ws/" ++ path)))
proxied-parts scheme netloc path =
    append_assoc (scheme ++ (codes "://" ++ netloc)) (codes "/v1/cdp/ws/") path
    ∙ append_assoc scheme (codes "://" ++ netloc) (codes "/v1/cdp/ws/" ++ path)

parse_ws-proxied :
    (int : Text → Option ℕ) (url : Url) (path : Text) (port : ℕ)
    → contains url.netloc b'/' ≡ false
    → port_of int (is_secure url) url.netloc ≡ some port
    → parse_ws int (proxied (public_base url) path) ≡ some (daemon_endpoint url port path)
unfolding parse_ws starts_with
parse_ws-proxied int url path port plain has_port = elim (Bool-cases (is_secure url)) [
  | inl e ↦
      let base : public_base url ≡ codes "wss" ++ (codes "://" ++ url.netloc) = rw e refl in
      ap (λ b. parse_ws int (proxied b path)) base
      ∙ ap (parse_ws int) (proxied-parts (codes "wss") url.netloc path)
      ∙ endpoint_of-proxied int true url path port plain (rw e at has_port)
      ∙ rw e refl
  | inr e ↦
      let base : public_base url ≡ codes "ws" ++ (codes "://" ++ url.netloc) = rw e refl in
      ap (λ b. parse_ws int (proxied b path)) base
      ∙ ap (parse_ws int) (proxied-parts (codes "ws") url.netloc path)
      ∙ endpoint_of-proxied int false url path port plain (rw e at has_port)
      ∙ rw e refl
]

page_parts :
    (cfg : CdpConfig) (path : Text)
    → codes "ws://" ++ (chrome cfg ++ (codes "/" ++ path)) ≡ page_url cfg path
page_parts cfg path = ap (codes "ws://" ++◌) (sym (append_assoc (chrome cfg) (codes "/") path))

lstrip-none :
    (path : Text) → starts_with (codes "/") path ≡ false → lstrip (λ c. c == b'/') path ≡ path
unfolding lstrip starts_with
lstrip-none [] h = refl
lstrip-none (c ∷ path) h = ground arith

cdp_ws-page :
    (cfg : CdpConfig) (decode : Text → Text) (connects : Text → Bool) (path : Text)
    (events : List BridgeEvent)
    → cfg.bearer_token ≢ []
    → starts_with (codes "/") path ≡ false
    → cdp_ws cfg decode connects (some (codes "Bearer " ++ cfg.bearer_token)) path events
      ≡ accept
        ∷ dial (page_url cfg path) chrome_origin
        ∷ (if connects (page_url cfg path) then bridge decode events else close_client 1011 ∷ [])
unfolding cdp_ws
cdp_ws-page cfg decode connects path events token plain =
    let url : upstream_url cfg path ≡ page_url cfg path =
      ap (λ p. codes "ws://" ++ (chrome cfg ++ (codes "/" ++ p))) (lstrip-none path plain)
      ∙ page_parts cfg path in
    let own : check_bearer (some (codes "Bearer " ++ cfg.bearer_token)) cfg.bearer_token ≡ true =
      check_bearer-own cfg.bearer_token token in
    rw (own, url, cdp_ws) refl

bearer_line-token :
    (token : Text)
    → token ≢ []
    → bearer_line (some token) ≡ (codes "Authorization: Bearer " ++ token) ∷ []
bearer_line-token [] h = absurd (h refl)
bearer_line-token (c ∷ token) h = refl

handshake_lines-bearer :
    (a : CdpAddress) (r : Remote) (key : Text) (e : Endpoint) (token : Text)
    → r.token ≡ some token
    → token ≢ []
    → handshake_lines a (some r) key e
      ≡ (codes "GET " ++ (e.path ++ codes " HTTP/1.1"))
        ∷ (codes "Host: " ++ e.host_port)
        ∷ codes "Upgrade: websocket"
        ∷ codes "Connection: Upgrade"
        ∷ (codes "Sec-WebSocket-Key: " ++ key)
        ∷ codes "Sec-WebSocket-Version: 13"
        ∷ codes "Origin: http://127.0.0.1:9222"
        ∷ (codes "Authorization: Bearer " ++ token)
        ∷ []
unfolding handshake_lines
handshake_lines-bearer a r key e token has_token filled =
    rw (has_token, bearer_line-token token filled, handshake_lines) refl

-- A path that a request line carries as it is: visible ASCII, with nothing that is decoded and with
-- neither a query nor a fragment.
abbrev pub IsPlain : Text → Type 0
IsPlain = All (λ c. (33 ≤ c) × (c ≤ 126) × (c ≢ b'%') × (c ≢ b'?') × (c ≢ b'#'))

-- What the web server gives for the path of the route `/v1/cdp/ws/{path:path}`, given a request
-- target: a plain path is given as it stands.
abbrev pub GivesPlain : (Text → Text) → Type 0
GivesPlain path_of = (t : Text) → IsPlain t → path_of (codes "/v1/cdp/ws/" ++ t) ≡ t

-- The address of a page of the daemon's own Chrome, with a plain path that neither starts with a
-- slash nor has an address in it: `rewrite`, which is what is done to the addresses that Chrome
-- gives, makes it an address at the daemon, where the client finds the daemon's scheme, host and
-- port; the client asks there for that path with the daemon's bearer token, which is not empty; and
-- for the path that the web server takes from that request, and that token, `cdp_ws` dials the very
-- address of the page, given that the web server gives a plain path as it stands.
pub rewrite-dial :
    (cfg : CdpConfig) (url : Url) (a : CdpAddress) (r : Remote) (int : Text → Option ℕ)
    (decode : Text → Text) (connects : Text → Bool) (events : List BridgeEvent) (path key : Text)
    (port : ℕ) (path_of : Text → Text)
    → GivesPlain path_of
    → IsPlain path
    → r.token ≡ some cfg.bearer_token
    → cfg.bearer_token ≢ []
    → contains url.netloc b'/' ≡ false
    → port_of int (is_secure url) url.netloc ≡ some port
    → starts_with (codes "/") path ≡ false
    → has_text (codes "ws://" ++ (chrome cfg ++ codes "/")) path ≡ false
    → has_text (codes "ws://localhost:9222/") (proxied (public_base url) path) ≡ false
    → has_text (codes "ws://127.0.0.1:9222/") (proxied (public_base url) path) ≡ false
    → (parse_ws int (rewrite cfg (public_base url) (page_url cfg path))
        ≡ some (daemon_endpoint url port path))
      × (handshake_lines a (some r) key (daemon_endpoint url port path)
          ≡ (codes "GET /v1/cdp/ws/" ++ (path ++ codes " HTTP/1.1"))
            ∷ (codes "Host: " ++ url.netloc)
            ∷ codes "Upgrade: websocket"
            ∷ codes "Connection: Upgrade"
            ∷ (codes "Sec-WebSocket-Key: " ++ key)
            ∷ codes "Sec-WebSocket-Version: 13"
            ∷ codes "Origin: http://127.0.0.1:9222"
            ∷ (codes "Authorization: Bearer " ++ cfg.bearer_token)
            ∷ [])
      × (cdp_ws cfg decode connects
            (some (codes "Bearer " ++ cfg.bearer_token))
            (path_of (daemon_endpoint url port path).path)
            events
          ≡ accept
            ∷ dial (page_url cfg path) chrome_origin
            ∷ (if connects (page_url cfg path)
                then bridge decode events
                else close_client 1011 ∷ []))
rewrite-dial cfg url a r int decode connects events path key port path_of gives is_plain has_token
      token plain has_port start own local loop =
    (
      ap (parse_ws int) (rewrite-page cfg (public_base url) path own local loop)
          ∙ parse_ws-proxied int url path port plain has_port,
      handshake_lines-bearer a r key (daemon_endpoint url port path) cfg.bearer_token has_token
          token,
      ap (λ p. cdp_ws cfg decode connects (some (codes "Bearer " ++ cfg.bearer_token)) p events)
            (gives path is_plain)
          ∙ cdp_ws-page cfg decode connects path events token start,
    )
