-- ===== src/Daemon/CdpProxy.antt =====
-- prax_sandbox/daemon/cdp_proxy.py: the proxy of Chrome's DevTools as the list of what it does. The
-- connection to Chrome, httpx, json.loads and the decoding of bytes are parameters.
mod Laws
mod Tests
use prax_sandbox.Base.{
  ℕ, zero, suc, ◌-◌, Bool, true, false, not, ◌||◌, List, [], ◌∷◌, ◌++◌, Option, none, some,
  if◌then◌else◌, ◌==◌, nat_eq, length, take, contains,
}
use prax_sandbox.Text.{Text, codes, text_eq, lstrip, starts_with, decimal}
use prax_sandbox.Text.Replace.{replace}
use prax_sandbox.Daemon.Auth.{check_bearer}

-- The configuration that is read here.
pub record CdpConfig : Type 0 where
  pub cdp_host : Text
  pub cdp_port : ℕ
  pub bearer_token : Text

abbrev pub chrome : CdpConfig → Text
chrome cfg = cfg.cdp_host ++ (codes ":" ++ decimal cfg.cdp_port)

abbrev pub chrome_origin : Text
chrome_origin = codes "http://127.0.0.1:9222"

abbrev pub upstream_url : CdpConfig → Text → Text
upstream_url cfg path = codes "ws://" ++ (chrome cfg ++ (codes "/" ++ lstrip (λ c. c == b'/') path))

pub data Frame : Type 0 where
  text_frame bytes_frame : Text → Frame

-- What happens to the two sides; the last one is the end of either, or an error of its own.
pub data BridgeEvent : Type 0 where
  from_client : Text → BridgeEvent
  from_upstream : Frame → BridgeEvent
  one_ended : BridgeEvent

pub data ProxyEffect : Type 0 where
  accept : ProxyEffect
  close_client : ℕ → ProxyEffect
  -- The URL and the origin.
  dial : Text → Text → ProxyEffect
  to_upstream to_client : Text → ProxyEffect
  close_upstream : ProxyEffect

abbrev pub text_of : (Text → Text) → Frame → Text
text_of decode (text_frame t) = t
text_of decode (bytes_frame b) = decode b

-- `_bridge`
unfoldable pub bridge : (Text → Text) → List BridgeEvent → List ProxyEffect
bridge decode [] = []
bridge decode (from_client m ∷ events) = to_upstream m ∷ bridge decode events
bridge decode (from_upstream f ∷ events) = to_client (text_of decode f) ∷ bridge decode events
bridge decode (one_ended ∷ events) = close_upstream ∷ []

-- `connects` tells whether `websockets.connect` raises no exception.
unfoldable pub cdp_ws :
    CdpConfig
    → (Text → Text)
    → (Text → Bool)
    → Option Text
    → Text
    → List BridgeEvent
    → List ProxyEffect
unfolding bridge
cdp_ws cfg decode connects authorization path events =
    if not (check_bearer authorization cfg.bearer_token)
    then close_client 1008 ∷ []
    else (let url = upstream_url cfg path in
        accept
        ∷ dial url chrome_origin
        ∷ (if connects url then bridge decode events else close_client 1011 ∷ []))

-- The three addresses of Chrome in turn.
unfoldable pub rewrite : CdpConfig → Text → Text → Text
unfolding replace
rewrite cfg public_base body =
    let proxy = public_base ++ codes "/v1/cdp/ws/" in
    replace (codes "ws://127.0.0.1:9222/") proxy (
      replace (codes "ws://localhost:9222/") proxy
        (replace (codes "ws://" ++ (chrome cfg ++ codes "/")) proxy body))

-- `request.url`, as far as it is read.
pub record Url : Type 0 where
  pub scheme : Text
  pub netloc : Text
  pub path : Text

abbrev pub public_base : Url → Text
public_base url =
    (if contains (codes "https" ∷ codes "wss" ∷ []) url.scheme then codes "wss" else codes "ws")
    ++ (codes "://" ++ url.netloc)

pub data JsonReply (J : Type 0) : Type 0 where
  unreachable : JsonReply J
  parsed : J → JsonReply J
  -- Under `raw`.
  raw : Text → JsonReply J

abbrev safe_json : {J : Type 0} → (Text → Option J) → Text → JsonReply J
safe_json loads text = elim (loads text) [ none ↦ raw (take 2000 text) | some j ↦ parsed j ]

-- After the bearer check; `get` is httpx, with the URL and the Host header, `none` an exception.
unfoldable cdp_json :
    {J : Type 0} → CdpConfig → (Text → Text → Option Text) → (Text → Option J) → Url → JsonReply J
unfolding replace rewrite
cdp_json cfg get loads url =
    let upstream = codes "http://" ++ (chrome cfg ++ replace (codes "/v1/cdp") [] url.path) in
    elim (get upstream (chrome cfg)) [
      | none ↦ unreachable
      | some body ↦ safe_json loads (rewrite cfg (public_base url) body)
    ]
