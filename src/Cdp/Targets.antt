-- ===== src/Cdp/Targets.antt =====
-- Which page of which Chrome: `_remote`, `_ssl_context`, `_cdp_http`, `is_available` and
-- `_discover_ws_url` of prax_sandbox/cdp_service.py. urlopen and json.loads are parameters.
use prax_sandbox.Base.{
  ℕ, Bool, true, false, List, [], ◌∷◌, ◌++◌, Option, none, some, if◌then◌else◌, ◌==◌, is_empty,
  nat_eq, keep,
}
use prax_sandbox.Text.{Text, codes, text_eq, strip, rstrip, is_space, decimal, starts_with}
use prax_sandbox.Text.Replace.{replace}

-- `tls_verify`: true, false, or the path of a CA bundle.
pub data TlsVerify : Type 0 where
  verified unverified : TlsVerify
  ca_file : Text → TlsVerify

-- The fields of the configuration that are read.
pub record ClientConfig : Type 0 where
  pub daemon_url : Option Text
  pub daemon_token : Option Text
  pub tls_verify : TlsVerify

pub record Remote : Type 0 where
  pub base : Text
  pub token : Option Text
  pub tls_verify : TlsVerify

-- `text or ""`
abbrev pub or_blank : Option Text → Text
or_blank none = []
or_blank (some text) = text

-- `_remote`
abbrev pub remote_of : ClientConfig → Text → Option Remote
remote_of cfg url =
    if is_empty (strip is_space url)
    then none
    else some record {
      base = rstrip (λ c. c == b'/') url;
      token = cfg.daemon_token;
      tls_verify = cfg.tls_verify;
    }

unfoldable pub remote : ClientConfig → Option Remote
remote cfg = remote_of cfg (or_blank cfg.daemon_url)

pub data SslContext : Type 0 where
  -- Neither the name nor the certificate is checked.
  no_checks : SslContext
  -- With the CA bundle.
  default_context : Option Text → SslContext

abbrev pub ssl_context : TlsVerify → SslContext
ssl_context verified = default_context none
ssl_context unverified = no_checks
ssl_context (ca_file path) = default_context (some path)

-- `SANDBOX_HOST` and `CDP_PORT`.
pub record CdpAddress : Type 0 where
  pub host : Text
  pub port : ℕ

pub record HttpRequest : Type 0 where
  pub url : Text
  pub headers : List (Text × Text)
  pub context : Option SslContext

abbrev pub daemon_request : Remote → Text → HttpRequest
daemon_request r path = record {
  url = r.base ++ (codes "/v1/cdp" ++ path);
  headers = (codes "Authorization", codes "Bearer " ++ or_blank r.token) ∷ [];
  context = if starts_with (codes "https") r.base then some (ssl_context r.tls_verify) else none;
}

abbrev pub local_request : CdpAddress → Text → HttpRequest
local_request a path = record {
  url = codes "http://" ++ (a.host ++ (codes ":" ++ (decimal a.port ++ path)));
  headers = (codes "Host", codes "127.0.0.1:" ++ decimal a.port) ∷ [];
  context = none;
}

abbrev pub cdp_request : CdpAddress → Option Remote → Text → HttpRequest
cdp_request a none path = local_request a path
cdp_request a (some r) path = daemon_request r path

-- `urlopen` and the body that it reads, `none` an exception; `loads`, `none` an exception or `null`.
unfoldable pub cdp_http :
    {J : Type 0}
    → (HttpRequest → Option Text)
    → (Text → Option J)
    → CdpAddress
    → Option Remote
    → Text
    → Option J
cdp_http urlopen loads a r path = elim (urlopen (cdp_request a r path)) [
  | none ↦ none
  | some body ↦ loads body
]

-- A target, with `type` and `webSocketDebuggerUrl` where it has them.
pub record Target : Type 0 where
  pub type : Option Text
  pub ws_url : Option Text

pub data Json : Type 0 where
  target_list : List Target → Json
  object other_json : Json

abbrev pub is_object : Option Json → Bool
is_object (some object) = true
is_object _ = false

-- `is_available`
unfoldable pub is_available :
    (HttpRequest → Option Text) → (Text → Option Json) → CdpAddress → Option Remote → Bool
unfolding cdp_http
is_available urlopen loads a r = is_object (cdp_http urlopen loads a r (codes "/json/version"))

abbrev pub is_page : Target → Bool
is_page t = elim t.type [ none ↦ false | some type ↦ type == codes "page" ]

-- `pages[-1]`, `none` for no pages
abbrev pub last_target : List Target → Option Target
last_target [] = none
last_target (t ∷ []) = some t
last_target (t ∷ u ∷ ts) = last_target (u ∷ ts)

pub data Discovered : Type 0 where
  no_page : Discovered
  -- The page has no `webSocketDebuggerUrl`: a KeyError.
  no_url : Discovered
  found : Text → Discovered

-- The daemon's address is used as it is.
unfoldable pub local_url : CdpAddress → Option Remote → Text → Text
unfolding replace
local_url a (some r) url = url
local_url a none url =
    replace (codes ":9222/") (codes ":" ++ (decimal a.port ++ codes "/"))
      (replace (codes "127.0.0.1") a.host (replace (codes "localhost") a.host url))

abbrev pub url_of : CdpAddress → Option Remote → Option Target → Discovered
url_of a r none = no_page
url_of a r (some page) = elim page.ws_url [ none ↦ no_url | some url ↦ found (local_url a r url) ]

abbrev pub page_of : CdpAddress → Option Remote → Option Json → Discovered
page_of a r (some (target_list targets)) = url_of a r (last_target (keep is_page targets))
page_of a r _ = no_page

unfoldable pub discover_ws_url :
    (HttpRequest → Option Text) → (Text → Option Json) → CdpAddress → Option Remote → Discovered
unfolding cdp_http local_url
discover_ws_url urlopen loads a r = page_of a r (cdp_http urlopen loads a r (codes "/json"))
