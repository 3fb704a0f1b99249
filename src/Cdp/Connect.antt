-- ===== src/Cdp/Connect.antt =====
-- The WebSocket handshake: `_ws_connect` of prax_sandbox/cdp_service.py. `int` is a parameter, `none`
-- for its exception, and so is the connection: the chunks that the peer will give, `none` for an
-- exception of the connection or of TLS.
use prax_sandbox.Base.{
  ℕ, Bool, true, false, List, [], ◌∷◌, ◌++◌, Option, none, some, if◌then◌else◌, is_empty, drop,
}
use prax_sandbox.Text.{
  Text, codes, text_eq, decimal, starts_with, has_text, partition, split_crlf, join, crlf,
}
use prax_sandbox.Cdp.Targets.{TlsVerify, verified, Remote, SslContext, ssl_context, CdpAddress}

pub record Endpoint : Type 0 where
  pub secure : Bool
  pub host_port : Text
  pub host : Text
  pub port : ℕ
  pub path : Text

abbrev pub default_port : Bool → ℕ
default_port secure = if secure then 443 else 80

abbrev pub endpoint_at : Bool → Text → Text → Text → Option ℕ → Option Endpoint
endpoint_at secure host_port host path none = none
endpoint_at secure host_port host path (some port) =
    some record { secure = secure; host_port = host_port; host = host; port = port; path = path }

-- The number after the first colon, or the default one.
abbrev pub port_of : (Text → Option ℕ) → Bool → Text → Option ℕ
port_of int secure host_port =
    let (_, has_port, port) = partition (codes ":") host_port in
    if has_port then int port else some (default_port secure)

abbrev pub host_of : Text → Text
host_of host_port = (partition (codes ":") host_port).0

-- The host and the port, and the path with its slash.
unfoldable pub endpoint_of : (Text → Option ℕ) → Bool → Text → Option Endpoint
endpoint_of int secure rest =
    let (host_port, _, tail) = partition (codes "/") rest in
    endpoint_at secure host_port (host_of host_port) (codes "/" ++ tail)
      (port_of int secure host_port)

-- `none` for a ValueError.
unfoldable pub parse_ws : (Text → Option ℕ) → Text → Option Endpoint
unfolding endpoint_of
parse_ws int url =
    if starts_with (codes "wss://") url
    then endpoint_of int true (drop 6 url)
    else if starts_with (codes "ws://") url
    then endpoint_of int false (drop 5 url)
    else none

-- Only the TLS of a daemon may be told not to verify.
abbrev pub tls_of : Option Remote → TlsVerify
tls_of none = verified
tls_of (some r) = r.tls_verify

abbrev pub context_of : Option Remote → Endpoint → Option SslContext
context_of r e = if e.secure then some (ssl_context (tls_of r)) else none

abbrev pub host_line : CdpAddress → Option Remote → Endpoint → Text
host_line a none e = codes "Host: 127.0.0.1:" ++ decimal a.port
host_line a (some r) e = codes "Host: " ++ e.host_port

abbrev pub bearer_line : Option Text → List Text
bearer_line none = []
bearer_line (some token) =
    if is_empty token then [] else (codes "Authorization: Bearer " ++ token) ∷ []

abbrev pub auth_lines : Option Remote → List Text
auth_lines none = []
auth_lines (some r) = bearer_line r.token

-- `key` is the random one, in base 64.
unfoldable pub handshake_lines : CdpAddress → Option Remote → Text → Endpoint → List Text
handshake_lines a r key e =
    (codes "GET " ++ (e.path ++ codes " HTTP/1.1"))
    ∷ host_line a r e
    ∷ codes "Upgrade: websocket"
    ∷ codes "Connection: Upgrade"
    ∷ (codes "Sec-WebSocket-Key: " ++ key)
    ∷ codes "Sec-WebSocket-Version: 13"
    ∷ codes "Origin: http://127.0.0.1:9222"
    ∷ auth_lines r

abbrev pub handshake : CdpAddress → Option Remote → Text → Endpoint → Text
handshake a r key e = join crlf (handshake_lines a r key e) ++ (crlf ++ crlf)

-- What is read until the head is whole, and the chunks after it; an empty chunk is the end.
unfoldable pub read_response : Text → List Text → Option (Text × List Text)
read_response buf [] = if has_text (crlf ++ crlf) buf then some (buf, []) else none
read_response buf (chunk ∷ chunks) =
    let more = read_response (buf ++ chunk) chunks in
    if has_text (crlf ++ crlf) buf
    then some (buf, chunk ∷ chunks)
    else if is_empty chunk
    then none
    else more

abbrev pub first_of : List Text → Text
first_of [] = []
first_of (line ∷ _) = line

abbrev pub is_accepted : Text → Bool
is_accepted buf = has_text (codes "101") (first_of (split_crlf buf))

pub data SocketEffect : Type 0 where
  dial : Endpoint → Option SslContext → SocketEffect
  -- Bytes, of the handshake or of a frame.
  send_handshake send_frame : Text → SocketEffect
  close_socket : SocketEffect

pub data Connection : Type 0 where
  -- A ValueError or a ConnectionError.
  not_connected : Connection
  -- What the peer will give.
  connected : List Text → Connection

abbrev pub after_response : Option (Text × List Text) → Connection
after_response none = not_connected
after_response (some (buf, chunks)) = if is_accepted buf then connected chunks else not_connected

-- What the peer gives, `none` where there is no connection to it.
abbrev pub after_dial :
    CdpAddress
    → Option Remote
    → Text
    → Endpoint
    → Option (List Text)
    → List SocketEffect × Connection
after_dial a r key e none = (dial e (context_of r e) ∷ [], not_connected)
after_dial a r key e (some chunks) = (
  dial e (context_of r e) ∷ send_handshake (handshake a r key e) ∷ [],
  after_response (read_response [] chunks),
)

abbrev pub connect_to :
    (Endpoint → Option (List Text))
    → CdpAddress
    → Option Remote
    → Text
    → Option Endpoint
    → List SocketEffect × Connection
connect_to connects a r key none = ([], not_connected)
connect_to connects a r key (some e) = after_dial a r key e (connects e)

unfoldable pub ws_connect :
    (Text → Option ℕ)
    → (Endpoint → Option (List Text))
    → CdpAddress
    → Option Remote
    → Text
    → Text
    → List SocketEffect × Connection
unfolding parse_ws read_response handshake_lines
ws_connect int connects a r key url = connect_to connects a r key (parse_ws int url)
