-- ===== src/Cdp/Send.antt =====
-- `_send_cdp` of prax_sandbox/cdp_service.py, from the page to the reply. json.dumps is a parameter.
pub mod Opened
pub mod Own
pub mod Proxied
mod Tests
use prax_sandbox.Base.{
  ℕ, zero, suc, ◌+◌, Bool, true, false, List, [], ◌∷◌, ◌++◌, Option, none, some,
}
use prax_sandbox.Text.{Text}
use prax_sandbox.Cdp.Frames.{Bytes, Mask, ws_send}
use prax_sandbox.Cdp.Replies.{Message, Reply, cdp_error, replied, timed_out, failed, wait_reply}
use prax_sandbox.Cdp.Targets.{
  HttpRequest, Json, Remote, CdpAddress, Discovered, no_page, no_url, found, discover_ws_url,
}
use prax_sandbox.Cdp.Connect.{
  Endpoint, SocketEffect, send_frame, close_socket, Connection, not_connected, connected,
  ws_connect,
}

pub data Sent : Type 0 where
  not_reachable : Sent
  -- The KeyError of a page with no address is not caught.
  key_error : Sent
  reply : Reply → Sent

-- What is outside: HTTP, JSON, `int`, the connections, the random numbers, and what the tests
-- against the deadline give.
pub record Outside : Type 0 where
  pub urlopen : HttpRequest → Option Text
  pub loads_targets : Text → Option Json
  pub int : Text → Option ℕ
  pub connects : Endpoint → Option (List Text)
  pub key : Text
  pub mask : Mask
  pub loads : Bytes → Option Message
  -- The id, the method and the parameters.
  pub dumps : ℕ → Text → Text → Bytes
  pub clock : List Bool

abbrev pub concat : List Text → Text
concat [] = []
concat (t ∷ ts) = t ++ concat ts

-- An exception leaves the socket open.
abbrev pub closes : Reply → List SocketEffect
closes failed = []
closes _ = close_socket ∷ []

abbrev pub on_connection :
    Outside → ℕ → Text → Text → List SocketEffect × Connection → List SocketEffect × Reply
on_connection o id method params (effects, not_connected) = (effects, failed)
on_connection o id method params (effects, connected chunks) =
    let r = wait_reply o.loads id o.clock (concat chunks) in
    (effects ++ (send_frame (ws_send o.mask (o.dumps id method params)) ∷ closes r), r)

abbrev pub with_reply : ℕ → List SocketEffect × Reply → ℕ × List SocketEffect × Sent
with_reply counter (effects, r) = (counter, effects, reply r)

abbrev pub on_discovered :
    Outside
    → CdpAddress
    → Option Remote
    → ℕ
    → Text
    → Text
    → Discovered
    → ℕ × List SocketEffect × Sent
on_discovered o a r counter method params no_page = (counter, [], not_reachable)
on_discovered o a r counter method params no_url = (counter, [], key_error)
on_discovered o a r counter method params (found []) = (counter, [], not_reachable)
on_discovered o a r counter method params (found (c ∷ url)) =
    with_reply (suc counter) (
      on_connection o (suc counter) method params (ws_connect o.int o.connects a r o.key (c ∷ url)))

-- `counter` is `_msg_counter`, before and after.
unfoldable pub send_cdp :
    Outside → CdpAddress → Option Remote → ℕ → Text → Text → ℕ × List SocketEffect × Sent
unfolding discover_ws_url ws_connect wait_reply
send_cdp o a r counter method params =
    on_discovered o a r counter method params (discover_ws_url o.urlopen o.loads_targets a r)
