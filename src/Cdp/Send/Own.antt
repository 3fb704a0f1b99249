-- ===== src/Cdp/Send/Own.antt =====
-- A whole command of `_send_cdp` in prax_sandbox/cdp_service.py, from the page to the reply.
use prax_sandbox.Base.{
  ℕ, suc, ◌≡◌, ◌≢◌, refl, Bool, true, List, [], ◌∷◌, ◌++◌, Option, some, All, inl, inr,
  Option-cases,
}
use prax_sandbox.Text.{Text}
use prax_sandbox.Cdp.Replies.{Message, has_id, reply_of}
use prax_sandbox.Cdp.Replies.Own.{Frame, all_bytes, in_time_for, IsForeign, wait_reply-own}
use prax_sandbox.Cdp.Targets.{Remote, CdpAddress, found, discover_ws_url}
use prax_sandbox.Cdp.Connect.{SocketEffect, send_frame, close_socket, connected, ws_connect}
use prax_sandbox.Cdp.Send.{Outside, reply, send_cdp, concat, closes}
use prax_sandbox.Cdp.Send.Opened.{command_frame}

closes-reply_of : (m : Message) → closes (reply_of m) ≡ close_socket ∷ []
closes-reply_of m = elim (Option-cases m.error) [ inl e ↦ rw e refl | inr (t, e) ↦ rw e refl ]

-- The reply that is found by the command's own number is what `_send_cdp` returns, after it has sent
-- that command alone and closed the socket: where there is a page, the handshake succeeds, and what
-- the peer gives after it is texts for others, and then the own reply, all in time.
pub send_cdp-own :
    (o : Outside) (a : CdpAddress) (r : Option Remote) (counter : ℕ) (method params : Text) (c : ℕ)
    (url : Text) (effects : List SocketEffect) (chunks : List Text) (others : List Frame)
    (own : Frame) (m : Message) (clock : List Bool) (rest : Text)
    → discover_ws_url o.urlopen o.loads_targets a r ≡ found (c ∷ url)
    → ws_connect o.int o.connects a r o.key (c ∷ url) ≡ (effects, connected chunks)
    → concat chunks ≡ all_bytes others ++ (own.bytes ++ rest)
    → o.clock ≡ in_time_for others (true ∷ clock)
    → All (IsForeign o.loads (suc counter)) others
    → own.payload ≢ []
    → o.loads own.payload ≡ some m
    → has_id m (suc counter) ≡ true
    → send_cdp o a r counter method params ≡ (
      suc counter,
      effects ++ (send_frame (command_frame o a r counter method params) ∷ close_socket ∷ []),
      reply (reply_of m),
    )
unfolding send_cdp
send_cdp-own o a r counter method params c url effects chunks others own m clock rest page opens
      gives in_time foreign filled e is =
    let waits = wait_reply-own o.loads (suc counter) others own m clock rest foreign filled e is in
    rw (page, opens, gives, in_time, waits, closes-reply_of m) refl
