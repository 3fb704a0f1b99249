-- ===== src/Cdp/Send/Opened.antt =====
-- What `_send_cdp` of prax_sandbox/cdp_service.py does on the network, and when.
use prax_sandbox.Base.{
  sym, ◌∙◌, ℕ, suc, ◌≡◌, refl, inl, inr, true, List, [], ◌∷◌, ◌++◌, Option, none, some, ◌⊎◌,
  Bool-cases, Option-cases, is_empty, arith,
}
use prax_sandbox.Text.{Text, has_text, crlf}
use prax_sandbox.Cdp.Frames.{ws_send}
use prax_sandbox.Cdp.Replies.{Reply, wait_reply}
use prax_sandbox.Cdp.Targets.{
  Remote, CdpAddress, no_page, no_url, found, Discovered, discover_ws_url,
}
use prax_sandbox.Cdp.Connect.{
  Endpoint, context_of, handshake, parse_ws, read_response, is_accepted, SocketEffect, dial,
  send_handshake, send_frame, Connection, not_connected, connected, after_response, ws_connect,
  connect_to, after_dial,
}
use prax_sandbox.Cdp.Send.{Outside, closes, send_cdp, on_connection, on_discovered, concat}

read_response-whole :
    (chunks : List Text) (buf whole : Text) (rest : List Text)
    → read_response buf chunks ≡ some (whole, rest)
    → has_text (crlf ++ crlf) whole ≡ true
unfolding read_response
read_response-whole [] buf whole rest h = elim (Bool-cases (has_text (crlf ++ crlf) buf)) [
  | inl e ↦ ground arith
  | inr e ↦ ground arith
]
read_response-whole (c ∷ cs) buf whole rest h = elim (Bool-cases (has_text (crlf ++ crlf) buf)) [
  | inl e ↦ ground arith
  | inr e ↦ elim (Bool-cases (is_empty c)) [
    | inl e' ↦ ground arith
    | inr e' ↦ read_response-whole cs (buf ++ c) whole rest (rw (e, e', read_response) at h)
  ]
]

module _ (o : Outside) (a : CdpAddress) (r : Option Remote) (counter : ℕ)
    (method params : Text) where
  -- The peer that was dialled has answered with a whole head, whose first line has 101.
  abbrev pub HasAccepted : Endpoint → Type 0
  HasAccepted e =
      (chunks : List Text) × (whole : Text) × (rest : List Text) × (o.connects e ≡ some chunks)
      × (read_response [] chunks ≡ some (whole, rest))
      × (has_text (crlf ++ crlf) whole ≡ true)
      × (is_accepted whole ≡ true)

  abbrev pub command_frame : Text
  command_frame = ws_send o.mask (o.dumps (suc counter) method params)

  -- The effects where the address of a page was found and read as that of a peer: no more than a
  -- dial where there is no connection, no more than the handshake where it was not accepted, and
  -- else one frame, the command's, and the end of the connection.
  abbrev pub IsSent : Endpoint → List SocketEffect → Type 0
  IsSent e effects =
      let dialled = dial e (context_of r e) in
      let shaken = send_handshake (handshake a r o.key e) in
      ((o.connects e ≡ none) × (effects ≡ dialled ∷ []))
      ⊎ (((HasAccepted e → ⊥) × (effects ≡ dialled ∷ shaken ∷ []))
          ⊎ (HasAccepted e
              × (x : Reply) × (effects ≡ dialled ∷ shaken ∷ send_frame command_frame ∷ closes x)))

  -- No page was found, or one whose address is missing, empty, or not read.
  abbrev pub IsNoAddress : Discovered → Type 0
  IsNoAddress no_page = Unit
  IsNoAddress no_url = Unit
  IsNoAddress (found []) = Unit
  IsNoAddress (found (c ∷ url)) = parse_ws o.int (c ∷ url) ≡ none

  abbrev pub IsOpened : Discovered → List SocketEffect → Type 0
  IsOpened x effects =
      (IsNoAddress x × (effects ≡ []))
      ⊎ ((url : Text) × (e : Endpoint) × (x ≡ found url)
          × (parse_ws o.int url ≡ some e)
          × IsSent e effects)

  accepted :
      (e : Endpoint) (chunks rest' : List Text)
      → o.connects e ≡ some chunks
      → after_response (read_response [] chunks) ≡ connected rest'
      → HasAccepted e
  accepted e chunks rest' h h' = elim (Option-cases (read_response [] chunks)) [
    | inl none' ↦ let s : not_connected ≡ connected rest' = rw none' at h' in absurd (apart s)
    | inr ((whole, rest), e') ↦ elim (Bool-cases (is_accepted whole)) [
      | inl y ↦ (chunks, whole, rest, h, e', read_response-whole chunks [] whole rest e', y)
      | inr n ↦ let s : not_connected ≡ connected rest' = rw (e', n) at h' in absurd (apart s)
    ]
  ]
    where
      apart : {cs : List Text} → not_connected ≡ connected cs → ⊥
      apart s = cc

  rejected :
      (e : Endpoint) (chunks : List Text)
      → o.connects e ≡ some chunks
      → after_response (read_response [] chunks) ≡ not_connected
      → HasAccepted e
      → ⊥
  rejected e chunks h h' (given, whole, rest, c, r, _, ok) =
      let same : given ≡ chunks = some_eq (sym c ∙ h) in
      let r' : read_response [] chunks ≡ some (whole, rest) = rw same at r in
      let s : connected rest ≡ not_connected = rw (r', ok) at h' in apart s
    where
      some_eq : {s t : List Text} → some s ≡ some t → s ≡ t
      some_eq e = cc

      apart : {cs : List Text} → connected cs ≡ not_connected → ⊥
      apart s = cc

  abbrev effects_of : List SocketEffect × Connection → List SocketEffect
  effects_of c = (on_connection o (suc counter) method params c).0

  shaken-IsSent :
      (e : Endpoint) (chunks : List Text) (x : Connection)
      → o.connects e ≡ some chunks
      → after_response (read_response [] chunks) ≡ x
      → IsSent e
          (effects_of (dial e (context_of r e) ∷ send_handshake (handshake a r o.key e) ∷ [], x))
  shaken-IsSent e chunks not_connected h h' = inr (inl (rejected e chunks h h', refl))
  shaken-IsSent e chunks (connected left) h h' = inr (
      inr
        (accepted e chunks left h h', wait_reply o.loads (suc counter) o.clock (concat left), refl))

  after_dial-IsSent :
      (e : Endpoint) (x : Option (List Text))
      → o.connects e ≡ x
      → IsSent e (effects_of (after_dial a r o.key e x))
  after_dial-IsSent e none h = inl (h, refl)
  after_dial-IsSent e (some chunks) h =
      shaken-IsSent e chunks (after_response (read_response [] chunks)) h refl

  dialled-IsOpened :
      (c : ℕ) (url : Text) (x : Option Endpoint)
      → parse_ws o.int (c ∷ url) ≡ x
      → IsOpened (found (c ∷ url)) (effects_of (connect_to o.connects a r o.key x))
  dialled-IsOpened c url none h = inl (h, refl)
  dialled-IsOpened c url (some e) h =
      inr (c ∷ url, e, refl, h, after_dial-IsSent e (o.connects e) refl)

  -- All that `_send_cdp` does on the network, once it has looked for a page: nothing, if it has found
  -- none with an address that it can read; else it dials the peer at that address, and sends the
  -- handshake if there is a connection; and if that peer has answered with a whole head whose first
  -- line has 101, it sends one frame, that of its command with the next number, and then nothing but
  -- the end of the connection, if at all.
  pub send_cdp-IsOpened :
      IsOpened
        (discover_ws_url o.urlopen o.loads_targets a r)
        (send_cdp o a r counter method params).1
  unfolding send_cdp ws_connect
  send_cdp-IsOpened = found_opened (discover_ws_url o.urlopen o.loads_targets a r)
    where
      found_opened : (x : Discovered) → IsOpened x (on_discovered o a r counter method params x).1
      found_opened no_page = inl (tt, refl)
      found_opened no_url = inl (tt, refl)
      found_opened (found []) = inl (tt, refl)
      found_opened (found (c ∷ url)) = dialled-IsOpened c url (parse_ws o.int (c ∷ url)) refl
