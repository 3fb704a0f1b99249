-- ===== src/Cdp/Send/Tests.antt =====
-- Commands to a page in Chrome, and the theorems about them there.
use prax_sandbox.Base.{
  ◌≡◌, refl, true, false, ◌==◌, if◌then◌else◌, List, [], ◌∷◌, ◌++◌, Option, none, some, inl, inr,
  Elem, nat_eq, arith,
}
use prax_sandbox.Text
use prax_sandbox.Text.{Text, codes, text_eq, crlf}
use prax_sandbox.Cdp.Frames.{
  Bytes, Mask, xor, apply_mask, pack, unpack, length_bytes, ws_send, read_exact, read_length,
  read_payload, after_length, ws_recv,
}
use prax_sandbox.Cdp.Frames.RoundTrip.{ws_recv-ws_send}
use prax_sandbox.Cdp.Replies.{Message, replied, failed, on_text, on_frame, wait_reply}
use prax_sandbox.Cdp.Replies.Own.{Frame}
use prax_sandbox.Cdp.Targets.{
  CdpAddress, Target, target_list, verified, remote, found, discover_ws_url, is_available, ca_file,
}
use prax_sandbox.Cdp.Connect.{
  Endpoint, endpoint_of, parse_ws, read_response, handshake_lines, ws_connect, handshake, connected,
  dial, send_handshake, send_frame, close_socket,
}
use prax_sandbox.Cdp.Send.{Outside, send_cdp, reply, not_reachable, key_error}
use prax_sandbox.Cdp.Send.Opened.{IsOpened, send_cdp-IsOpened, command_frame}
use prax_sandbox.Cdp.Send.Own.{send_cdp-own}

send_runs : Unit {0}
unfolding Text.text_beq Text.lower Text.cut Text.starts_with Text.has_text Text.lstrip Text.rstrip
    Text.strip Text.split_crlf Text.join Text.decimal xor apply_mask pack unpack length_bytes
    ws_send read_exact read_length read_payload after_length ws_recv on_text on_frame wait_reply
    remote discover_ws_url is_available endpoint_of parse_ws read_response handshake_lines
    ws_connect send_cdp
send_runs = tt

abbrev no_mask : Mask
no_mask = record { m0 = 0; m1 = 0; m2 = 0; m3 = 0 }

abbrev at : CdpAddress
at = record { host = codes "box"; port = 9223 }

abbrev tab : Text → Target
tab url = record { type = some (codes "page"); ws_url = some url }

abbrev worker : Target
worker = record { type = some (codes "worker"); ws_url = none }

abbrev done : Message
done = record { id = some 4; error = none; result = codes "1" }

abbrev loads : Bytes → Option Message
loads s = if s == codes "ok" then some done else none

abbrev frame_ok : Frame
frame_ok = record {
  bytes = ws_send no_mask (codes "ok");
  payload = codes "ok";
  reads = λ rest. ws_recv-ws_send no_mask (codes "ok") rest (ground arith) (omega arith);
}

-- The bytes after the head in its own chunk are lost.
abbrev chunks : List Text
chunks = codes "HTTP/1.1 101 S" ∷ (crlf ++ (crlf ++ codes "lost")) ∷ frame_ok.bytes ∷ []

abbrev outside : List Target → Outside
outside targets = record {
  urlopen = λ request. some request.url;
  loads_targets = λ body. some (target_list targets);
  int = λ t. if t == codes "9223" then some 9223 else none;
  connects = λ e. some chunks;
  key = codes "k";
  mask = no_mask;
  loads = loads;
  dumps = λ id method params. method;
  clock = true ∷ [];
}

abbrev tabs : List Target
tabs = tab (codes "ws://x/a") ∷ tab (codes "ws://localhost:9222/b") ∷ worker ∷ []

abbrev endpoint : Endpoint
endpoint = record {
  secure = false;
  host_port = codes "box:9223";
  host = codes "box";
  port = 9223;
  path = codes "/b";
}

abbrev run_frame : Text
run_frame = ws_send no_mask (codes "run")

send_tests :
    (send_cdp (outside tabs) at none 3 (codes "run") [] ≡ (
      4,
      dial endpoint none
          ∷ send_handshake (handshake at none (codes "k") endpoint)
          ∷ send_frame run_frame
          ∷ close_socket
          ∷ [],
      reply (replied (codes "1")),
    ))
    × (send_cdp (outside (worker ∷ [])) at none 3 (codes "run") [] ≡ (3, [], not_reachable))
    × (send_cdp
          (outside (record { type = some (codes "page"); ws_url = none } ∷ []))
          at
          none
          3
          (codes "run")
          []
        ≡ (3, [], key_error))
    × (send_cdp (outside (tab (codes "http://x/") ∷ [])) at none 3 (codes "run") []
        ≡ (4, [], reply failed))
    × (is_available (outside []).urlopen (outside []).loads_targets at none ≡ false)
    × (remote record {
      daemon_url = some (codes "https://d/");
      daemon_token = none;
      tls_verify = verified;
    }
        ≡ some record { base = codes "https://d"; token = none; tls_verify = verified })
    × (remote record { daemon_url = some (codes " "); daemon_token = none; tls_verify = ca_file [] }
        ≡ none)
unfolding send_runs
send_tests = (refl, refl, refl, refl, refl, refl, refl)

frame_sent : Elem (send_frame run_frame) (send_cdp (outside tabs) at none 3 (codes "run") []).1
unfolding send_runs
frame_sent = inr (inr (inl refl))

send_cdp-IsOpened_example :
    IsOpened
      (outside tabs)
      at
      none
      3
      (codes "run")
      []
      (discover_ws_url (outside tabs).urlopen (outside tabs).loads_targets at none)
      (send_cdp (outside tabs) at none 3 (codes "run") []).1
send_cdp-IsOpened_example = send_cdp-IsOpened (outside tabs) at none 3 (codes "run") []

page_found :
    discover_ws_url (outside tabs).urlopen (outside tabs).loads_targets at none
    ≡ found (codes "ws://box:9223/b")
unfolding send_runs
page_found = refl

opens :
    ws_connect
      (outside tabs).int
      (outside tabs).connects
      at
      none
      (codes "k")
      (codes "ws://box:9223/b")
    ≡ (
      dial endpoint none ∷ send_handshake (handshake at none (codes "k") endpoint) ∷ [],
      connected (frame_ok.bytes ∷ []),
    )
unfolding send_runs
opens = refl

ok_read : loads (codes "ok") ≡ some done
unfolding send_runs
ok_read = refl

send_cdp-own_example : send_cdp (outside tabs) at none 3 (codes "run") [] ≡ (
  4,
  (dial endpoint none ∷ send_handshake (handshake at none (codes "k") endpoint) ∷ [])
      ++ (send_frame (command_frame (outside tabs) at none 3 (codes "run") []) ∷ close_socket ∷ []),
  reply (replied (codes "1")),
)
send_cdp-own_example =
    send_cdp-own (outside tabs) at none 3 (codes "run") [] b'w' (codes "s://box:9223/b")
      (dial endpoint none ∷ send_handshake (handshake at none (codes "k") endpoint) ∷ [])
      (frame_ok.bytes ∷ []) [] frame_ok done [] [] page_found opens refl refl tt (λ e. cc) ok_read
      refl
