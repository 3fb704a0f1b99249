-- ===== src/Cdp/Frames/Tests.antt =====
-- Frames on concrete bytes, and the theorem about them there.
use prax_sandbox.Base.{◌≡◌, refl, [], ◌∷◌, ◌++◌, arith}
use prax_sandbox.Text.{codes}
use prax_sandbox.Cdp.Frames.{
  Bytes, xor, Mask, apply_mask, pack, unpack, length_bytes, ws_send, connection_closed,
  closed_by_server, text_frame, other_frame, read_exact, read_length, read_payload, after_length,
  ws_recv,
}
use prax_sandbox.Cdp.Frames.RoundTrip.{ws_recv-ws_send}

frames_run : Unit {0}
unfolding xor apply_mask pack unpack length_bytes ws_send read_exact read_length read_payload
    after_length ws_recv
frames_run = tt

abbrev mask : Mask
mask = record { m0 = 0x37; m1 = 0xfa; m2 = 0x21; m3 = 0x3d }

abbrev hello : Bytes
hello = 0x81 ∷ 0x85 ∷ 0x37 ∷ 0xfa ∷ 0x21 ∷ 0x3d ∷ 0x7f ∷ 0x9f ∷ 0x4d ∷ 0x51 ∷ 0x58 ∷ []

-- The masked text of RFC 6455, an unmasked one, a ping, a close and an end inside a frame.
frame_tests :
    (ws_send mask (codes "Hello") ≡ hello)
    × (ws_recv hello ≡ (text_frame (codes "Hello"), []))
    × (ws_recv (0x81 ∷ 2 ∷ codes "ab" ++ (1 ∷ [])) ≡ (text_frame (codes "ab"), 1 ∷ []))
    × (ws_recv (0x89 ∷ 0 ∷ []) ≡ (other_frame, []))
    × (ws_recv (0x88 ∷ 0 ∷ []) ≡ (closed_by_server, []))
    × (ws_recv (0x81 ∷ 126 ∷ 0 ∷ []) ≡ (connection_closed, []))
unfolding frames_run
frame_tests = (refl, refl, refl, refl, refl, refl)

ws_recv-ws_send_example :
    ws_recv (ws_send mask (codes "Hello") ++ (7 ∷ [])) ≡ (text_frame (codes "Hello"), 7 ∷ [])
ws_recv-ws_send_example = ws_recv-ws_send mask (codes "Hello") (7 ∷ []) (ground arith) (omega arith)
