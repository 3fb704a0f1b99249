-- ===== src/Cdp/Replies/Tests.antt =====
-- Replies that come after an event.
use prax_sandbox.Base.{
  ◌≡◌, refl, ◌==◌, if◌then◌else◌, true, false, [], ◌∷◌, ◌++◌, Option, none, some, arith,
}
use prax_sandbox.Text.{codes, text_eq, text_beq}
use prax_sandbox.Cdp.Frames.{
  Bytes, Mask, xor, apply_mask, pack, unpack, length_bytes, ws_send, read_exact, read_length,
  read_payload, after_length, ws_recv,
}
use prax_sandbox.Cdp.Frames.RoundTrip.{ws_recv-ws_send}
use prax_sandbox.Cdp.Replies.{Message, replied, timed_out, failed, on_text, on_frame, wait_reply}
use prax_sandbox.Cdp.Replies.Own.{Frame}

abbrev no_mask : Mask
no_mask = record { m0 = 0; m1 = 0; m2 = 0; m3 = 0 }

-- `ev` has no id, and `ok` is the reply to command 4.
abbrev event : Message
event = record { id = none; error = none; result = codes "{}" }

abbrev done : Message
done = record { id = some 4; error = none; result = codes "1" }

abbrev loads : Bytes → Option Message
loads s = if s == codes "ev" then some event else if s == codes "ok" then some done else none

abbrev frame_ev : Frame
frame_ev = record {
  bytes = ws_send no_mask (codes "ev");
  payload = codes "ev";
  reads = λ rest. ws_recv-ws_send no_mask (codes "ev") rest (ground arith) (omega arith);
}

abbrev frame_ok : Frame
frame_ok = record {
  bytes = ws_send no_mask (codes "ok");
  payload = codes "ok";
  reads = λ rest. ws_recv-ws_send no_mask (codes "ok") rest (ground arith) (omega arith);
}

replies_run : Unit {0}
unfolding text_beq xor apply_mask pack unpack length_bytes ws_send read_exact read_length
    read_payload after_length ws_recv on_text on_frame wait_reply
replies_run = tt

reply_tests :
    (wait_reply loads 4 (true ∷ true ∷ []) (frame_ev.bytes ++ frame_ok.bytes) ≡ replied (codes "1"))
    × (wait_reply loads 4 (true ∷ false ∷ []) (frame_ev.bytes ++ frame_ok.bytes) ≡ timed_out)
    × (wait_reply loads 4 (true ∷ true ∷ []) frame_ev.bytes ≡ failed)
unfolding replies_run
reply_tests = (refl, refl, refl)
