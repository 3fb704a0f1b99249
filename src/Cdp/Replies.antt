-- ===== src/Cdp/Replies.antt =====
-- Waiting for the reply to a command: the loop of `_send_cdp` in prax_sandbox/cdp_service.py. The
-- clock is the list of what its tests against the deadline give; `json.loads` on the bytes of a text
-- is a parameter, `none` for its exception. A result is its JSON text.
pub mod Own
mod Tests
use prax_sandbox.Base.{
  ℕ, Bool, true, false, List, [], ◌∷◌, Option, none, some, if◌then◌else◌, ◌==◌, nat_eq,
}
use prax_sandbox.Text.{Text}
use prax_sandbox.Cdp.Frames.{
  Bytes, Received, connection_closed, closed_by_server, text_frame, other_frame, ws_recv,
}

-- The fields of a message that are read: the error's message, and the result, `{}` if it has none.
pub record Message : Type 0 where
  pub id : Option ℕ
  pub error : Option Text
  pub result : Text

pub data Reply : Type 0 where
  cdp_error replied : Text → Reply
  timed_out failed : Reply

abbrev pub has_id : Message → ℕ → Bool
has_id m id = elim m.id [ none ↦ false | some i ↦ i == id ]

abbrev pub reply_of : Message → Reply
reply_of m = elim m.error [ some text ↦ cdp_error text | none ↦ replied m.result ]

-- A text that was read: an empty one and one with another id are passed over.
unfoldable pub on_text : (Bytes → Option Message) → ℕ → Bytes → Reply → Reply
on_text loads id [] later = later
on_text loads id (b ∷ bs) later = elim (loads (b ∷ bs)) [
  | none ↦ failed
  | some m ↦ if has_id m id then reply_of m else later
]

unfoldable pub on_frame : (Bytes → Option Message) → ℕ → Received → Reply → Reply
unfolding on_text
on_frame loads id connection_closed later = failed
on_frame loads id closed_by_server later = failed
on_frame loads id other_frame later = later
on_frame loads id (text_frame text) later = on_text loads id text later

unfoldable pub wait_reply : (Bytes → Option Message) → ℕ → List Bool → Bytes → Reply
wait_reply loads id [] socket = timed_out
wait_reply loads id (in_time ∷ clock) socket =
    let (frame, left) = ws_recv socket in
    let later = wait_reply loads id clock left in
    if in_time then on_frame loads id frame later else timed_out
