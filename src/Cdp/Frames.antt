-- ===== src/Cdp/Frames.antt =====
-- WebSocket frames: `_ws_send` and `_ws_recv` in prax_sandbox/cdp_service.py, on the bytes of a text
-- in UTF-8. A socket is the bytes that it will give before it is closed: `_read_exact` asks for no
-- more than it needs, so how they are cut in chunks makes no difference.
pub mod RoundTrip
mod Tests
use prax_sandbox.Base.{
  ℕ, zero, suc, ◌+◌, ◌*◌, ◌/◌, ◌%◌, Bool, true, false, List, [], ◌∷◌, ◌++◌, Option, none, some, ltb,
  if◌then◌else◌, ◌==◌, nat_eq, length,
}

abbrev pub Bytes : Type 0
Bytes = List ℕ

-- `a ^ b` on numbers of so many bits
unfoldable pub xor : ℕ → ℕ → ℕ → ℕ
xor zero a b = 0
xor (suc bits) a b = (a % 2 + b % 2) % 2 + 2 * xor bits (a / 2) (b / 2)

-- The four bytes of a mask.
pub record Mask : Type 0 where
  pub m0 : ℕ
  pub m1 : ℕ
  pub m2 : ℕ
  pub m3 : ℕ

-- `mask[i]` below 4
abbrev pub mask_at : Mask → ℕ → ℕ
mask_at m i = if i == 0 then m.m0 else if i == 1 then m.m1 else if i == 2 then m.m2 else m.m3

-- `bytes(b ^ mask[i % 4] for i, b in enumerate(data))`, from index `i` on
unfoldable pub apply_mask : Mask → ℕ → Bytes → Bytes
apply_mask m i [] = []
apply_mask m i (b ∷ bs) = xor 8 b (mask_at m (i % 4)) ∷ apply_mask m (suc i) bs

-- `struct.pack`, big-endian, in so many bytes, before `rest`
unfoldable pub pack : ℕ → ℕ → Bytes → Bytes
pack zero n rest = rest
pack (suc k) n rest = pack k (n / 256) ((n % 256) ∷ rest)

unfoldable pub unpack : ℕ → Bytes → ℕ
unpack n [] = n
unpack n (b ∷ bs) = unpack (n * 256 + b) bs

abbrev pub mask_bytes : Mask → Bytes
mask_bytes m = m.m0 ∷ m.m1 ∷ m.m2 ∷ m.m3 ∷ []

-- The length with the bit of the mask: in the second byte, or in two or eight more.
unfoldable pub length_bytes : ℕ → Bytes
length_bytes n =
    if ltb n 126
    then (128 + n) ∷ []
    else if ltb n 65536
    then 254 ∷ pack 2 n []
    else 255 ∷ pack 8 n []

unfoldable pub ws_send : Mask → Bytes → Bytes
ws_send m payload =
    0x81 ∷ (length_bytes (length payload) ++ (mask_bytes m ++ apply_mask m 0 payload))

pub data Received : Type 0 where
  -- `ConnectionError`: the socket or the server has closed.
  connection_closed closed_by_server : Received
  text_frame : Bytes → Received
  -- Any other frame is an empty text.
  other_frame : Received

-- `_read_exact`: the bytes, and what is left.
unfoldable pub read_exact : ℕ → Bytes → Option (Bytes × Bytes)
read_exact zero bs = some ([], bs)
read_exact (suc n) [] = none
read_exact (suc n) (b ∷ bs) = elim (read_exact n bs) [
  | none ↦ none
  | some (taken, left) ↦ some (b ∷ taken, left)
]

-- The length of the frame.
unfoldable pub read_length : ℕ → Bytes → Option (ℕ × Bytes)
read_length n bs =
    let read : ℕ → Option (ℕ × Bytes) = λ k. elim (read_exact k bs) [
      | none ↦ none
      | some (taken, left) ↦ some (unpack 0 taken, left)
    ] in
    if n == 126 then read 2 else if n == 127 then read 8 else some (n, bs)

to_mask : Bytes → Mask
to_mask (a ∷ b ∷ c ∷ d ∷ _) = record { m0 = a; m1 = b; m2 = c; m3 = d }
to_mask _ = record { m0 = 0; m1 = 0; m2 = 0; m3 = 0 }

-- The payload, unmasked if the frame is masked.
unfoldable pub read_payload : Bool → ℕ → Bytes → Option (Bytes × Bytes)
unfolding to_mask
read_payload false n bs = read_exact n bs
read_payload true n bs = elim (read_exact 4 bs) [
  | none ↦ none
  | some (mask, more) ↦ elim (read_exact n more) [
    | none ↦ none
    | some (taken, left) ↦ some (apply_mask (to_mask mask) 0 taken, left)
  ]
]

abbrev pub by_opcode : ℕ → Bytes → Received
by_opcode opcode payload =
    if opcode == 8
    then closed_by_server
    else if opcode == 1
    then text_frame payload
    else other_frame

unfoldable pub after_length : ℕ → ℕ → Option (ℕ × Bytes) → Received × Bytes
after_length opcode second none = (connection_closed, [])
after_length opcode second (some (n, bs)) = elim (read_payload (second / 128 % 2 == 1) n bs) [
  | none ↦ (connection_closed, [])
  | some (payload, left) ↦ (by_opcode opcode payload, left)
]

-- One frame, and what is left on the socket.
unfoldable pub ws_recv : Bytes → Received × Bytes
unfolding after_length
ws_recv (first ∷ second ∷ bs) = after_length (first % 16) second (read_length (second % 128) bs)
ws_recv _ = (connection_closed, [])
