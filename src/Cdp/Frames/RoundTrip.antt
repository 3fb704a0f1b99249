-- ===== src/Cdp/Frames/RoundTrip.antt =====
-- A text that `_ws_send` of prax_sandbox/cdp_service.py sends is what `_ws_recv` reads.
use prax_sandbox.Base.{
  ℕ, zero, suc, ◌+◌, ◌*◌, ◌/◌, ◌%◌, ◌^◌, ◌<◌, ◌≡◌, refl, ap, ◌∙◌, true, [], ◌∷◌, ◌++◌, some, arith,
  ltb, ◌==◌, nat_eq, length, All, append_assoc, Bool-cases, inl, inr,
}
use prax_sandbox.Cdp.Frames.{
  Bytes, xor, Mask, mask_at, apply_mask, pack, unpack, mask_bytes, length_bytes, ws_send,
  text_frame, read_exact, read_length, read_payload, to_mask, after_length, ws_recv,
}

half : (y x : ℕ) → (y % 2 + 2 * x) / 2 ≡ x
half y x = omega arith

odd_part : (y x z : ℕ) → ((y + z) % 2 + 2 * x + z) % 2 ≡ y % 2
odd_part y x z = omega arith

double : (n : ℕ) → 2 ^ suc n ≡ 2 * 2 ^ n
double n = omega arith

xor-xor : (bits a b : ℕ) → a < 2 ^ bits → xor bits (xor bits a b) b ≡ a
unfolding xor
xor-xor zero a b small = omega arith
xor-xor (suc bits) a b small =
    let half_small : a / 2 < 2 ^ bits = omega (arith, double bits) in
    let x = xor bits (a / 2) (b / 2) in
    let again = xor-xor bits (a / 2) (b / 2) half_small in
    rw (half (a % 2 + b % 2) x, again) (omega arith)

read_exact-append : (xs ys : Bytes) → read_exact (length xs) (xs ++ ys) ≡ some (xs, ys)
unfolding read_exact
read_exact-append [] ys = refl
read_exact-append (x ∷ xs) ys = rw (read_exact-append xs ys) refl

abbrev pub IsByte : ℕ → Type 0
IsByte b = b < 256

apply_mask-twice :
    (m : Mask) (i : ℕ) (bs : Bytes) → All IsByte bs → apply_mask m i (apply_mask m i bs) ≡ bs
unfolding apply_mask
apply_mask-twice m i [] h = refl
apply_mask-twice m i (b ∷ bs) (h, hs) =
    rw (xor-xor 8 b (mask_at m (i % 4)) h, apply_mask-twice m (suc i) bs hs) refl

length-apply_mask : (m : Mask) (i : ℕ) (bs : Bytes) → length (apply_mask m i bs) ≡ length bs
unfolding apply_mask
length-apply_mask m i [] = refl
length-apply_mask m i (b ∷ bs) = ap suc (length-apply_mask m (suc i) bs)

unpack-pack_2 : (n : ℕ) → n < 65536 → unpack 0 (pack 2 n []) ≡ n
unfolding pack unpack
unpack-pack_2 n small = omega arith

unpack-pack_8 : (n : ℕ) → n < 2 ^ 64 → unpack 0 (pack 8 n []) ≡ n
unfolding pack unpack
unpack-pack_8 n small = omega arith

-- The second byte, the bytes of the length after it, and what is read from them.
abbrev Reads : ℕ → Bytes → Type 0
Reads n tail =
    (second : ℕ) × (more : Bytes) × (length_bytes n ≡ second ∷ more)
    × ((second / 128 % 2 == 1) ≡ true)
    × (read_length (second % 128) (more ++ tail) ≡ some (n, tail))

length_bytes-Reads : (n : ℕ) (tail : Bytes) → n < 2 ^ 64 → Reads n tail
unfolding length_bytes read_length pack read_exact
length_bytes-Reads n tail small = elim (Bool-cases (ltb n 126)) [
  | inl short ↦ (128 + n, [], rw short refl, ground arith, ground arith)
  | inr long ↦ elim (Bool-cases (ltb n 65536)) [
    | inl middle ↦ (
      254,
      pack 2 n [],
      rw (long, middle) refl,
      refl,
      ap (λ k. some (k, tail)) (unpack-pack_2 n (ground arith)),
    )
    | inr large ↦ (
      255,
      pack 8 n [],
      rw (long, large) refl,
      refl,
      ap (λ k. some (k, tail)) (unpack-pack_8 n small),
    )
  ]
]

read_payload-mask_bytes :
    (m : Mask) (n : ℕ) (masked rest : Bytes)
    → read_exact n (masked ++ rest) ≡ some (masked, rest)
    → read_payload true n (mask_bytes m ++ (masked ++ rest)) ≡ some (apply_mask m 0 masked, rest)
unfolding read_payload read_exact to_mask
read_payload-mask_bytes m n masked rest e = rw (e, read_payload) refl

read_payload-masked :
    (m : Mask) (payload rest : Bytes)
    → All IsByte payload
    → read_payload true (length payload) (mask_bytes m ++ (apply_mask m 0 payload ++ rest))
      ≡ some (payload, rest)
read_payload-masked m payload rest small =
    let masked = apply_mask m 0 payload in
    let same : length masked ≡ length payload = length-apply_mask m 0 payload in
    read_payload-mask_bytes m (length payload) masked rest
      (rw (← same) (read_exact-append masked rest))
    ∙ ap (λ bs. some (bs, rest)) (apply_mask-twice m 0 payload small)

after_length-text :
    (m : Mask) (second : ℕ) (payload rest : Bytes)
    → All IsByte payload
    → (second / 128 % 2 == 1) ≡ true
    → after_length
        (129 % 16)
        second
        (some (length payload, mask_bytes m ++ (apply_mask m 0 payload ++ rest)))
      ≡ (text_frame payload, rest)
unfolding after_length
after_length-text m second payload rest small masked =
    rw (masked, read_payload-masked m payload rest small, after_length) refl

-- What `_ws_send` puts on a socket, `_ws_recv` takes off it again: the same text, whatever the mask,
-- and what follows is left. The text has fewer than 2⁶⁴ bytes.
pub ws_recv-ws_send :
    (m : Mask) (payload rest : Bytes)
    → All IsByte payload
    → length payload < 2 ^ 64
    → ws_recv (ws_send m payload ++ rest) ≡ (text_frame payload, rest)
unfolding ws_recv ws_send
ws_recv-ws_send m payload rest small short =
    let tail = mask_bytes m ++ (apply_mask m 0 payload ++ rest) in
    let (second, more, bytes, masked, read) = length_bytes-Reads (length payload) tail short in
    rw (bytes, append_assoc more (mask_bytes m ++ apply_mask m 0 payload) rest, read)
      (after_length-text m second payload rest small masked)
