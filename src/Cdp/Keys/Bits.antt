-- ===== src/Cdp/Keys/Bits.antt =====
-- The bits of the modifiers in prax_sandbox/cdp_service.py as numbers below 16.
use prax_sandbox.Base.{
  ℕ, ◌<◌, ◌≡◌, refl, ◌⊎◌, inl, inr, Bool, false, not, ◌&&◌, ◌||◌, List, [], ◌∷◌, arith, ◌==◌,
  nat_eq, any, All,
}
use prax_sandbox.Cdp.Keys.{
  Modifier, has_bit, set_bit, clear_bit, press_modifiers, release_modifiers, reverse_onto,
}

abbrev pub IsBit : ℕ → Type 0
IsBit b = (b ≡ 1) ⊎ (b ≡ 2) ⊎ (b ≡ 4) ⊎ (b ≡ 8)

pub set_bit-bound : (n b : ℕ) → n < 16 → IsBit b → set_bit n b < 16
set_bit-bound n b small is = ground arith

pub has_bit-set_bit :
    (n b c : ℕ) → n < 16 → IsBit b → IsBit c → has_bit (set_bit n b) c ≡ (b == c || has_bit n c)
has_bit-set_bit n b c small is is' = ground arith

clear_bit-bound : (n b : ℕ) → n < 16 → clear_bit n b < 16
clear_bit-bound n b small = ground arith

has_bit-clear_bit :
    (n b c : ℕ)
    → n < 16
    → IsBit b
    → IsBit c
    → has_bit (clear_bit n b) c ≡ (not (b == c) && has_bit n c)
has_bit-clear_bit n b c small is is' = ground arith

no_bits : (n : ℕ) → n < 16 → ((c : ℕ) → IsBit c → has_bit n c ≡ false) → n ≡ 0
no_bits n small h =
    let h1 = h 1 (inl refl) in
    let h2 = h 2 (inr (inl refl)) in
    let h4 = h 4 (inr (inr (inl refl))) in let h8 = h 8 (inr (inr (inr refl))) in ground arith

abbrev pub HasBit : Modifier → Type 0
HasBit m = IsBit m.bit

abbrev pub bit_in : ℕ → List Modifier → Bool
bit_in c ms = any (λ m. m.bit == c) ms

press_modifiers-bits :
    (n : ℕ) (ms : List Modifier)
    → n < 16
    → All HasBit ms
    → ((press_modifiers n ms).1 < 16)
      × ((c : ℕ) → IsBit c → has_bit (press_modifiers n ms).1 c ≡ (bit_in c ms || has_bit n c))
unfolding press_modifiers
press_modifiers-bits n [] small is = (small, λ c isc. refl)
press_modifiers-bits n (m ∷ ms) small (is, rest) =
    let (bound, has) =
      press_modifiers-bits (set_bit n m.bit) ms (set_bit-bound n m.bit small is) rest in
    (bound, λ c isc. ground (arith, has c isc, has_bit-set_bit n m.bit c small is isc))

release_modifiers-bits :
    (n : ℕ) (ms : List Modifier)
    → n < 16
    → All HasBit ms
    → ((release_modifiers n ms).1 < 16)
      × ((c : ℕ)
          → IsBit c
          → has_bit (release_modifiers n ms).1 c ≡ (not (bit_in c ms) && has_bit n c))
unfolding release_modifiers
release_modifiers-bits n [] small is = (small, λ c isc. refl)
release_modifiers-bits n (m ∷ ms) small (is, rest) =
    let (bound, has) =
      release_modifiers-bits (clear_bit n m.bit) ms (clear_bit-bound n m.bit small) rest in
    (bound, λ c isc. ground (arith, has c isc, has_bit-clear_bit n m.bit c small is isc))

bit_in-reverse_onto :
    (c : ℕ) (ms ns : List Modifier) → bit_in c (reverse_onto ms ns) ≡ (bit_in c ms || bit_in c ns)
bit_in-reverse_onto c [] ns = refl
bit_in-reverse_onto c (m ∷ ms) ns = ground (arith, bit_in-reverse_onto c ms (m ∷ ns))

All-reverse_onto :
    (ms ns : List Modifier) → All HasBit ms → All HasBit ns → All HasBit (reverse_onto ms ns)
All-reverse_onto [] ns h k = k
All-reverse_onto (m ∷ ms) ns (h, hs) k = All-reverse_onto ms (m ∷ ns) hs (h, k)

-- The bits are those of the modifiers once all are down, and none once all are up.
pub modifiers-bits :
    (ms : List Modifier)
    → All HasBit ms
    → ((c : ℕ) → IsBit c → has_bit (press_modifiers 0 ms).1 c ≡ bit_in c ms)
      × ((release_modifiers (press_modifiers 0 ms).1 (reverse_onto ms [])).1 ≡ 0)
modifiers-bits ms is =
    let (bound, has) = press_modifiers-bits 0 ms (omega arith) is in
    let back = All-reverse_onto ms [] is tt in
    let (bound', has') =
      release_modifiers-bits (press_modifiers 0 ms).1 (reverse_onto ms []) bound back in
    (
      (λ c isc. ground (arith, has c isc)),
      no_bits _ bound'
          (λ c isc. ground (arith, has c isc, has' c isc, bit_in-reverse_onto c ms [])),
    )
