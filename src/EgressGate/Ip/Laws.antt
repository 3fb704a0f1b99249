-- ===== src/EgressGate/Ip/Laws.antt =====
-- Which addresses `is_public` of prax_sandbox/egress_gate/gate.py refuses.
use prax_sandbox.Base.{ℕ, ◌*◌, ◌/◌, ◌%◌, ◌^◌, ◌≤◌, ◌<◌, ◌≡◌, false, arith, ◌⊎◌}
use prax_sandbox.EgressGate.Ip.{
  Address, v4, v6, is_public, public4, public6, in_ranges, is_global4, is_multicast4, is_global6,
  is_multicast6,
}

-- Loopback, the three private blocks, link-local, and all from 224.0.0.0 on (multicast, reserved,
-- broadcast).
abbrev pub IsInternal4 : ℕ → Type 0
IsInternal4 n =
    ((0x7f000000 ≤ n) × (n ≤ 0x7fffffff))
    ⊎ ((0x0a000000 ≤ n) × (n ≤ 0x0affffff))
    ⊎ ((0xac100000 ≤ n) × (n ≤ 0xac1fffff))
    ⊎ ((0xc0a80000 ≤ n) × (n ≤ 0xc0a8ffff))
    ⊎ ((0xa9fe0000 ≤ n) × (n ≤ 0xa9feffff))
    ⊎ ((0xe0000000 ≤ n) × (n ≤ 0xffffffff))

-- `::` and `::1`, the unique local fc00::/7, link-local fe80::/10 and multicast ff00::/8.
abbrev pub IsInternal6 : ℕ → Type 0
IsInternal6 n =
    (n ≤ 1)
    ⊎ ((0xfc * 2 ^ 120 ≤ n) × (n < 0xfe * 2 ^ 120))
    ⊎ ((0xfe80 * 2 ^ 112 ≤ n) × (n < 0xfec0 * 2 ^ 112))
    ⊎ ((0xff * 2 ^ 120 ≤ n) × (n < 2 ^ 128))

-- An IPv6 address is internal too if the IPv4 address that it maps is.
abbrev pub IsInternal : Address → Type 0
IsInternal (v4 n) = IsInternal4 n
IsInternal (v6 n) = IsInternal6 n ⊎ ((n / 2 ^ 32 ≡ 0xffff) × IsInternal4 (n % 2 ^ 32))

internal4_not_public : (n : ℕ) → IsInternal4 n → public4 n ≡ false
unfolding public4 is_global4 is_multicast4 in_ranges
internal4_not_public n h = ground arith

internal6_not_public : (n : ℕ) → IsInternal6 n → public6 n ≡ false
unfolding public6 is_global6 is_multicast6 in_ranges
internal6_not_public n h = ground arith

-- No internal address is public: an IPv4 address that is loopback, private, link-local, multicast or
-- reserved, the same address mapped into IPv6, and an IPv6 address that is unspecified, loopback,
-- unique local, link-local or multicast. Of the reserved ranges of IPv6 nothing is said.
pub internal_not_public : (a : Address) → IsInternal a → is_public a ≡ false
unfolding is_public
internal_not_public (v4 n) h = internal4_not_public n h
internal_not_public (v6 n) h =
    ground (arith, internal4_not_public (n % 2 ^ 32), internal6_not_public n)
