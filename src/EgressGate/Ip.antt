-- ===== src/EgressGate/Ip.antt =====
-- `is_public` of prax_sandbox/egress_gate/gate.py, and what it asks of Python's `ipaddress`: an
-- address is the number that it stands for. A network is a base with a count of host bits. The
-- tables are those of Python 3.13, in its order.
pub mod Laws
use prax_sandbox.Base.{
  ℕ, ◌/◌, ◌%◌, ◌^◌, Bool, false, not, ◌&&◌, ◌||◌, List, [], ◌∷◌, ◌==◌, nat_eq, if◌then◌else◌,
}

pub data Address : Type 0 where
  v4 v6 : ℕ → Address

pub record Network : Type 0 where
  pub base : Address
  pub host_bits : ℕ

-- The number lies in one of the ranges, each a first address and a count of host bits.
unfoldable pub in_ranges : ℕ → List (ℕ × ℕ) → Bool
in_ranges x [] = false
in_ranges x ((base, host_bits) ∷ rest) =
    x / 2 ^ host_bits == base / 2 ^ host_bits || in_ranges x rest

-- `addr in net`: of one version, and equal above the host bits.
abbrev is_within : Address → Address → ℕ → Bool
is_within (v4 x) (v4 y) h = x / 2 ^ h == y / 2 ^ h
is_within (v6 x) (v6 y) h = x / 2 ^ h == y / 2 ^ h
is_within _ _ h = false

unfoldable pub is_in : Address → Network → Bool
is_in a n = is_within a n.base n.host_bits

abbrev private_networks : List (ℕ × ℕ)
private_networks =
    (0x0, 24)
    ∷  -- 0.0.0.0/8
        (0xa000000, 24)
    ∷  -- 10.0.0.0/8
        (0x7f000000, 24)
    ∷  -- 127.0.0.0/8
        (0xa9fe0000, 16)
    ∷  -- 169.254.0.0/16
        (0xac100000, 20)
    ∷  -- 172.16.0.0/12
        (0xc0000000, 8)
    ∷  -- 192.0.0.0/24
        (0xc00000aa, 1)
    ∷  -- 192.0.0.170/31
        (0xc0000200, 8)
    ∷  -- 192.0.2.0/24
        (0xc0a80000, 16)
    ∷  -- 192.168.0.0/16
        (0xc6120000, 17)
    ∷  -- 198.18.0.0/15
        (0xc6336400, 8)
    ∷  -- 198.51.100.0/24
        (0xcb007100, 8)
    ∷  -- 203.0.113.0/24
        (0xf0000000, 28)
    ∷  -- 240.0.0.0/4
        (0xffffffff, 0)
    ∷  -- 255.255.255.255/32
        []

abbrev private_exceptions : List (ℕ × ℕ)
private_exceptions =
    (0xc0000009, 0)
    ∷  -- 192.0.0.9/32
        (0xc000000a, 0)
    ∷  -- 192.0.0.10/32
        []

abbrev private_networks6 : List (ℕ × ℕ)
private_networks6 =
    (0x1, 0)
    ∷  -- ::1/128
        (0x0, 0)
    ∷  -- ::/128
        (0xffff00000000, 32)
    ∷  -- ::ffff:0:0/96
        (0x64ff9b000100000000000000000000, 80)
    ∷  -- 64:ff9b:1::/48
        (0x1000000000000000000000000000000, 64)
    ∷  -- 100::/64
        (0x20010000000000000000000000000000, 105)
    ∷  -- 2001::/23
        (0x20010db8000000000000000000000000, 96)
    ∷  -- 2001:db8::/32
        (0x20020000000000000000000000000000, 112)
    ∷  -- 2002::/16
        (0xfc000000000000000000000000000000, 121)
    ∷  -- fc00::/7
        (0xfe800000000000000000000000000000, 118)
    ∷  -- fe80::/10
        []

abbrev private_exceptions6 : List (ℕ × ℕ)
private_exceptions6 =
    (0x20010001000000000000000000000001, 0)
    ∷  -- 2001:1::1/128
        (0x20010001000000000000000000000002, 0)
    ∷  -- 2001:1::2/128
        (0x20010003000000000000000000000000, 96)
    ∷  -- 2001:3::/32
        (0x20010004011200000000000000000000, 80)
    ∷  -- 2001:4:112::/48
        (0x20010020000000000000000000000000, 100)
    ∷  -- 2001:20::/28
        (0x20010030000000000000000000000000, 100)
    ∷  -- 2001:30::/28
        []

-- addr.is_global
is_global4 : ℕ → Bool
unfolding in_ranges
is_global4 x =
    not (in_ranges x ((0x64400000, 22) ∷ []))
    && not (in_ranges x private_networks && not (in_ranges x private_exceptions))

is_global6 : ℕ → Bool
unfolding in_ranges
is_global6 x = not (in_ranges x private_networks6 && not (in_ranges x private_exceptions6))

-- addr.is_multicast
is_multicast4 : ℕ → Bool
is_multicast4 x = x / 2 ^ 28 == 0xe0000000 / 2 ^ 28

is_multicast6 : ℕ → Bool
is_multicast6 x = x / 2 ^ 120 == 255

public4 : ℕ → Bool
unfolding is_global4 is_multicast4
public4 x = is_global4 x && not (is_multicast4 x)

public6 : ℕ → Bool
unfolding is_global6 is_multicast6
public6 x = is_global6 x && not (is_multicast6 x)

-- An IPv6 address above `::ffff:0:0` stands for the IPv4 address in its low bits.
unfoldable pub is_public : Address → Bool
unfolding public4 public6
is_public (v4 x) = public4 x
is_public (v6 x) = if x / 2 ^ 32 == 0xffff then public4 (x % 2 ^ 32) else public6 x
