-- ===== src/Netip.antt =====
-- The part of Go's `net/netip` that the program stands on: addresses, prefixes, masking and
-- containment. Reading and printing texts are in Netip/Parse.antt, the laws of containment in
-- Netip/Containment.antt.
pub mod Parse
pub mod Containment
use mathlib.Core.List.{foldl}
use light_ipam.Base.{
  ℕ, ◌+◌, ◌-◌, ◌*◌, ◌/◌, ◌%◌, ◌^◌, ◌<◌, ◌≤◌, Bool, true, false, ◌&&◌, List, [], ◌∷◌, Option, none,
  some, ◌≡◌, Text, is_empty, ◌==◌, leb, if◌then◌else◌,
}

-- An IPv4 address is its 32-bit value; an IPv6 address its 128-bit value and its zone.
pub data Addr : Type 0 where
  v4 : ℕ → Addr
  v6 : ℕ → Text → Addr

pub record Prefix : Type 0 where
  pub addr : Addr
  pub bits : ℕ

-- `Addr.Is4`.
abbrev pub is4 : Addr → Bool
is4 (v4 n) = true
is4 (v6 n z) = false

-- `Addr.BitLen`.
abbrev pub bit_len : Addr → ℕ
bit_len (v4 n) = 32
bit_len (v6 n z) = 128

-- The value of the first `k` of `w` bits.
unfoldable pub top : ℕ → ℕ → ℕ → ℕ
top w k n = n / 2 ^ (w - k)

unfoldable pub mask : ℕ → ℕ → ℕ → ℕ
mask w k n = n - n % 2 ^ (w - k)

unfoldable pub mask_addr : Addr → ℕ → Addr
unfolding mask
mask_addr (v4 n) k = v4 (mask 32 k n)
mask_addr (v6 n z) k = v6 (mask 128 k n) z

-- `Prefix.Masked`.
unfoldable pub masked : Prefix → Prefix
unfolding mask_addr
masked p = record p { addr = mask_addr p.addr p.bits }

-- `Prefix.Contains`: one family, no zone, and the first bits agree.
unfoldable pub contains_addr : Addr → ℕ → Addr → Bool
unfolding top
contains_addr (v4 n) k (v4 a) = top 32 k n == top 32 k a
contains_addr (v6 n z) k (v6 a y) = is_empty y && top 128 k n == top 128 k a
contains_addr _ k _ = false

unfoldable pub contains : Prefix → Addr → Bool
unfolding contains_addr
contains p a = contains_addr p.addr p.bits a

-- What `ParsePrefix` gives for an IPv4 text: an address and a length in range.
pub record IsPrefix4 (p : Prefix) : Type 0 where
  pub value : ℕ
  pub is_v4 : p.addr ≡ v4 value
  pub value_lt : value < 2 ^ 32
  pub bits_le : p.bits ≤ 32
