-- ===== src/Protocol/Within.antt =====
-- `prefixWithin` (internal/scanner/protocol.go) against the sets of addresses.
use native.Mathlib.Nat.{div-lt_iff_lt-mul}
use light_ipam.Base.{
  ℕ, ◌+◌, ◌-◌, ◌*◌, ◌/◌, ◌^◌, ◌<◌, ◌≤◌, true, ◌≡◌, ◌↔◌, arith, ==_iff, and-eq-true, and-intro,
  leb_iff, ◌∙◌, is_empty, ◌&&◌, refl, ap, ◌==◌,
}
use light_ipam.Netip.{
  Addr, v4, v6, Prefix, bit_len, top, mask, masked, mask_addr, contains, contains_addr,
}
use light_ipam.Netip.Containment.{
  pow_pos, top-top, top-mask, top-eq_iff, block_le, contains_iff, mask-mul, pow_gap,
}
use light_ipam.Protocol.Validate.{prefix_within}

-- A longer prefix whose address lies in a shorter one lies in it whole; for both families.
within_addr :
    (t : Addr) (k : ℕ) (q : Addr) (j : ℕ) (a : Addr)
    → k ≤ bit_len t
    → j ≤ k
    → contains_addr q j t ≡ true
    → contains_addr t k a ≡ true
    → contains_addr q j a ≡ true
unfolding contains_addr
within_addr (v4 n) k (v4 m) j (v4 x) kw jk h c =
    (==_iff _ _).1 ((==_iff _ _).0 h ∙ top-top 32 j k n x jk kw ((==_iff _ _).0 c))
within_addr (v6 n z) k (v6 m y) j (v6 x u) kw jk h c =
    ground (arith, ==_iff (top 128 j m) (top 128 j x), top-top 128 j k n x jk kw)
within_addr (v4 n) k (v4 m) j (v6 x u) kw jk h c = cc
within_addr (v4 n) k (v6 m y) j a kw jk h c = cc
within_addr (v6 n z) k (v4 m) j a kw jk h c = cc
within_addr (v6 n z) k (v6 m y) j (v4 x) kw jk h c = cc

pub contains_within :
    (t q : Prefix) (a : Addr)
    → t.bits ≤ bit_len t.addr
    → prefix_within t q ≡ true
    → contains t a ≡ true
    → contains q a ≡ true
unfolding prefix_within contains
contains_within t q a le h c =
    let (inside, shorter) = and-eq-true h in
    within_addr t.addr t.bits q.addr q.bits a le (ground arith) inside c

-- A prefix and its masked form contain the same addresses.
masked_addr :
    (p : Addr) (k : ℕ) (a : Addr) → contains_addr (mask_addr p k) k a ≡ contains_addr p k a
unfolding contains_addr mask_addr
masked_addr (v4 n) k (v4 x) = ap (λ t. t == top 32 k x) (top-mask 32 k n)
masked_addr (v4 n) k (v6 x u) = refl
masked_addr (v6 n z) k (v4 x) = refl
masked_addr (v6 n z) k (v6 x u) = ap (λ t. is_empty u && t == top 128 k x) (top-mask 128 k n)

pub contains-masked : (p : Prefix) (a : Addr) → contains (masked p) a ≡ contains p a
unfolding contains masked
contains-masked p a = masked_addr p.addr p.bits a

-- An IPv4 prefix by its value and its length.
abbrev pub prefix4 : ℕ → ℕ → Prefix
prefix4 n k = record { addr = v4 n; bits = k }

-- The last address of an IPv4 prefix is still a 32-bit value.
blocks_le : (q d p : ℕ) → q < d → q * p + p ≤ d * p
blocks_le q d p h = grind arith

pub last_le : (n k : ℕ) → n < 2 ^ 32 → k ≤ 32 → mask 32 k n + 2 ^ (32 - k) ≤ 2 ^ 32
unfolding mask
last_le n k h le =
    let p = 2 ^ (32 - k) in
    let d = 2 ^ (k - 0) in
    let whole : 2 ^ 32 ≡ p * d = pow_gap 32 0 k (omega arith) le in
    let index = (div-lt_iff_lt-mul {x = n} {y = d} (pow_pos (32 - k))).1 (omega (arith, whole)) in
    omega (arith, whole, mask-mul p n, blocks_le (n / p) d p index)

-- The prefix `m/j` contains the last address of `n/k`, and the first.
module _ (n k m j : ℕ) (small : n < 2 ^ 32) (k_le : k ≤ 32) (j_le : j ≤ 32)
    (sub : (x : ℕ)
      → x < 2 ^ 32
      → contains (prefix4 n k) (v4 x) ≡ true
      → contains (prefix4 m j) (v4 x) ≡ true) where
  at_block : (x : ℕ) → mask 32 k n ≤ x → x < mask 32 k n + 2 ^ (32 - k) → top 32 j m ≡ top 32 j x
  unfolding contains
  at_block x lo hi =
      (==_iff _ _).0
        (sub x (omega (arith, last_le n k small k_le)) ((contains_iff n k x).1 (lo, hi)))

  subset-within : prefix_within (prefix4 n k) (prefix4 m j) ≡ true
  unfolding prefix_within contains contains_addr
  subset-within =
      let size : 0 < 2 ^ (32 - k) = pow_pos (32 - k) in
      let first = at_block (mask 32 k n) (omega arith) (omega arith) in
      let last = at_block (mask 32 k n + 2 ^ (32 - k) - 1) (omega arith) (omega arith) in
      let shorter = block_le 32 j k m (mask 32 k n) j_le first last in
      let (lo, hi) = (top-eq_iff 32 k n n).0 refl in
      and-intro ((==_iff _ _).1 (at_block n lo hi)) ((leb_iff j k).1 shorter)

-- `prefixWithin` decides inclusion: the IPv4 prefix `n/k` is within `m/j` exactly when every
-- 32-bit address that `n/k` contains is contained by `m/j`.
pub prefix_within_iff :
    (n k m j : ℕ)
    → n < 2 ^ 32
    → k ≤ 32
    → j ≤ 32
    → (prefix_within (prefix4 n k) (prefix4 m j) ≡ true) ↔ (
        (x : ℕ)
        → x < 2 ^ 32
        → contains (prefix4 n k) (v4 x) ≡ true
        → contains (prefix4 m j) (v4 x) ≡ true)
prefix_within_iff n k m j small k_le j_le = (
  (λ h x _ c. contains_within (prefix4 n k) (prefix4 m j) (v4 x) k_le h c),
  subset-within n k m j small k_le j_le,
)
