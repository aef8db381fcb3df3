-- ===== src/Netip/Containment.antt =====
-- Containment of prefixes: the test on addresses and lengths against the sets of addresses.
use native.Mathlib.Nat.{
  div-add-mod', div-eq_of_lt-le, div-div-eq-div-mul, div-mul-le_self, lt-div-mul-add, pow-suc,
  zero-add, suc-add,
}
use native.Mathlib.Decide.{dec_le}
use light_ipam.Base.{
  ℕ, zero, suc, ◌+◌, ◌-◌, ◌*◌, ◌/◌, ◌%◌, ◌^◌, ◌<◌, ◌≤◌, true, ◌≡◌, arith, ◌↔◌, ◌∙◌, sym, ap, ==_iff,
}
use light_ipam.Netip.{v4, top, mask, contains}

pub pow_pos : (k : ℕ) → 0 < 2 ^ k
pow_pos zero = omega arith
pow_pos (suc k) = rw pow-suc (omega (arith, pow_pos k))

-- A power of two splits over a sum.
pow_split : (a b : ℕ) → 2 ^ (a + b) ≡ 2 ^ a * 2 ^ b
pow_split zero b = rw zero-add (omega arith)
pow_split (suc a) b = rw suc-add (
    omega (
      arith,
      pow-suc 2 (a + b),
      pow-suc 2 a,
      pow_split a b,
      ap (λ (t : ℕ). t * 2 ^ b) (pow-suc 2 a),
    ))

-- The quotient by `p` is the index of the block of `p` numbers that a number lies in.
block : (p n : ℕ) → 0 < p → (n / p * p ≤ n) × (n < n / p * p + p)
block p n h = (div-mul-le_self n p, lt-div-mul-add h)

div-eq_of_block : (p q n : ℕ) → q * p ≤ n → n < q * p + p → n / p ≡ q
div-eq_of_block p q n lo hi = ground (arith, div-eq_of_lt-le {k = q} p {m = n})

pub mask-mul : (p n : ℕ) → n - n % p ≡ n / p * p
mask-mul p n = omega (arith, div-add-mod' n p)

-- The first bits of a value are those of its mask.
pub top-mask : (w k n : ℕ) → top w k (mask w k n) ≡ top w k n
unfolding top mask
top-mask w k n =
    let p = 2 ^ (w - k) in
    let h = pow_pos (w - k) in
    div-eq_of_block p (n / p) (n - n % p) (omega (arith, mask-mul p n))
      (omega (arith, mask-mul p n))

pub pow_gap : (w j k : ℕ) → j ≤ k → k ≤ w → 2 ^ (w - j) ≡ 2 ^ (w - k) * 2 ^ (k - j)
pow_gap w j k jk kw = rw (← pow_split) (ap (λ (t : ℕ). 2 ^ t) (omega arith))

-- Fewer leading bits are a function of more leading bits.
pub top-top : (w j k m n : ℕ) → j ≤ k → k ≤ w → top w k m ≡ top w k n → top w j m ≡ top w j n
unfolding top
top-top w j k m n jk kw h = cc (
  pow_gap w j k jk kw,
  div-div-eq-div-mul m (2 ^ (w - k)) (2 ^ (k - j)),
  div-div-eq-div-mul n (2 ^ (w - k)) (2 ^ (k - j)),
)

-- The addresses of a prefix are the interval from its masked address, of `2 ^ (w - k)` addresses.
pub top-eq_iff :
    (w k n x : ℕ) → (top w k n ≡ top w k x) ↔ ((mask w k n ≤ x) × (x < mask w k n + 2 ^ (w - k)))
unfolding top mask
top-eq_iff w k n x =
    let p = 2 ^ (w - k) in
    let (lo, hi) = block p x (pow_pos (w - k)) in
    (
      λ e.
          let at : n / p * p ≡ x / p * p = ap (λ (t : ℕ). t * p) e in
          (omega (arith, mask-mul p n), omega (arith, mask-mul p n)),
      λ h.
          sym (
            div-eq_of_block p (n / p) x (omega (arith, mask-mul p n))
              (omega (arith, mask-mul p n))),
    )

pow_ge_two : (d : ℕ) → 0 < d → 2 ≤ 2 ^ d
pow_ge_two zero h = elim h [ ]
pow_ge_two (suc d) h = rw pow-suc (omega (arith, pow_pos d))

no_wide_block : (q d : ℕ) → 0 < q → 2 ≤ d → q * d ≤ q → ⊥
no_wide_block q d hq hd h = grind arith

-- If the first and the last value of a block are in another block, that one is as wide.
pub block_le :
    (w j k m a : ℕ)
    → j ≤ w
    → top w j m ≡ top w j a
    → top w j m ≡ top w j (a + 2 ^ (w - k) - 1)
    → j ≤ k
unfolding top
block_le w j k m a jw lo hi = elim (dec_le j k) [
  | yes h ↦ h
  | no h ↦
      let q = 2 ^ (w - j) in
      let wide = pow_gap w k j (omega arith) jw in
      let (lo1, lo2) = block q a (pow_pos (w - j)) in
      let (hi1, hi2) = block q (a + 2 ^ (w - k) - 1) (pow_pos (w - j)) in
      let at : a / q * q ≡ (a + 2 ^ (w - k) - 1) / q * q = ap (λ (t : ℕ). t * q) (sym lo ∙ hi) in
      absurd (
        no_wide_block q (2 ^ (j - k)) (pow_pos (w - j)) (pow_ge_two (j - k) (omega arith))
          (omega (arith, pow_pos (w - k))))
]

-- Which IPv4 addresses an IPv4 prefix contains: an interval of `2 ^ (32 - k)` addresses.
pub contains_iff :
    (n k x : ℕ)
    → (contains (record { addr = v4 n; bits = k }) (v4 x) ≡ true)
      ↔ ((mask 32 k n ≤ x) × (x < mask 32 k n + 2 ^ (32 - k)))
unfolding contains
contains_iff n k x = (
  λ h. (top-eq_iff 32 k n x).0 ((==_iff _ _).0 h),
  λ h. (==_iff _ _).1 ((top-eq_iff 32 k n x).1 h),
)
