-- ===== src/Names/DnsLaws.antt =====
-- `skipName` ends on every packet and stays inside it; one turn of it, at each kind of byte.
use light_ipam.Base.{
  ℕ, suc, ◌+◌, ◌-◌, ◌<◌, ◌≤◌, true, false, List, length, leb, ◌==◌, ◌≡◌, inl, inr, refl, arith,
  Bool-cases,
}
use light_ipam.Names.{ok, repeat, byte_at, Returns, Keeps, repeat-Returns, repeat-fuel, byte_at_lem}
use light_ipam.Names.Dns.{is_pointer, skip_byte, skip_turn, skip_name}

-- A position is the end of something inside the packet.
abbrev pub Inside : List ℕ → ℕ → Type 0
Inside buf p = p ≤ length buf

leb-past : (n pos : ℕ) → pos < n → leb n pos ≡ false
leb-past n pos h = ground arith

skip_turn-Returns :
    (buf : List ℕ) (pos : ℕ)
    → Returns
        (Keeps (Inside buf) (λ p. Unit {0}) (λ p. length buf - p) (length buf - pos))
        (skip_turn buf pos)
unfolding skip_turn skip_byte
skip_turn-Returns buf pos = elim (Bool-cases (leb (length buf) pos)) [
  | inl past ↦ rw past tt
  | inr inside ↦
      let h : pos < length buf = ground arith in
      let (n, at) = byte_at_lem buf pos h in rw (inside, at) (byte_case n h)
]
  where
    byte_case :
        (n : ℕ)
        → pos < length buf
        → Returns
            (Keeps (Inside buf) (λ p. Unit {0}) (λ p. length buf - p) (length buf - pos))
            (skip_byte buf pos n)
    byte_case n h = ground arith

pub skip_name-Returns : (buf : List ℕ) (pos : ℕ) → Returns (Inside buf) (skip_name buf pos)
unfolding skip_name
skip_name-Returns buf pos =
    repeat-Returns (Inside buf) (λ p. Unit {0}) (λ p. length buf - p) (skip_turn buf)
      (λ p _. skip_turn-Returns buf p) (suc (length buf)) pos (omega arith) tt

-- `skip_name` at a byte that ends the name, and at one that begins a label.
pub skip_name-zero :
    (buf : List ℕ) (pos : ℕ)
    → pos < length buf
    → byte_at buf pos ≡ ok 0
    → skip_name buf pos ≡ ok (pos + 1)
unfolding skip_name repeat skip_turn skip_byte
skip_name-zero buf pos h at = rw (leb-past (length buf) pos h, at) refl

pub skip_name-pointer :
    (buf : List ℕ) (pos n : ℕ)
    → pos + 1 < length buf
    → byte_at buf pos ≡ ok n
    → n == 0 ≡ false
    → is_pointer n ≡ true
    → skip_name buf pos ≡ ok (pos + 2)
unfolding skip_name repeat skip_turn skip_byte
skip_name-pointer buf pos n h at nz p =
    rw (leb-past (length buf) pos (omega arith), at, nz, p, leb-past (length buf) (pos + 1) h) refl

pub skip_name-label :
    (buf : List ℕ) (pos n : ℕ)
    → pos < length buf
    → byte_at buf pos ≡ ok n
    → n == 0 ≡ false
    → is_pointer n ≡ false
    → skip_name buf pos ≡ skip_name buf (pos + (1 + n))
unfolding skip_name repeat skip_turn skip_byte
skip_name-label buf pos n h at nz l =
    rw (leb-past (length buf) pos h, at, nz, l)
      (repeat-fuel (Inside buf) (λ p. Unit {0}) (λ p. length buf - p) (skip_turn buf)
        (λ p _. skip_turn-Returns buf p) (length buf) (suc (length buf)) (pos + (1 + n))
        (omega arith) (omega arith) tt)
