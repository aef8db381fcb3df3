-- ===== src/Names/ReadLaws.antt =====
-- `readDNSName` ends on every packet, stays inside it, and ends a name where `skipName` does.
use mathlib.Core.Option.{some-injective}
use light_ipam.Base.{
  ℕ, suc, ◌+◌, ◌-◌, ◌*◌, ◌%◌, ◌<◌, ◌≤◌, true, false, List, Option, none, some, Text, length, leb,
  ltb, ◌==◌, ◌≡◌, inl, inr, refl, ap, subst, ◌∙◌, arith, Bool-cases,
}
use light_ipam.Names.{
  Reading, ok, byte_at, Returns, Keeps, repeat-Returns, byte_at_lem, word_at_lem, slice_lem,
}
use light_ipam.Names.Dns.{
  is_pointer, skip_name, ReadState, ReadTurn, or_next, pointed, follow_pointer, read_label,
  read_byte, read_turn, read_dns_name,
}
use light_ipam.Names.DnsLaws.{Inside, skip_name-zero, skip_name-pointer, skip_name-label}

module _ (buf : List ℕ) where
  -- Where `skipName` ends the name, for a reader at `pos` that has met its first pointer or not.
  abbrev Rest : Option ℕ → ℕ → Reading ℕ
  Rest none pos = skip_name buf pos
  Rest (some n) pos = ok n

  Rest-zero :
      (o : Option ℕ) (pos : ℕ)
      → pos < length buf
      → byte_at buf pos ≡ ok 0
      → Rest o pos ≡ ok (or_next o (pos + 1))
  Rest-zero none pos h at = skip_name-zero buf pos h at
  Rest-zero (some n) pos h at = refl

  Rest-pointer :
      (o : Option ℕ) (pos n : ℕ)
      → pos + 1 < length buf
      → byte_at buf pos ≡ ok n
      → n == 0 ≡ false
      → is_pointer n ≡ true
      → Rest o pos ≡ ok (or_next o (pos + 2))
  Rest-pointer none pos n h at nz p = skip_name-pointer buf pos n h at nz p
  Rest-pointer (some q) pos n h at nz p = refl

  Rest-label :
      (o : Option ℕ) (pos n : ℕ)
      → pos < length buf
      → byte_at buf pos ≡ ok n
      → n == 0 ≡ false
      → is_pointer n ≡ false
      → Rest o pos ≡ Rest o (pos + 1 + n)
  Rest-label none pos n h at nz l =
      skip_name-label buf pos n h at nz l ∙ ap (skip_name buf) (omega arith)
  Rest-label (some q) pos n h at nz l = refl

  -- The hops are bounded, an end that is set lies in the packet, and the end to come is that of
  -- the name at `start`.
  abbrev ReadInv : ℕ → ReadState → Type 0
  ReadInv start s =
      (s.hops ≤ 16)
      × ((n : ℕ) → s.next ≡ some n → n ≤ length buf)
      × (skip_name buf start ≡ Rest s.next s.pos)

  abbrev left_to_read : ReadState → ℕ
  left_to_read s = (16 - s.hops) * (length buf + 2) + (length buf + 1 - s.pos)

  -- What is read ends in the packet, where `skipName` ends it.
  abbrev pub EndsAs : ℕ → Text × ℕ → Type 0
  EndsAs start r = Inside buf r.1 × (skip_name buf start ≡ ok r.1)

  abbrev Good : ℕ → ReadState → ReadTurn → Type 0
  Good start s = Keeps (EndsAs start) (ReadInv start) left_to_read (left_to_read s)

  or_next-Inside :
      (o : Option ℕ) (p : ℕ)
      → ((n : ℕ) → o ≡ some n → Inside buf n)
      → Inside buf p
      → Inside buf (or_next o p)
  or_next-Inside none p h le = le
  or_next-Inside (some n) p h le = h n refl

-- Following a pointer leaves less to do, wherever it leads.
hop-less :
    (h L p w : ℕ)
    → h + 1 ≤ 16
    → (16 - (h + 1)) * (L + 2) + (L + 1 - w) < (16 - h) * (L + 2) + (L + 1 - p)
hop-less h L p w le = let e : 16 - h ≡ suc (16 - (h + 1)) = omega arith in rw e (omega arith)

module _ (buf : List ℕ) (start : ℕ) (s : ReadState) (i : ReadInv buf start s) where
  pointed-Returns :
      (w : ℕ)
      → s.pos + 1 < length buf
      → Rest buf s.next s.pos ≡ ok (or_next s.next (s.pos + 2))
      → Returns (Good buf start s) (pointed s w)
  pointed-Returns w h end = elim (Bool-cases (ltb 16 (s.hops + 1))) [
    | inl loop ↦ rw loop tt
    | inr fine ↦
        let le : s.hops + 1 ≤ 16 = ground arith in
        rw fine (
          (
            le,
            λ n e.
                subst (Inside buf) (some-injective _ _ e)
                  (or_next-Inside buf s.next (s.pos + 2) i.1 (omega arith)),
            i.2 ∙ end,
          ),
          hop-less s.hops (length buf) s.pos (w % 0x4000) le,
        )
  ]

  module _ (n : ℕ) (h : s.pos < length buf) (at : byte_at buf s.pos ≡ ok n)
      (nz : n == 0 ≡ false) where
    follow_pointer-Returns : is_pointer n ≡ true → Returns (Good buf start s) (follow_pointer buf s)
    unfolding follow_pointer
    follow_pointer-Returns p = elim (Bool-cases (leb (length buf) (s.pos + 1))) [
      | inl short ↦ rw short tt
      | inr long ↦
          let h' : s.pos + 1 < length buf = ground arith in
          let (w, at_w) = word_at_lem buf s.pos h' in
          rw (long, at_w) (pointed-Returns w h' (Rest-pointer buf s.next s.pos n h' at nz p))
    ]

    read_label-Returns : is_pointer n ≡ false → Returns (Good buf start s) (read_label buf s n)
    unfolding read_label
    read_label-Returns l = elim (Bool-cases (ltb (length buf) (s.pos + 1 + n))) [
      | inl past ↦ rw past tt
      | inr inside ↦
          let le : s.pos + 1 + n ≤ length buf = ground arith in
          rw (inside, slice_lem buf (s.pos + 1) (s.pos + 1 + n) (omega arith) le)
            ((i.0, i.1, i.2 ∙ Rest-label buf s.next s.pos n h at nz l), omega arith)
    ]

  read_byte-Returns :
      (n : ℕ)
      → s.pos < length buf
      → byte_at buf s.pos ≡ ok n
      → Returns (Good buf start s) (read_byte buf s n)
  unfolding read_byte
  read_byte-Returns n h at = elim (Bool-cases (n == 0)) [
    | inl z ↦
        let at_zero : byte_at buf s.pos ≡ ok 0 =
          subst (λ k. byte_at buf s.pos ≡ ok k) (ground arith) at in
        rw z (
          or_next-Inside buf s.next (s.pos + 1) i.1 (omega arith),
          i.2 ∙ Rest-zero buf s.next s.pos h at_zero,
        )
    | inr nz ↦ elim (Bool-cases (is_pointer n)) [
      | inl p ↦ rw (nz, p) (follow_pointer-Returns n h at nz p)
      | inr l ↦ rw (nz, l) (read_label-Returns n h at nz l)
    ]
  ]

  read_turn-Returns : Returns (Good buf start s) (read_turn buf s)
  unfolding read_turn
  read_turn-Returns = elim (Bool-cases (leb (length buf) s.pos)) [
    | inl past ↦ rw past tt
    | inr inside ↦
        let h : s.pos < length buf = ground arith in
        let (n, at) = byte_at_lem buf s.pos h in rw (inside, at) (read_byte-Returns n h at)
  ]

-- On every packet and from every position, however the compression pointers are arranged,
-- `readDNSName` ends and reads no byte outside of the packet. When it gives a name, the end that it
-- gives lies in the packet, and `skipName` from the same position succeeds with the same end.
pub read_dns_name-Returns :
    (buf : List ℕ) (pos : ℕ) → Returns (EndsAs buf pos) (read_dns_name buf pos)
unfolding read_dns_name
read_dns_name-Returns buf pos =
    repeat-Returns (EndsAs buf pos) (ReadInv buf pos) (left_to_read buf) (read_turn buf)
      (read_turn-Returns buf pos) (17 * (length buf + 2)) _ (omega arith)
      (omega arith, λ n e. cc, refl)
