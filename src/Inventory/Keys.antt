-- ===== src/Inventory/Keys.antt =====
-- The review queue as a table with two keys: one row to an address and one to an id.
use light_ipam.Base.{
  ℕ, ◌+◌, ◌<◌, ◌≤◌, true, false, List, [], ◌∷◌, Option, none, some, Text, ◌≡◌, ◌≢◌, ◌↔◌, inl, inr,
  refl, sym, ap, ◌∙◌, arith, subst, same_iff, ==_iff, ==_refl, All, Bool-cases, if◌then◌else◌,
}
use mathlib.Core.Option.{some-injective}
use light_ipam.Netip.{Addr, v4, v6}
use light_ipam.Inventory.{Discovery, ReconcileStatus, ConflictNote, same_addr}
use light_ipam.Inventory.Queue.{DiscoveryInput, refresh, fresh, upsert_row}

pub same_addr-eq : (a b : Addr) → same_addr a b ≡ true → a ≡ b
unfolding same_addr
same_addr-eq (v4 n) (v4 m) h = ap v4 ((==_iff n m).0 h)
same_addr-eq (v6 n z) (v6 m y) h = ground (arith, same_iff z y)
same_addr-eq (v4 n) (v6 m y) h = cc
same_addr-eq (v6 n z) (v4 m) h = cc

pub same_addr_refl : (a : Addr) → same_addr a a ≡ true
unfolding same_addr
same_addr_refl (v4 n) = ==_refl n
same_addr_refl (v6 n z) = ground (arith, same_iff z z)

pub same_addr_iff : (a b : Addr) → (same_addr a b ≡ true) ↔ (a ≡ b)
same_addr_iff a b = (same_addr-eq a b, λ e. rw e (same_addr_refl b))

-- The row of an address.
abbrev pub row_at : Addr → List Discovery → Option Discovery
row_at ip [] = none
row_at ip (d ∷ rows) = if same_addr d.ip ip then some d else row_at ip rows

-- The addresses and ids of the rows are distinct, and the ids are below the next one.
abbrev pub Keyed : ℕ → List Discovery → Type 0
Keyed n [] = Unit {0}
Keyed n (d ∷ rows) =
    (d.id < n) × All (λ e. (e.id ≢ d.id) × (same_addr d.ip e.ip ≡ false)) rows × Keyed n rows

module _ (id : ℕ) (ip : Addr) (input : DiscoveryInput) (mac : Text)
    (r : ReconcileStatus × ConflictNote) (now : ℕ) where
  -- What an upsert returns: the existing row refreshed, or a fresh one.
  abbrev pub upserted : Option Discovery → Discovery
  upserted none = fresh id ip input mac r now
  upserted (some d) = refresh d input mac r now

  pub upsert_row-returns :
      (rows : List Discovery)
      → (upsert_row id ip input mac r now rows).1 ≡ upserted (row_at ip rows)
  unfolding upsert_row
  upsert_row-returns [] = refl
  upsert_row-returns (d ∷ rows) = ground (arith, upsert_row-returns rows)

  -- An upsert changes the row of its address alone.
  pub row_at-upsert_row :
      (other : Addr) (rows : List Discovery)
      → row_at other (upsert_row id ip input mac r now rows).0
        ≡ (if same_addr ip other then some (upserted (row_at ip rows)) else row_at other rows)
  unfolding upsert_row refresh fresh
  row_at-upsert_row other [] = ground (arith)
  row_at-upsert_row other (d ∷ rows) = ground (
    arith,
    row_at-upsert_row other rows,
    same_addr_iff d.ip ip,
    same_addr_iff d.ip other,
    same_addr_iff ip other,
  )

  module _ (owner : Discovery) where
    abbrev Apart : Discovery → Type 0
    Apart e = (e.id ≢ owner.id) × (same_addr owner.ip e.ip ≡ false)

    upsert_row-Apart :
        (rows : List Discovery)
        → owner.id < id
        → same_addr owner.ip ip ≡ false
        → All Apart rows
        → All Apart (upsert_row id ip input mac r now rows).0
    unfolding upsert_row refresh fresh
    upsert_row-Apart [] below off h = ((λ e. omega arith, off), tt)
    upsert_row-Apart (d ∷ rows) below off ((other, away), h) =
        elim (Bool-cases (same_addr d.ip ip)) [
          | inl hit ↦ rw hit ((other, away), h)
          | inr miss ↦ rw miss ((other, away), upsert_row-Apart rows below off h)
        ]

  abbrev raise : (rows : List Discovery) → Keyed id rows → Keyed (id + 1) rows
  raise [] h = tt
  raise (d ∷ rows) (below, apart, h) = (omega arith, apart, raise rows h)

  -- An upsert that takes a new id keeps the keys of the table.
  pub upsert_row-Keyed :
      (rows : List Discovery)
      → Keyed id rows
      → Keyed (id + 1) (upsert_row id ip input mac r now rows).0
  unfolding upsert_row refresh fresh
  upsert_row-Keyed [] h = (omega arith, tt, tt)
  upsert_row-Keyed (d ∷ rows) (below, apart, h) = elim (Bool-cases (same_addr d.ip ip)) [
    | inl hit ↦ rw hit (omega arith, apart, raise rows h)
    | inr miss ↦
        rw miss (omega arith, upsert_row-Apart d rows below miss apart, upsert_row-Keyed rows h)
  ]

abbrev Clear : Discovery → Discovery → Type 0
Clear x o = (o.id ≢ x.id) × (same_addr x.ip o.ip ≡ false)

pub row_at-hit :
    (a : Addr) (x : Discovery) (rows : List Discovery) {d : Discovery}
    → same_addr x.ip a ≡ true
    → row_at a (x ∷ rows) ≡ some d
    → x ≡ d
row_at-hit a x rows {d} hit da =
    let found : some x ≡ some d = rw hit at da in some-injective x d found

pub row_at-miss :
    (a : Addr) (x : Discovery) (rows : List Discovery) {d : Discovery}
    → same_addr x.ip a ≡ false
    → row_at a (x ∷ rows) ≡ some d
    → row_at a rows ≡ some d
row_at-miss a x rows miss da = rw miss at da

pub row_at-All :
    (P : Discovery → Type 0) (a : Addr) (rows : List Discovery) {d : Discovery}
    → All P rows
    → row_at a rows ≡ some d
    → P d
row_at-All P a [] h da = absurd cc
row_at-All P a (x ∷ rows) (px, h) da = elim (Bool-cases (same_addr x.ip a)) [
  | inl hit ↦ subst P (row_at-hit a x rows hit da) px
  | inr miss ↦ row_at-All P a rows h (row_at-miss a x rows miss da)
]

-- The rows of two addresses with one id are one row.
pub row_at-same_id :
    (n : ℕ) (a b : Addr) (rows : List Discovery) {d e : Discovery}
    → Keyed n rows
    → row_at a rows ≡ some d
    → row_at b rows ≡ some e
    → d.id ≡ e.id
    → d ≡ e
row_at-same_id n a b [] h da eb same_id = absurd cc
row_at-same_id n a b (x ∷ rows) {d} {e} (below, apart, h) da eb same_id =
    elim (Bool-cases (same_addr x.ip a)) [
      | inl hit ↦ elim (Bool-cases (same_addr x.ip b)) [
        | inl also ↦ sym (row_at-hit a x rows hit da) ∙ row_at-hit b x rows also eb
        | inr miss ↦ absurd (
            (row_at-All (Clear x) b rows apart (row_at-miss b x rows miss eb)).0
              (sym same_id ∙ ap (λ o. o.id) (sym (row_at-hit a x rows hit da))))
      ]
      | inr miss ↦ elim (Bool-cases (same_addr x.ip b)) [
        | inl hit ↦ absurd (
            (row_at-All (Clear x) a rows apart (row_at-miss a x rows miss da)).0
              (same_id ∙ ap (λ o. o.id) (sym (row_at-hit b x rows hit eb))))
        | inr also ↦
            row_at-same_id n a b rows h (row_at-miss a x rows miss da)
              (row_at-miss b x rows also eb) same_id
      ]
    ]

pub Keyed-mono : (n m : ℕ) (rows : List Discovery) → n ≤ m → Keyed n rows → Keyed m rows
Keyed-mono n m [] le h = tt
Keyed-mono n m (d ∷ rows) le (below, apart, h) = (omega arith, apart, Keyed-mono n m rows le h)
