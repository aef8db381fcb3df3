-- ===== src/Inventory/Marks.antt =====
-- What marking rows as imported or dismissed does to the keys of the review queue.
use light_ipam.Base.{
  ℕ, false, not, ◌&&◌, List, [], ◌∷◌, some, ◌≡◌, ◌≢◌, inl, inr, refl, sym, ap, ◌∙◌, subst, map,
  ==_iff, All, Bool-cases, if◌then◌else◌, ◌==◌,
}
use mathlib.Core.Option
use mathlib.Core.Option.{some-injective}
use light_ipam.Netip.{Addr}
use light_ipam.Inventory.{Discovery, dismissed, imported, same_addr}
use light_ipam.Inventory.Queue.{is_imported, dismiss_rows}
use light_ipam.Inventory.Import.{mark_imported}
use light_ipam.Inventory.Keys.{row_at, Keyed}

-- A change of rows that leaves their ids and addresses alone keeps the keys.
module _ (change : Discovery → Discovery) (ids : (d : Discovery) → (change d).id ≡ d.id)
    (ips : (d : Discovery) → (change d).ip ≡ d.ip) where
  map-Apart :
      (owner : Discovery) (rows : List Discovery)
      → All (λ e. (e.id ≢ owner.id) × (same_addr owner.ip e.ip ≡ false)) rows
      → All
          (λ e. (e.id ≢ (change owner).id) × (same_addr (change owner).ip e.ip ≡ false))
          (map change rows)
  map-Apart owner [] h = tt
  map-Apart owner (d ∷ rows) ((other, away), h) =
      (rw (ids d, ids owner, ips d, ips owner) (other, away), map-Apart owner rows h)

  pub map-Keyed : (n : ℕ) (rows : List Discovery) → Keyed n rows → Keyed n (map change rows)
  map-Keyed n [] h = tt
  map-Keyed n (d ∷ rows) (below, apart, h) =
      (rw (ids d) below, map-Apart d rows apart, map-Keyed n rows h)

  pub row_at-map :
      (ip : Addr) (rows : List Discovery)
      → row_at ip (map change rows) ≡ Option.map change (row_at ip rows)
  row_at-map ip [] = refl
  row_at-map ip (d ∷ rows) = elim (Bool-cases (same_addr d.ip ip)) [
    | inl hit ↦ simp (ips d, hit)
    | inr miss ↦ simp (ips d, miss, row_at-map ip rows)
  ]

abbrev pub imported_row : ℕ → ℕ → ℕ → Discovery → Discovery
imported_row id address device d =
    if d.id == id
    then record d {
      status = imported;
      imported_address_id = some address;
      imported_device_id = some device;
    }
    else d

imported_row-id :
    (id address device : ℕ) (d : Discovery) → (imported_row id address device d).id ≡ d.id
imported_row-id id address device d = elim (Bool-cases (d.id == id)) [
  | inl hit ↦ rw hit refl
  | inr miss ↦ rw miss refl
]

imported_row-ip :
    (id address device : ℕ) (d : Discovery) → (imported_row id address device d).ip ≡ d.ip
imported_row-ip id address device d = elim (Bool-cases (d.id == id)) [
  | inl hit ↦ rw hit refl
  | inr miss ↦ rw miss refl
]

imported_row-other :
    (id address device : ℕ) (d : Discovery) → d.id ≢ id → imported_row id address device d ≡ d
imported_row-other id address device d other = elim (Bool-cases (d.id == id)) [
  | inl hit ↦ absurd (other ((==_iff d.id id).0 hit))
  | inr miss ↦ rw miss refl
]

pub mark_imported-map :
    (id address device : ℕ) (rows : List Discovery)
    → mark_imported id address device rows ≡ map (imported_row id address device) rows
unfolding mark_imported
mark_imported-map id address device [] = refl
mark_imported-map id address device (d ∷ rows) =
    ap (λ rest. imported_row id address device d ∷ rest) (mark_imported-map id address device rows)

abbrev pub dismissed_row : ℕ → Discovery → Discovery
dismissed_row id d =
    if d.id == id && not (is_imported d.status) then record d { status = dismissed } else d

pub dismiss_rows-map :
    (id : ℕ) (rows : List Discovery) → (dismiss_rows id rows).0 ≡ map (dismissed_row id) rows
unfolding dismiss_rows
dismiss_rows-map id [] = refl
dismiss_rows-map id (d ∷ rows) = elim (Bool-cases (d.id == id && not (is_imported d.status))) [
  | inl hit ↦ rw (hit, dismiss_rows-map id rows) refl
  | inr miss ↦ rw (miss, dismiss_rows-map id rows) refl
]

-- An import's mark keeps the keys.
pub mark_imported-Keyed :
    (n id address device : ℕ) (rows : List Discovery)
    → Keyed n rows
    → Keyed n (mark_imported id address device rows)
mark_imported-Keyed n id address device rows h =
    subst (Keyed n) (sym (mark_imported-map id address device rows)) (
      map-Keyed (imported_row id address device) (imported_row-id id address device)
        (imported_row-ip id address device) n rows h)

-- A row with another id keeps its place and its fields under an import's mark.
pub row_at-mark_imported :
    (id address device : ℕ) (ip : Addr) (rows : List Discovery) {d : Discovery}
    → row_at ip rows ≡ some d
    → d.id ≢ id
    → row_at ip (mark_imported id address device rows) ≡ some d
row_at-mark_imported id address device ip rows {d} at other =
    ap (row_at ip) (mark_imported-map id address device rows)
    ∙ row_at-map (imported_row id address device) (imported_row-id id address device)
        (imported_row-ip id address device) ip rows
    ∙ ap (Option.map (imported_row id address device)) at
    ∙ ap some (imported_row-other id address device d other)
