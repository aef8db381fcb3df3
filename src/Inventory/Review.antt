-- ===== src/Inventory/Review.antt =====
-- What one observation does to the review queue and to the managed records.
use light_ipam.Base.{
  ℕ, List, [], ◌∷◌, Option, none, some, Text, ◌≡◌, ◌≢◌, ◌⊎◌, inl, inr, refl, sym, ap, subst, ◌∙◌,
  map, Bool-cases, arith,
}
use light_ipam.Netip.{Addr}
use light_ipam.Inventory.{
  Postgres, ReviewStatus, pending, imported, dismissed, new, matching, conflict, ok, ◌>>=◌,
  >>=-eq-ok, ok-injective, ReconcileStatus, AddressState, Address, Discovery, Db, same_addr,
}
use light_ipam.Inventory.Queue.{
  DiscoveryInput, DiscoveryUpsert, reconcile_discovery, reopened, refresh, fresh, touch_address,
  upsert_cast, is_new, upsert_discovery, ip_argument, mac_argument,
}
use light_ipam.Inventory.Keys.{
  row_at, Keyed, upserted, upsert_row-returns, row_at-upsert_row, upsert_row-Keyed, same_addr_refl,
  same_addr_iff,
}

-- An address without the time that it was last seen, and without its name.
abbrev pub place : Address → ℕ × ℕ × Option ℕ × Addr × AddressState
place a = (a.id, a.subnet_id, a.device_id, a.address, a.state)

pub map-place-touch_address :
    (ip : Addr) (now : ℕ) (rows : List Address)
    → map place (touch_address ip now rows) ≡ map place rows
unfolding touch_address
map-place-touch_address ip now [] = refl
map-place-touch_address ip now (a ∷ rows) = elim (Bool-cases (same_addr a.address ip)) [
  | inl hit ↦ rw hit (ap (λ r. place a ∷ r) (map-place-touch_address ip now rows))
  | inr miss ↦ rw miss (ap (λ r. place a ∷ r) (map-place-touch_address ip now rows))
]

-- The review status that an observation leaves.
abbrev review_after : Option Discovery → ReconcileStatus → ReviewStatus
review_after none r = pending
review_after (some d) r = reopened d.status d.imported_address_id r

-- An imported row whose address is gone, and that nothing managed matches any more.
abbrev pub IsOrphan : Discovery → ReconcileStatus → Type 0
IsOrphan d r = (d.status ≡ imported) × (d.imported_address_id ≡ none) × (r ≡ new)

-- The rule for the status of a row after an observation: a new row and an orphan are pending, and any
-- other row keeps what it has.
abbrev pub FollowsRule : Option Discovery → ReconcileStatus → ReviewStatus → Type 0
FollowsRule none r status = status ≡ pending
FollowsRule (some d) r status =
    (IsOrphan d r × (status ≡ pending)) ⊎ (¬ IsOrphan d r × (status ≡ d.status))

review_after-FollowsRule :
    (o : Option Discovery) (r : ReconcileStatus) → FollowsRule o r (review_after o r)
review_after-FollowsRule none r = refl
review_after-FollowsRule (some d) r = reopened_cases d.status d.imported_address_id r
  where
    reopened_cases :
        (s : ReviewStatus) (a : Option ℕ) (r : ReconcileStatus)
        → (((s ≡ imported) × (a ≡ none) × (r ≡ new)) × (reopened s a r ≡ pending))
          ⊎ (¬ ((s ≡ imported) × (a ≡ none) × (r ≡ new)) × (reopened s a r ≡ s))
    reopened_cases imported none new = inl ((refl, refl, refl), refl)
    reopened_cases imported none matching = inr ((λ (x, y, z). cc z), refl)
    reopened_cases imported none conflict = inr ((λ (x, y, z). cc z), refl)
    reopened_cases imported (some n) r = inr ((λ (x, y, z). cc y), refl)
    reopened_cases pending a r = inr ((λ (x, y, z). cc x), refl)
    reopened_cases dismissed a r = inr ((λ (x, y, z). cc x), refl)

-- The managed records that an observation may not touch.
abbrev pub SameInventory : Db → Db → Type 0
SameInventory db after =
    (after.subnets ≡ db.subnets)
    × (after.devices ≡ db.devices)
    × (after.macs ≡ db.macs)
    × (map place after.addresses ≡ map place db.addresses)

module _ (pg : Postgres) (db : Db) (input : DiscoveryInput) (ip : Addr) (mac : Text) (now : ℕ) where
  abbrev after : Db
  after = (upsert_cast pg db input ip mac now).0

  abbrev up : DiscoveryUpsert
  up = (upsert_cast pg db input ip mac now).1

  upserted-status :
      (o : Option Discovery)
      → (upserted db.next_id ip input mac (reconcile_discovery pg db ip mac) now o).status
        ≡ review_after o (reconcile_discovery pg db ip mac).0
  unfolding refresh fresh
  upserted-status none = refl
  upserted-status (some d) = refl

  pub upsert_cast-row :
      (d : Discovery) × (row_at ip after.discoveries ≡ some d)
      × (d.id ≡ up.id)
      × (d.status ≡ up.review_status)
      × FollowsRule (row_at ip db.discoveries) up.reconcile_status d.status
      × (up.reconcile_status ≡ (reconcile_discovery pg db ip mac).0)
  unfolding upsert_cast refresh fresh
  upsert_cast-row =
      let r = reconcile_discovery pg db ip mac in
      let returned = sym (upsert_row-returns db.next_id ip input mac r now db.discoveries) in
      (
        upserted db.next_id ip input mac r now (row_at ip db.discoveries),
        rw (row_at-upsert_row db.next_id ip input mac r now ip db.discoveries, same_addr_refl ip)
            refl,
        ap (λ d. d.id) returned,
        ap (λ d. d.status) returned,
        subst (FollowsRule (row_at ip db.discoveries) r.0)
            (sym (upserted-status (row_at ip db.discoveries)))
            (review_after-FollowsRule (row_at ip db.discoveries) r.0),
        refl,
      )

  pub upsert_cast-others :
      (other : Addr) → other ≢ ip → row_at other after.discoveries ≡ row_at other db.discoveries
  unfolding upsert_cast
  upsert_cast-others other away =
      let r = reconcile_discovery pg db ip mac in
      row_at-upsert_row db.next_id ip input mac r now other db.discoveries
      ∙ elim (Bool-cases (same_addr ip other)) [
        | inl hit ↦ absurd (away (sym ((same_addr_iff ip other).0 hit)))
        | inr miss ↦ rw miss refl
      ]

  pub upsert_cast-SameInventory : SameInventory db after
  unfolding upsert_cast
  upsert_cast-SameInventory = (
    refl,
    refl,
    refl,
    (elim (Bool-cases (is_new (reconcile_discovery pg db ip mac).0)) [
      | inl fresh_host ↦ rw fresh_host refl
      | inr managed ↦ rw managed (map-place-touch_address ip now db.addresses)
    ]),
  )

  pub upsert_cast-Keyed : Keyed db.next_id db.discoveries → Keyed after.next_id after.discoveries
  unfolding upsert_cast
  upsert_cast-Keyed h =
      upsert_row-Keyed db.next_id ip input mac (reconcile_discovery pg db ip mac) now db.discoveries
        h

-- What recording an observation of `ip` promises: the row of `ip` exists and is the one returned,
-- its review status follows the rule, no other row changes, and of the managed
-- records only the names and times of addresses may.
abbrev pub Reviewed : Db → Addr → Db → DiscoveryUpsert → Type 0
Reviewed db ip after up =
    ((d : Discovery) × (row_at ip after.discoveries ≡ some d)
      × (d.id ≡ up.id)
      × (d.status ≡ up.review_status)
      × FollowsRule (row_at ip db.discoveries) up.reconcile_status d.status)
    × ((other : Addr) → other ≢ ip → row_at other after.discoveries ≡ row_at other db.discoveries)
    × SameInventory db after
    × (Keyed db.next_id db.discoveries → Keyed after.next_id after.discoveries)

upsert_cast-Reviewed :
    (pg : Postgres) (db : Db) (input : DiscoveryInput) (ip : Addr) (mac : Text) (now : ℕ)
    → Reviewed db ip (upsert_cast pg db input ip mac now).0 (upsert_cast pg db input ip mac now).1
upsert_cast-Reviewed pg db input ip mac now =
    let (d, found, id, status, rule, same_verdict) = upsert_cast-row pg db input ip mac now in
    (
      (d, found, id, status, rule),
      upsert_cast-others pg db input ip mac now,
      upsert_cast-SameInventory pg db input ip mac now,
      upsert_cast-Keyed pg db input ip mac now,
    )

-- A successful cast is PostgreSQL's.
pub ip_argument-eq-ok :
    (pg : Postgres) (t : Text) {ip : Addr} → ip_argument pg t ≡ ok ip → pg.cast_inet t ≡ some ip
unfolding ip_argument
ip_argument-eq-ok pg t h = ground arith

-- Where an upsert succeeds, PostgreSQL read its address, and it keeps the promise above for that
-- address: its row is pending if it is new, or if it was imported and its imported address is gone
-- and the verdict is new, and else keeps its status; every other row stays, subnets, devices and MACs stay, and an address row keeps its id, subnet,
-- device and state. A table with distinct addresses and ids stays one.
pub upsert_discovery-Reviewed :
    (pg : Postgres) (db : Db) (input : DiscoveryInput) (now : ℕ) {after : Db} {up : DiscoveryUpsert}
    → upsert_discovery pg db input now ≡ ok (after, up)
    → (ip : Addr) × (pg.cast_inet input.ip ≡ some ip) × Reviewed db ip after up
unfolding upsert_discovery
upsert_discovery-Reviewed pg db input now {after} {up} h =
    let (ip, cast, rest) =
      >>=-eq-ok (ip_argument pg input.ip)
        (λ ip. mac_argument pg input.mac >>= λ mac. ok (upsert_cast pg db input ip mac now)) h in
    let (mac, mac_cast, done) =
      >>=-eq-ok (mac_argument pg input.mac) (λ mac. ok (upsert_cast pg db input ip mac now)) rest in
    (
      ip,
      ip_argument-eq-ok pg input.ip cast,
      subst (λ out. Reviewed db ip out.0 out.1) (ok-injective done)
          (upsert_cast-Reviewed pg db input ip mac now),
    )
