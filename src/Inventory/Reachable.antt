-- ===== src/Inventory/Reachable.antt =====
-- The databases that the operations of internal/store/discoveries.go lead to.
use light_ipam.Base.{
  ℕ, ◌==◌, ◌&&◌, not, [], Option, Text, ◌≡◌, inl, inr, refl, sym, subst, Bool-cases,
}
use light_ipam.Inventory.{Postgres, Discovery, Db, ok, ok-injective, err≢ok}
use light_ipam.Inventory.Queue.{
  DiscoveryInput, DiscoveryUpsert, upsert_discovery, dismiss_rows, dismiss_discovery, is_imported,
}
use light_ipam.Inventory.Import.{
  import_into, import_discovery, mark_imported, sync_imported_discovery,
}
use light_ipam.Inventory.Keys.{Keyed, Keyed-mono}
use light_ipam.Inventory.Marks.{map-Keyed, mark_imported-Keyed, dismissed_row, dismiss_rows-map}
use light_ipam.Inventory.Review.{upsert_discovery-Reviewed}
use light_ipam.Inventory.Linked.{import_discovery-eq-ok, import_into-marks}
use light_ipam.Inventory.Synced.{sync_imported_discovery-CreatesNothing}

-- The keys of the review queue hold.
abbrev pub Valid : Db → Type 0
Valid db = Keyed db.next_id db.discoveries

module _ (pg : Postgres) (agents : Text → Text) where
  -- One operation that succeeds; a failed one leaves the database.
  pub data Step (before after : Db) : Type 0 where
    observe :
        (input : DiscoveryInput) (now : ℕ) (up : DiscoveryUpsert)
        → upsert_discovery pg before input now ≡ ok (after, up)
        → Step before after
    take_in :
        (id : ℕ) (name : Text) (now : ℕ)
        → import_discovery pg agents before id name now ≡ ok after
        → Step before after
    dismiss : (id : ℕ) → dismiss_discovery before id ≡ ok after → Step before after
    sync :
        (id : ℕ) (device : Option ℕ)
        → sync_imported_discovery pg agents before id ≡ ok (after, device)
        → Step before after

  -- From an empty queue, whatever the other tables hold.
  pub data Reachable : Db → Type 0 where
    start : {db : Db} → db.discoveries ≡ [] → Reachable db
    step : {db after : Db} → Reachable db → Step db after → Reachable after

  dismissed_row-id : (id : ℕ) (d : Discovery) → (dismissed_row id d).id ≡ d.id
  dismissed_row-id id d = elim (Bool-cases (d.id == id && not (is_imported d.status))) [
    | inl hit ↦ rw hit refl
    | inr miss ↦ rw miss refl
  ]

  dismissed_row-ip : (id : ℕ) (d : Discovery) → (dismissed_row id d).ip ≡ d.ip
  dismissed_row-ip id d = elim (Bool-cases (d.id == id && not (is_imported d.status))) [
    | inl hit ↦ rw hit refl
    | inr miss ↦ rw miss refl
  ]

  dismiss_discovery-Valid :
      (db after : Db) (id : ℕ) → dismiss_discovery db id ≡ ok after → Valid db → Valid after
  unfolding dismiss_discovery
  dismiss_discovery-Valid db after id h v =
      let kept : Keyed db.next_id (dismiss_rows id db.discoveries).0 =
        subst (Keyed db.next_id) (sym (dismiss_rows-map id db.discoveries)) (
          map-Keyed (dismissed_row id) (dismissed_row-id id) (dismissed_row-ip id) db.next_id
            db.discoveries v) in
      elim (Bool-cases ((dismiss_rows id db.discoveries).1 == 0)) [
        | inl none_there ↦ absurd (err≢ok (rw (dismiss_discovery, none_there) at h))
        | inr found ↦ subst Valid (ok-injective (rw (dismiss_discovery, found) at h)) kept
      ]

  import_discovery-Valid :
      (db after : Db) (id : ℕ) (name : Text) (now : ℕ)
      → import_discovery pg agents db id name now ≡ ok after
      → Valid db
      → Valid after
  import_discovery-Valid db after id name now h v =
      let (d, s, by_id, around, done) = import_discovery-eq-ok pg agents db id name now h in
      let (address, device, marks, le) = import_into-marks pg agents db d name now s in
      let out = import_into pg agents db d name now s in
      subst Valid done (
        rw marks (
          Keyed-mono db.next_id out.next_id (mark_imported d.id address device db.discoveries) le
            (mark_imported-Keyed db.next_id d.id address device db.discoveries v)))

  Step-Valid : (db after : Db) → Step db after → Valid db → Valid after
  Step-Valid db after (observe input now up h) v =
      let (ip, cast, kept) = upsert_discovery-Reviewed pg db input now h in
      let (row, others, same, keys) = kept in keys v
  Step-Valid db after (take_in id name now h) v = import_discovery-Valid db after id name now h v
  Step-Valid db after (dismiss id h) v = dismiss_discovery-Valid db after id h v
  Step-Valid db after (sync id device h) v =
      let (same, le, places, devices, subnets, macs) =
        sync_imported_discovery-CreatesNothing pg agents db id h in
      rw same (Keyed-mono db.next_id after.next_id db.discoveries le v)

  -- From an empty queue, no sequence of observations, imports, dismissals and syncs makes two rows
  -- of one address or of one id, and each id in use is below the next one.
  pub Reachable-Valid : (db : Db) → Reachable db → Valid db
  Reachable-Valid db (start empty_queue) = rw empty_queue tt
  Reachable-Valid db (step {db = before} r s) = Step-Valid before db s (Reachable-Valid before r)
