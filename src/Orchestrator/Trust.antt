-- ===== src/Orchestrator/Trust.antt =====
-- What a scan by an agent without automatic import may write to the managed records.
use light_ipam.Base.{
  ℕ, false, not, ◌||◌, List, [], ◌∷◌, Text, ◌≡◌, inl, inr, refl, ap, sym, subst, ◌∙◌, map,
  Bool-cases, is_empty, trim_space,
}
use light_ipam.Protocol.{Observation}
use light_ipam.Inventory.{Result-cases, Postgres, Db}
use light_ipam.Inventory.Queue.{DiscoveryUpsert, upsert_discovery, is_imported}
use light_ipam.Inventory.Import.{sync_imported_discovery}
use light_ipam.Inventory.Review.{place, upsert_discovery-Reviewed}
use light_ipam.Inventory.Synced.{
  CreatesNothing-trans, named, ranged, KeepsMacs, KeepsMacs-refl, KeepsMacs-trans,
  sync_imported_discovery-CreatesNothing,
}
use light_ipam.Orchestrator.AutoLink.{auto_link_by_serial, auto_link_by_serial-CreatesNothing}
use light_ipam.Orchestrator.Record.{
  Tally, is_conflict, input_of, maybe_auto_import, sync_imported, follow_up, count,
  record_observation, record_from,
}

-- The same subnets with their ranges, addresses with their subnets, devices and states, and devices
-- with their names, and every MAC with its device.
abbrev pub SameRows : Db → Db → Type 0
SameRows db after =
    (map place after.addresses ≡ map place db.addresses)
    × (map named after.devices ≡ map named db.devices)
    × (map ranged after.subnets ≡ map ranged db.subnets)
    × KeepsMacs db.macs after.macs

SameRows-refl : (db : Db) → SameRows db db
SameRows-refl db = (refl, refl, refl, KeepsMacs-refl db.macs)

SameRows-trans : (a b c : Db) → SameRows a b → SameRows b c → SameRows a c
SameRows-trans a b c (p, d, s, m) (p', d', s', m') =
    (p' ∙ p, d' ∙ d, s' ∙ s, KeepsMacs-trans a.macs b.macs c.macs m m')

module _ (pg : Postgres) (agents : Text → Text) (job agent : Text) (now : ℕ) where
  sync_imported-SameRows :
      (db : Db) (up : DiscoveryUpsert)
      → SameRows db (sync_imported pg agents job agent false now db up).0
  unfolding sync_imported
  sync_imported-SameRows db up =
      elim (Bool-cases (not (is_imported up.review_status) || is_conflict up.reconcile_status)) [
        | inl declined ↦ rw declined (SameRows-refl db)
        | inr goes ↦ rw goes (elim (Result-cases (sync_imported_discovery pg agents db up.id)) [
          | inl (e, failed) ↦ rw failed (SameRows-refl db)
          | inr (out, done) ↦
              let (q, n, p, d, s, m) =
                CreatesNothing-trans db out.0 (auto_link_by_serial pg out.0 out.1)
                  (sync_imported_discovery-CreatesNothing pg agents db up.id done)
                  (auto_link_by_serial-CreatesNothing pg out.0 out.1) in
              rw done (p, d, s, m)
        ])
      ]

  follow_up-SameRows :
      (db : Db) (up : DiscoveryUpsert)
      → SameRows db (follow_up pg agents job agent false now db up).0
  unfolding follow_up maybe_auto_import
  follow_up-SameRows db up =
      elim (Bool-cases (sync_imported pg agents job agent false now db up).1) [
        | inl also ↦ rw also (sync_imported-SameRows db up)
        | inr none_done ↦ rw none_done (sync_imported-SameRows db up)
      ]

  record_observation-SameRows :
      (db : Db) (obs : Observation)
      → SameRows db (record_observation pg agents job agent false now db obs).0
  unfolding record_observation
  record_observation-SameRows db obs = elim (Bool-cases (is_empty (trim_space obs.ip))) [
    | inl blank ↦ rw blank (SameRows-refl db)
    | inr given ↦
        rw given (elim (Result-cases (upsert_discovery pg db (input_of job agent obs) now)) [
          | inl (e, failed) ↦ rw failed (SameRows-refl db)
          | inr (out, done) ↦
              let (at, cast, kept) =
                upsert_discovery-Reviewed pg db (input_of job agent obs) now done in
              let (row, others, same, keys) = kept in
              let (subnets, devices, macs, places) = same in
              rw done (
                SameRows-trans db out.0 (follow_up pg agents job agent false now out.0 out.1).0
                  (
                    places,
                    ap (map named) devices,
                    ap (map ranged) subnets,
                    subst (KeepsMacs db.macs) (sym macs) (KeepsMacs-refl db.macs),
                  )
                  (follow_up-SameRows out.0 out.1))
        ])
  ]

  -- A scan by an agent that is not trusted, whatever it observes, creates and removes no subnet,
  -- device or address and removes no MAC: each subnet keeps its range, each address its subnet,
  -- device and state, each device its name, and each MAC its device.
  pub record_from-SameRows :
      (db : Db) (tally : Tally) (observations : List Observation)
      → SameRows db (record_from pg agents job agent false now db tally observations).0
  unfolding record_from
  record_from-SameRows db tally [] = SameRows-refl db
  record_from-SameRows db tally (obs ∷ observations) =
      let one = record_observation pg agents job agent false now db obs in
      SameRows-trans db one.0
        (record_from pg agents job agent false now one.0 (count tally one.1) observations).0
        (record_observation-SameRows db obs)
        (record_from-SameRows one.0 (count tally one.1) observations)
