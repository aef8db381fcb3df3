-- ===== src/Orchestrator/Review.antt =====
-- The review queue across a whole `recordDiscoveries`.
use mathlib.Core.Bool.{true≢false}
use light_ipam.Base.{
  ℕ, ◌≤◌, Bool, false, not, ◌||◌, List, [], ◌∷◌, some, Text, ◌≡◌, ◌≢◌, inl, inr, sym, ap, subst,
  ◌∙◌, Bool-cases, arith, is_empty, trim_space,
}
use light_ipam.Netip.{Addr}
use light_ipam.Protocol.{Observation}
use light_ipam.Inventory
use light_ipam.Inventory.{
  Result-cases, Postgres, ReviewStatus, pending, imported, dismissed, ReconcileStatus, Discovery,
  Db, same_addr,
}
use light_ipam.Inventory.Queue.{DiscoveryUpsert, upsert_discovery, is_imported, discovery_by_id}
use light_ipam.Inventory.Import.{
  import_discovery, sync_imported_discovery, mark_imported, import_into,
}
use light_ipam.Inventory.Keys.{row_at, Keyed, Keyed-mono, row_at-same_id, same_addr_iff}
use light_ipam.Inventory.Marks.{mark_imported-Keyed, row_at-mark_imported}
use light_ipam.Inventory.Review.{Reviewed, FollowsRule, upsert_discovery-Reviewed}
use light_ipam.Inventory.Linked.{import_discovery-eq-ok, import_into-marks, discovery_by_id-id}
use light_ipam.Orchestrator.AutoLink.{auto_link_by_serial, auto_link_by_serial-CreatesNothing}
use light_ipam.Inventory.Synced.{
  CreatesNothing, CreatesNothing-trans, sync_imported_discovery-CreatesNothing,
}
use light_ipam.Orchestrator.Record.{
  device_of, Tally, is_pending, is_conflict, input_of, maybe_auto_import, sync_imported, follow_up,
  count, record_observation, record_from,
}

-- The queue's keys hold, and the row of `ip` is dismissed.
abbrev pub Dismissed : Addr → Db → Type 0
Dismissed ip db =
    Keyed db.next_id db.discoveries
    × ((d : Discovery) × (row_at ip db.discoveries ≡ some d) × (d.status ≡ dismissed))

-- The rule keeps a dismissed row dismissed.
dismissed_kept :
    (status : ReviewStatus) (r : ReconcileStatus) (d : Discovery)
    → FollowsRule (some d) r status
    → d.status ≡ dismissed
    → status ≡ dismissed
dismissed_kept status r d (inl ((was, gone, fresh), pend)) dis =
    absurd (imported≢dismissed (sym was ∙ dis))
  where
    imported≢dismissed : imported ≢ dismissed
    imported≢dismissed h = cc h
dismissed_kept status r d (inr (kept, q)) dis = q ∙ dis

pending≢dismissed : pending ≢ dismissed
pending≢dismissed h = cc

goes-pending :
    (trusted : Bool) (up : DiscoveryUpsert)
    → (not trusted || not (is_pending up.review_status) || is_conflict up.reconcile_status) ≡ false
    → up.review_status ≡ pending
goes-pending trusted up h = ground arith

kept-Dismissed :
    (ip : Addr) (db after : Db) → CreatesNothing db after → Dismissed ip db → Dismissed ip after
kept-Dismissed ip db after (same, le, a, b, c, m) (h, (d, found, dis)) =
    (rw same (Keyed-mono db.next_id after.next_id db.discoveries le h), (d, rw same found, dis))

-- An upsert of any address.
Reviewed-Dismissed :
    (ip at : Addr) (db after : Db) (up : DiscoveryUpsert)
    → Reviewed db at after up
    → Dismissed ip db
    → Dismissed ip after
Reviewed-Dismissed ip at db after up ((e, here_now, id, status, rule), others, same, keys)
      (h, (d, found, dis)) =
    (
      keys h,
      elim (Bool-cases (same_addr at ip)) [
        | inl hit ↦
            let e_same : at ≡ ip = (same_addr_iff at ip).0 hit in
            (
              e,
              subst (λ a. row_at a after.discoveries ≡ some e) e_same here_now,
              dismissed_kept e.status up.reconcile_status d
                  (subst (λ o. FollowsRule o up.reconcile_status e.status)
                    (ap (λ a. row_at a db.discoveries) e_same ∙ found) rule)
                  dis,
            )
        | inr miss ↦ (
          d,
          others ip (λ e. true≢false (sym ((same_addr_iff at ip).1 (sym e)) ∙ miss)) ∙ found,
          dis,
        )
      ],
    )

module _ (pg : Postgres) (agents : Text → Text) (job agent : Text) (trusted : Bool) (now : ℕ) where
  marked-Dismissed :
      (ip at : Addr) (db after : Db) (id address device : ℕ) (e : Discovery)
      → row_at at db.discoveries ≡ some e
      → e.id ≡ id
      → e.status ≡ pending
      → after.discoveries ≡ mark_imported id address device db.discoveries
      → db.next_id ≤ after.next_id
      → Dismissed ip db
      → Dismissed ip after
  marked-Dismissed ip at db after id address device e here_now same status marks le
        (h, (d, found, dis)) =
      let other : d.id ≢ id = λ q. pending≢dismissed (
        sym status
        ∙ ap (λ o. o.status)
            (row_at-same_id db.next_id at ip db.discoveries h here_now found (same ∙ sym q))
        ∙ dis) in
      (
        rw marks (
            Keyed-mono db.next_id after.next_id (mark_imported id address device db.discoveries) le
              (mark_imported-Keyed db.next_id id address device db.discoveries h)),
        (d, rw marks (row_at-mark_imported id address device ip db.discoveries found other), dis),
      )

  imported-Dismissed :
      (ip at : Addr) (db after : Db) (id : ℕ) (e : Discovery)
      → import_discovery pg agents db id [] now ≡ Inventory.Result.ok after
      → row_at at db.discoveries ≡ some e
      → e.id ≡ id
      → e.status ≡ pending
      → Dismissed ip db
      → Dismissed ip after
  imported-Dismissed ip at db after id e h found same status dis =
      let (d, s, by_id, around, done) = import_discovery-eq-ok pg agents db id [] now h in
      let (address, device, marks, le) = import_into-marks pg agents db d [] now s in
      subst (Dismissed ip) done (
        marked-Dismissed ip at db (import_into pg agents db d [] now s) d.id address device e found
          (same ∙ sym (discovery_by_id-id id db.discoveries by_id)) status marks le dis)

  -- An automatic import, right after the upsert that returned `up`.
  maybe_auto_import-Dismissed :
      (ip at : Addr) (db : Db) (up : DiscoveryUpsert) (e : Discovery)
      → row_at at db.discoveries ≡ some e
      → e.id ≡ up.id
      → e.status ≡ up.review_status
      → Dismissed ip db
      → Dismissed ip (maybe_auto_import pg agents job agent trusted now db up).0
  unfolding maybe_auto_import
  maybe_auto_import-Dismissed ip at db up e found id status dis =
      elim (Bool-cases
        (not trusted || not (is_pending up.review_status) || is_conflict up.reconcile_status)) [
          | inl declined ↦ rw declined dis
          | inr goes ↦ rw goes (elim (Result-cases (import_discovery pg agents db up.id [] now)) [
            | inl (e, failed) ↦ rw failed dis
            | inr (after, done) ↦
                let device = device_of (discovery_by_id up.id after.discoveries) in
                rw done (
                  kept-Dismissed ip after (auto_link_by_serial pg after device)
                    (auto_link_by_serial-CreatesNothing pg after device)
                    (imported-Dismissed ip at db after up.id e done found id
                      (status ∙ goes-pending trusted up goes) dis))
          ])
        ]

  sync_imported-Dismissed :
      (ip : Addr) (db : Db) (up : DiscoveryUpsert)
      → Dismissed ip db
      → Dismissed ip (sync_imported pg agents job agent trusted now db up).0
  unfolding sync_imported
  sync_imported-Dismissed ip db up dis =
      elim (Bool-cases (not (is_imported up.review_status) || is_conflict up.reconcile_status)) [
        | inl declined ↦ rw declined dis
        | inr goes ↦ rw goes (elim (Result-cases (sync_imported_discovery pg agents db up.id)) [
          | inl (e, failed) ↦ rw failed dis
          | inr (out, done) ↦ rw done (
              kept-Dismissed ip db (auto_link_by_serial pg out.0 out.1)
                (CreatesNothing-trans db out.0 (auto_link_by_serial pg out.0 out.1)
                  (sync_imported_discovery-CreatesNothing pg agents db up.id done)
                  (auto_link_by_serial-CreatesNothing pg out.0 out.1))
                dis)
        ])
      ]

  follow_up-Dismissed :
      (ip at : Addr) (db : Db) (up : DiscoveryUpsert) (e : Discovery)
      → row_at at db.discoveries ≡ some e
      → e.id ≡ up.id
      → e.status ≡ up.review_status
      → Dismissed ip db
      → Dismissed ip (follow_up pg agents job agent trusted now db up).0
  unfolding follow_up
  follow_up-Dismissed ip at db up e found id status dis =
      let import = maybe_auto_import pg agents job agent trusted now db up in
      let then_import = maybe_auto_import-Dismissed ip at db up e found id status dis in
      let then_sync = sync_imported-Dismissed ip import.0 up then_import in
      elim (Bool-cases import.1) [
        | inl hit ↦ rw hit then_import
        | inr miss ↦
            elim (Bool-cases (sync_imported pg agents job agent trusted now import.0 up).1) [
              | inl also ↦ rw (miss, also) then_sync
              | inr none_done ↦ rw (miss, none_done) then_sync
            ]
      ]

  record_observation-Dismissed :
      (ip : Addr) (db : Db) (obs : Observation)
      → Dismissed ip db
      → Dismissed ip (record_observation pg agents job agent trusted now db obs).0
  unfolding record_observation
  record_observation-Dismissed ip db obs dis = elim (Bool-cases (is_empty (trim_space obs.ip))) [
    | inl blank ↦ rw blank dis
    | inr given ↦
        rw given (elim (Result-cases (upsert_discovery pg db (input_of job agent obs) now)) [
          | inl (e, failed) ↦ rw failed dis
          | inr (out, done) ↦
              let (at, cast, kept) =
                upsert_discovery-Reviewed pg db (input_of job agent obs) now done in
              let ((e, found, id, status, rule), others, same, keys) = kept in
              rw done (
                follow_up-Dismissed ip at out.0 out.1 e found id status
                  (Reviewed-Dismissed ip at db out.0 out.1 kept dis))
        ])
  ]

  -- A dismissed host is never resurrected: where the queue has distinct addresses and ids and the
  -- row of an address is dismissed, recording any observations of any agent, with or without
  -- automatic import, leaves a dismissed row at that address, and the keys distinct.
  pub record_from-Dismissed :
      (ip : Addr) (db : Db) (tally : Tally) (observations : List Observation)
      → Dismissed ip db
      → Dismissed ip (record_from pg agents job agent trusted now db tally observations).0
  unfolding record_from
  record_from-Dismissed ip db tally [] dis = dis
  record_from-Dismissed ip db tally (obs ∷ observations) dis =
      let one = record_observation pg agents job agent trusted now db obs in
      record_from-Dismissed ip one.0 (count tally one.1) observations
        (record_observation-Dismissed ip db obs dis)
