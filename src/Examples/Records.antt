-- ===== src/Examples/Records.antt =====
-- The theorems on the review queue and the managed records, at the database of Examples.antt.
use light_ipam.Base.{
  ◌↔◌, ℕ, Text, [], ◌∷◌, Option, none, some, codes, ◌≡◌, refl, arith, true, false, split,
}
use light_ipam.Netip.{Addr, v4}
use light_ipam.Netip.Parse.{parse_addr, parse_v4, octets, octet, decimal, decimal_from}
use light_ipam.Inventory.{conflict, assigned, Db, new, dismissed, pending, Result, ok, same_addr}
use light_ipam.Inventory.Queue.{
  address_at, reconcile_discovery, DiscoveryInput, DiscoveryUpsert, upsert_discovery,
}
use light_ipam.Inventory.Import.{import_discovery, sync_imported_discovery}
use light_ipam.Inventory.Reachable.{Valid, observe, take_in, start, step, Reachable-Valid}
use light_ipam.Inventory.Reconcile.{Documented, reconcile_discovery-conflict_iff}
use light_ipam.Inventory.Review.{Reviewed, upsert_discovery-Reviewed}
use light_ipam.Inventory.Linked.{Linked, import_discovery-Linked}
use light_ipam.Inventory.Synced.{CreatesNothing, sync_imported_discovery-CreatesNothing}
use light_ipam.Orchestrator.Record.{Tally, record_from, input_of}
use light_ipam.Orchestrator.Review.{Dismissed, record_from-Dismissed}
use light_ipam.Orchestrator.Trust.{SameRows, record_from-SameRows}
use light_ipam.Examples.{pg, agents, db, row, host, seen}

abbrev none_yet : Tally
none_yet = record { recorded = 0; imported = 0; synced = 0 }

db-Dismissed : Dismissed host (db dismissed)
unfolding same_addr
db-Dismissed = ((omega arith, tt, tt), (row dismissed, refl, refl))

record_from-Dismissed_example :
    Dismissed host
      (record_from pg agents
        (codes "j2")
        (codes "a1")
        true
        5
        (db dismissed)
        none_yet
        (seen (codes "10.1.2.3") (codes "printer") ∷ [])).0
record_from-Dismissed_example =
    record_from-Dismissed pg agents (codes "j2") (codes "a1") true 5 host (db dismissed) none_yet
      (seen (codes "10.1.2.3") (codes "printer") ∷ []) db-Dismissed

record_from-SameRows_example :
    SameRows
      (db pending)
      (record_from pg agents
        (codes "j2")
        (codes "a1")
        false
        5
        (db pending)
        none_yet
        (seen (codes "10.1.2.3") (codes "printer") ∷ [])).0
record_from-SameRows_example =
    record_from-SameRows pg agents (codes "j2") (codes "a1") 5 (db pending) none_yet
      (seen (codes "10.1.2.3") (codes "printer") ∷ [])

abbrev after_import : Result Db → Db
after_import (ok after) = after
after_import (Result.err e) = db pending

abbrev imported_db : Db
imported_db = after_import (import_discovery pg agents (db pending) 1 [] 5)

import-ok : import_discovery pg agents (db pending) 1 [] 5 ≡ ok imported_db
unfolding import_discovery
import-ok = refl

import_discovery-Linked_example : Linked (db pending) 1 imported_db
import_discovery-Linked_example = import_discovery-Linked pg agents (db pending) 1 [] 5 tt import-ok

abbrev synced : Result (Db × Option ℕ) → Db × Option ℕ
synced (ok out) = out
synced (Result.err e) = (db pending, none)

sync-ok :
    sync_imported_discovery pg agents imported_db 1
    ≡ ok (synced (sync_imported_discovery pg agents imported_db 1))
unfolding sync_imported_discovery import_discovery
sync-ok = refl

sync_imported_discovery-CreatesNothing_example :
    CreatesNothing imported_db (synced (sync_imported_discovery pg agents imported_db 1)).0
sync_imported_discovery-CreatesNothing_example =
    sync_imported_discovery-CreatesNothing pg agents imported_db 1 sync-ok

abbrev input : DiscoveryInput
input = input_of (codes "j2") (codes "a1") (seen (codes "10.1.2.3") (codes "printer"))

abbrev stored : Result (Db × DiscoveryUpsert) → Db × DiscoveryUpsert
stored (ok out) = out
stored (Result.err e) =
    (db pending, record { id = 0; review_status = pending; reconcile_status = new })

abbrev stored_db : Db × DiscoveryUpsert
stored_db = stored (upsert_discovery pg (db dismissed) input 5)

upsert-ok : upsert_discovery pg (db dismissed) input 5 ≡ ok (stored_db.0, stored_db.1)
unfolding upsert_discovery parse_addr parse_v4 octets octet decimal decimal_from split input_of
upsert-ok = refl

upsert_discovery-Reviewed_example :
    (ip : Addr) × (pg.cast_inet input.ip ≡ some ip)
    × Reviewed (db dismissed) ip stored_db.0 stored_db.1
upsert_discovery-Reviewed_example = upsert_discovery-Reviewed pg (db dismissed) input 5 upsert-ok

-- The MAC of the device of 10.1.2.4, seen at 10.1.2.3, which is not managed.
abbrev moved_mac : Text
moved_mac = codes "b8:27:eb:00:00:01"

abbrev moved_db : Db
moved_db = record (db pending) {
  addresses =
      record {
        id = 11;
        subnet_id = 7;
        device_id = some 12;
        address = v4 167838212;
        state = assigned;
        hostname = [];
        last_seen_at = 0;
      }
      ∷ [];
  macs =
      record { id = 13; device_id = 12; address = moved_mac; vendor = []; is_private = false } ∷ [];
}

reconcile_discovery-conflict_iff_example :
    ((reconcile_discovery pg moved_db host moved_mac).0 ≡ conflict)
    ↔ Documented pg moved_db host moved_mac
unfolding address_at
reconcile_discovery-conflict_iff_example =
    reconcile_discovery-conflict_iff pg moved_db host moved_mac (λ n. absurd (n refl))

moved-conflict : (reconcile_discovery pg moved_db host moved_mac).0 ≡ conflict
unfolding reconcile_discovery
moved-conflict = refl

abbrev empty_db : Db
empty_db = record (db pending) { discoveries = [] }

-- The empty queue after an observation, and after the import of the row that it made.
abbrev observed : Db × DiscoveryUpsert
observed = stored (upsert_discovery pg empty_db input 5)

observe-ok : upsert_discovery pg empty_db input 5 ≡ ok (observed.0, observed.1)
unfolding upsert_discovery parse_addr input_of
observe-ok = refl

abbrev taken_in : Db
taken_in = after_import (import_discovery pg agents observed.0 9 [] 6)

take_in-ok : import_discovery pg agents observed.0 9 [] 6 ≡ ok taken_in
unfolding import_discovery upsert_discovery parse_addr input_of
take_in-ok = refl

Reachable-Valid_example : Valid taken_in
Reachable-Valid_example =
    Reachable-Valid pg agents taken_in
      (step (step (start refl) (observe input 5 observed.1 observe-ok)) (take_in 9 [] 6 take_in-ok))
