-- ===== src/Inventory.antt =====
-- internal/store/discoveries.go: the review queue of discovered hosts and the managed records that
-- it is compared with and imported into. This file has the tables; reconciliation and the upsert are
-- in Inventory/Queue.antt, imports and syncs in Inventory/Import.antt.
-- A table is a list of rows and an SQL statement a function on it. A row's id is a number, and
-- `next_id` is one that no row has: the source draws random tokens. A function that runs in a
-- transaction returns the new database only where all of it succeeds. Lost connections and failed
-- encodings are left out.
pub mod Queue
pub mod Import
pub mod Keys
pub mod Marks
pub mod Reconcile
pub mod Review
pub mod Imported
pub mod Linked
pub mod Synced
pub mod Reachable
use light_ipam.Base.{
  ℕ, Bool, true, false, ◌&&◌, List, Option, none, some, Text, same, ◌==◌, ◌≡◌, ◌≢◌, ◌⊎◌, inl, inr,
  refl,
}
use light_ipam.Netip.{Addr, v4, v6, Prefix}
use light_ipam.Protocol.{ServiceObservation}

-- What PostgreSQL does with texts: `$1::inet` for a host (a text with a mask is none), `host(address)`,
-- `$1::macaddr` and the order of texts; and the text of an id.
pub record Postgres : Type 0 where
  pub cast_inet : Text → Option Addr
  pub host_text : Addr → Text
  pub cast_mac : Text → Option Text
  pub below : Text → Text → Bool
  pub id_text : ℕ → Text

pub data ReviewStatus : Type 0 where
  pending imported dismissed : ReviewStatus

pub data ReconcileStatus : Type 0 where
  new matching conflict : ReconcileStatus

-- `conflict` notes.
pub data ConflictNote : Type 0 where
  no_note deprecated_responds : ConflictNote
  mac_recorded_on : Text → ConflictNote
  different_mac : Text → ConflictNote

pub data AddressState : Type 0 where
  available reserved assigned deprecated : AddressState

pub record Subnet : Type 0 where
  pub id : ℕ
  pub cidr : Prefix
  pub vlan : Option ℕ

pub record Address : Type 0 where
  pub id : ℕ
  pub subnet_id : ℕ
  pub device_id : Option ℕ
  pub address : Addr
  pub state : AddressState
  pub hostname : Text
  pub last_seen_at : ℕ

pub record Device : Type 0 where
  pub id : ℕ
  pub name : Text
  pub os_family : Text
  pub os_detail : Text
  pub hw_serial : Text
  pub hw_object_id : Text
  pub services : List ServiceObservation
  pub discovery_source : Text
  pub hardware_group : Option Text

pub record Mac : Type 0 where
  pub id : ℕ
  pub device_id : ℕ
  pub address : Text
  pub vendor : Text
  pub is_private : Bool

-- `Discovery`, a row of scan_discoveries; `mac` is empty where the column is NULL.
pub record Discovery : Type 0 where
  pub id : ℕ
  pub job_id : Text
  pub agent_id : Text
  pub ip : Addr
  pub mac : Text
  pub vendor : Text
  pub hostname : Text
  pub os_family : Text
  pub os_detail : Text
  pub hw_serial : Text
  pub hw_object_id : Text
  pub vlan : ℕ
  pub services : List ServiceObservation
  pub status : ReviewStatus
  pub reconcile_status : ReconcileStatus
  pub conflict_note : ConflictNote
  pub imported_address_id : Option ℕ
  pub imported_device_id : Option ℕ
  pub last_seen_at : ℕ

pub record Db : Type 0 where
  pub subnets : List Subnet
  pub addresses : List Address
  pub devices : List Device
  pub macs : List Mac
  pub discoveries : List Discovery
  pub rejections : List (Text × Text)
  pub auto_serial : Option Text
  pub next_id : ℕ

pub data StoreError : Type 0 where
  bad_inet bad_mac bad_vlan not_found no_containing_subnet : StoreError

pub data Result {ℓ} (A : Type ℓ) : Type ℓ where
  ok : A → Result A
  err : StoreError → Result A

infixl 5 ◌>>=◌
abbrev pub ◌>>=◌ {ℓ κ} : {A : Type ℓ} {B : Type κ} → Result A → (A → Result B) → Result B
err e >>= next = err e
ok found >>= next = next found

-- Equality of `inet` hosts.
unfoldable pub same_addr : Addr → Addr → Bool
unfolding same
same_addr (v4 n) (v4 m) = n == m
same_addr (v6 n z) (v6 m y) = n == m && same z y
same_addr _ _ = false

-- Inversion of a chain of results.
pub >>=-eq-ok {ℓ κ} :
    {A : Type ℓ} {B : Type κ} (first : Result A) (next : A → Result B) {last : B}
    → (first >>= next) ≡ ok last
    → (found : A) × (first ≡ ok found) × (next found ≡ ok last)
>>=-eq-ok (ok found) next h = (found, refl, h)
>>=-eq-ok (err e) next h = cc

pub ok-injective {ℓ} : {A : Type ℓ} {a b : A} → ok a ≡ ok b → a ≡ b
ok-injective h = cc

pub err≢ok {ℓ} : {A : Type ℓ} {e : StoreError} {a : A} → err e ≢ ok a
err≢ok h = cc

pub Result-cases {ℓ} :
    {A : Type ℓ} (r : Result A) → ((e : StoreError) × (r ≡ err e)) ⊎ ((a : A) × (r ≡ ok a))
Result-cases (ok a) = inr (a, refl)
Result-cases (err e) = inl (e, refl)
