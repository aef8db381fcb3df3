-- ===== src/Inventory/Imported.antt =====
-- What importing a discovery leaves in the managed records.
use mathlib.Core.Option.{some-injective}
use mathlib.Core.Bool.{true≢false}
use light_ipam.Base.{
  ℕ, ◌≤◌, true, false, List, [], ◌∷◌, ◌++◌, Option, none, some, Text, ◌≡◌, ◌⊎◌, inl, inr, refl, sym,
  ap, ◌∙◌, All, In, In-cons, not-In-nil, leb_iff, here, there, Bool-cases, arith, if◌then◌else◌,
  is_empty, ◌==◌, ==_refl, same, trim_space, leb, Option-cases,
}
use light_ipam.Netip.{Addr, contains}
use light_ipam.Inventory.{
  Postgres, imported, assigned, Address, Subnet, Device, Mac, Discovery, Db, same_addr,
}
use light_ipam.Inventory.Queue.{address_at, newer, discovery_by_id, or_else}
use light_ipam.Inventory.Import.{
  longer, containing_subnet, device_exists, owner_of_mac, resolve_import_device, prior_device,
  attach_discovery_mac, attach_known_mac, new_device, refresh_device, update_devices,
  create_or_update, import_discovery_device, upsert_address, mark_imported,
}
use light_ipam.Inventory.Keys.{same_addr_refl}

-- The subnet that an import picks contains the address, and none that contains it is longer.
abbrev pub Picks : Addr → List Subnet → Option Subnet → Type 0
Picks ip rows none = (t : Subnet) → In t rows → contains t.cidr ip ≡ false
Picks ip rows (some s) =
    In s rows
    × (contains s.cidr ip ≡ true)
    × ((t : Subnet) → In t rows → contains t.cidr ip ≡ true → t.cidr.bits ≤ s.cidr.bits)

abbrev picked : Addr → Subnet → Option Subnet → Option Subnet
picked ip x rest = if contains x.cidr ip then some (longer x rest) else rest

Picks-cons :
    (ip : Addr) (x : Subnet) (rows : List Subnet) (rest : Option Subnet)
    → Picks ip rows rest
    → Picks ip (x ∷ rows) (picked ip x rest)
Picks-cons ip x rows none h = elim (Bool-cases (contains x.cidr ip)) [
  | inl hit ↦ rw hit (
    here,
    hit,
    λ t m c. elim (In-cons m) [
      | inl e ↦ rw e (omega arith)
      | inr n ↦ absurd (true≢false (sym c ∙ h t n))
    ],
  )
  | inr miss ↦ rw miss (λ t m. elim (In-cons m) [ inl e ↦ rw e miss | inr n ↦ h t n ])
]
Picks-cons ip x rows (some s) (m, c, best) = elim (Bool-cases (contains x.cidr ip)) [
  | inl hit ↦ elim (Bool-cases (leb s.cidr.bits x.cidr.bits)) [
    | inl more ↦
        rw (hit, more)
          (
            here,
            hit,
            λ t n d. elim (In-cons n) [
              | inl e ↦ rw e (omega arith)
              | inr k ↦
                  let below = best t k d in omega (arith, (leb_iff s.cidr.bits x.cidr.bits).0 more)
            ],
          )
    | inr less ↦
        rw (hit, less)
          (
            there m,
            c,
            λ t n d. elim (In-cons n) [ inl e ↦ rw e (ground arith) | inr k ↦ best t k d ],
          )
  ]
  | inr miss ↦ rw miss (
    there m,
    c,
    λ t n d. elim (In-cons n) [
      | inl e ↦ absurd (true≢false (sym d ∙ rw e miss))
      | inr k ↦ best t k d
    ],
  )
]

pub containing_subnet-Picks :
    (ip : Addr) (rows : List Subnet) → Picks ip rows (containing_subnet ip rows)
unfolding containing_subnet
containing_subnet-Picks ip [] = λ t m. absurd (not-In-nil m)
containing_subnet-Picks ip (x ∷ rows) =
    Picks-cons ip x rows (containing_subnet ip rows) (containing_subnet-Picks ip rows)

-- The row that an import writes for its address.
pub upsert_address-row :
    (id subnet device : ℕ) (d : Discovery) (now : ℕ) (rows : List Address)
    → (a : Address) × (address_at d.ip (upsert_address id subnet device d now rows).0 ≡ some a)
      × (a.id ≡ (upsert_address id subnet device d now rows).1)
      × (a.subnet_id ≡ subnet)
      × (a.device_id ≡ some device)
unfolding upsert_address address_at
upsert_address-row id subnet device d now [] = (
  record {
    id = id;
    subnet_id = subnet;
    device_id = some device;
    address = d.ip;
    state = assigned;
    hostname = d.hostname;
    last_seen_at = now;
  },
  rw (same_addr_refl d.ip) refl,
  refl,
  refl,
  refl,
)
upsert_address-row id subnet device d now (x ∷ rows) =
    elim (Bool-cases (same_addr x.address d.ip)) [
      | inl hit ↦ rw hit (
        record x {
          subnet_id = subnet;
          device_id = some device;
          hostname = newer d.hostname x.hostname;
          last_seen_at = now;
        },
        rw hit refl,
        refl,
        refl,
        refl,
      )
      | inr miss ↦ rw miss (rw miss (upsert_address-row id subnet device d now rows))
    ]

-- The discovery that an import marks.
pub mark_imported-row :
    (id address device : ℕ) (rows : List Discovery) {d : Discovery}
    → discovery_by_id id rows ≡ some d
    → (e : Discovery) × (discovery_by_id id (mark_imported id address device rows) ≡ some e)
      × (e.status ≡ imported)
      × (e.imported_address_id ≡ some address)
      × (e.imported_device_id ≡ some device)
      × (e.ip ≡ d.ip)
unfolding mark_imported discovery_by_id
mark_imported-row id address device [] h = absurd cc
mark_imported-row id address device (x ∷ rows) {d} h = elim (Bool-cases (x.id == id)) [
  | inl hit ↦ rw hit (
    record x {
      status = imported;
      imported_address_id = some address;
      imported_device_id = some device;
    },
    rw hit refl,
    refl,
    refl,
    refl,
    ap (λ o. o.ip) (some-injective x d (rw hit at h)),
  )
  | inr miss ↦ rw miss (rw miss (mark_imported-row id address device rows (rw miss at h)))
]

-- An update keeps the devices, and a creation adds one.
device_exists-update :
    (pg : Postgres) (agents : Text → Text) (id other : ℕ) (d : Discovery) (name : Text)
    (rows : List Device)
    → device_exists other (update_devices pg agents id d name rows) ≡ device_exists other rows
unfolding device_exists update_devices refresh_device
device_exists-update pg agents id other d name [] = refl
device_exists-update pg agents id other d name (x ∷ rows) =
    let rest = device_exists-update pg agents id other d name rows in
    elim (Bool-cases (x.id == id)) [
      | inl hit ↦ rw (hit, rest) refl
      | inr miss ↦ rw (miss, rest) refl
    ]

device_exists-new : (x : Device) (rows : List Device) → device_exists x.id (rows ++ x ∷ []) ≡ true
unfolding device_exists
device_exists-new x [] = rw (==_refl x.id) refl
device_exists-new x (y ∷ rows) = ground (arith, device_exists-new x rows)

-- The owner of each MAC is a device, as the foreign key has it.
abbrev pub OwnersExist : Db → Type 0
OwnersExist db = All (λ m. device_exists m.device_id db.devices ≡ true) db.macs

owner_of_mac-exists :
    (mac : Text) (rows : List Mac) (devices : List Device) {id : ℕ}
    → All (λ m. device_exists m.device_id devices ≡ true) rows
    → owner_of_mac mac rows ≡ some id
    → device_exists id devices ≡ true
unfolding owner_of_mac
owner_of_mac-exists mac [] devices h e = absurd cc
owner_of_mac-exists mac (m ∷ rows) devices {id} (h, hs) e = elim (Bool-cases (same m.address mac)) [
  | inl hit ↦ rw (some-injective m.device_id id (rw hit at e)) at h
  | inr miss ↦ owner_of_mac-exists mac rows devices hs (rw miss at e)
]

or_else-eq-some {ℓ} :
    {A : Type ℓ} (o p : Option A) {a : A} → or_else o p ≡ some a → (o ≡ some a) ⊎ (p ≡ some a)
or_else-eq-some none p h = inr h
or_else-eq-some (some b) p h = inl h

prior_device-exists :
    (db : Db) (o : Option ℕ) {id : ℕ}
    → prior_device db o ≡ some id
    → device_exists id db.devices ≡ true
prior_device-exists db none h = cc
prior_device-exists db (some prior) {id} h = elim (Bool-cases (device_exists prior db.devices)) [
  | inl hit ↦ rw (some-injective prior id (rw hit at h)) at hit
  | inr miss ↦ absurd (ground arith)
]

resolved-exists :
    (db : Db) (d : Discovery) {id : ℕ}
    → OwnersExist db
    → resolve_import_device db d ≡ some id
    → device_exists id db.devices ≡ true
unfolding resolve_import_device
resolved-exists db d owners h =
    elim (or_else-eq-some (prior_device db d.imported_device_id)
      (if is_empty d.mac then none else owner_of_mac d.mac db.macs) h) [
        | inl prior ↦ prior_device-exists db d.imported_device_id prior
        | inr by_mac ↦ owner_of_mac-exists d.mac db.macs db.devices owners (ground arith)
      ]

pub attach_known_mac-devices :
    (db : Db) (device : ℕ) (d : Discovery) → (attach_known_mac db device d).devices ≡ db.devices
unfolding attach_known_mac attach_discovery_mac
attach_known_mac-devices db device d = elim (Bool-cases (is_empty d.mac)) [
  | inl blank ↦ rw blank refl
  | inr given ↦ rw given refl
]

-- The device of an import exists afterwards.
pub import_discovery_device-exists :
    (pg : Postgres) (agents : Text → Text) (db : Db) (d : Discovery) (name : Text)
    → OwnersExist db
    → device_exists
        (import_discovery_device pg agents db d name).1
        (import_discovery_device pg agents db d name).0.devices
      ≡ true
unfolding import_discovery_device new_device
import_discovery_device-exists pg agents db d name owners =
    let out = create_or_update pg agents db d (trim_space name) in
    elim (Option-cases (resolve_import_device db d)) [
      | inl fresh ↦ rw fresh (
          ap (device_exists db.next_id) (attach_known_mac-devices (out none).0 db.next_id d)
          ∙ device_exists-new (new_device pg agents db.next_id d (trim_space name)) db.devices)
      | inr (id, reused) ↦ rw reused (
          ap (device_exists id) (attach_known_mac-devices (out (some id)).0 id d)
          ∙ device_exists-update pg agents id id d (trim_space name) db.devices
          ∙ resolved-exists db d owners reused)
    ]
