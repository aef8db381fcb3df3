-- ===== src/Inventory/Reconcile.antt =====
-- `reconcileDiscovery` against a description of the conflicts that it looks for.
pub mod Search
use mathlib.Core.Bool.{true≢false}
use mathlib.Core.Option.{some-injective}
use light_ipam.Base.{
  ℕ, suc, ◌<◌, Bool, true, false, not, ◌&&◌, List, [], ◌∷◌, Option, none, some, Text, ◌≡◌, ◌≢◌, ◌↔◌,
  ◌⊎◌, inl, inr, refl, sym, subst, ◌∙◌, In, here, there, In-cons, not-In-nil, Bool-cases,
  Option-cases, arith, if◌then◌else◌, is_empty, same, ltb, ◌==◌, ==_iff,
}
use light_ipam.Netip.{Addr}
use light_ipam.Inventory.{
  Postgres, ReconcileStatus, ConflictNote, matching, conflict, AddressState, available, reserved,
  assigned, deprecated, no_note, deprecated_responds, Address, Mac, Db, same_addr,
}
use light_ipam.Inventory.Queue.{
  address_at, owned_by, count_macs, has_device, other_address, mac_elsewhere, is_deprecated,
  reconcile_unmanaged, reconcile_managed, reconcile_at, reconcile_discovery,
}
use light_ipam.Inventory.Reconcile.Search.{Held, mac_elsewhere-Held, Held-mac_elsewhere}

count_macs-zero :
    (p : Mac → Bool) (rows : List Mac) → count_macs p rows ≡ 0 → (m : Mac) → In m rows → p m ≡ false
unfolding count_macs
count_macs-zero p [] h m i = absurd (not-In-nil i)
count_macs-zero p (x ∷ rows) h m i = elim (Bool-cases (p x)) [
  | inl hit ↦ (let e : suc (count_macs p rows) ≡ 0 = rw hit at h in absurd (omega arith))
  | inr miss ↦ elim (In-cons i) [
    | inl e ↦ rw e miss
    | inr later ↦ count_macs-zero p rows (rw miss at h) m later
  ]
]

count_macs-none :
    (p : Mac → Bool) (rows : List Mac)
    → ((m : Mac) → In m rows → p m ≡ false)
    → count_macs p rows ≡ 0
unfolding count_macs
count_macs-none p [] h = refl
count_macs-none p (x ∷ rows) h = rw (h x here) (count_macs-none p rows (λ m i. h m (there i)))

count_macs-some :
    (p : Mac → Bool) (rows : List Mac)
    → 0 < count_macs p rows
    → (m : Mac) × In m rows × (p m ≡ true)
unfolding count_macs
count_macs-some p [] h = absurd (omega arith)
count_macs-some p (x ∷ rows) h = elim (Bool-cases (p x)) [
  | inl hit ↦ (x, here, hit)
  | inr miss ↦ let (m, i, e) = count_macs-some p rows (rw miss at h) in (m, there i, e)
]

-- The device of a managed address has a MAC, and none that was seen.
abbrev pub OtherMac : Db → Address → Text → Type 0
OtherMac db a mac =
    (is_empty mac ≡ false)
    × ((m : Mac) × In m db.macs × (owned_by a.device_id m ≡ true))
    × ((m : Mac) → In m db.macs → owned_by a.device_id m ≡ true → same m.address mac ≡ false)

count_macs-pos :
    (p : Mac → Bool) (rows : List Mac) (m : Mac) → In m rows → p m ≡ true → 0 < count_macs p rows
count_macs-pos p rows m i e = elim (Bool-cases (count_macs p rows == 0)) [
  | inl zero_left ↦
      absurd (
        true≢false
          (sym e ∙ count_macs-zero p rows ((==_iff (count_macs p rows) 0).0 zero_left) m i))
  | inr some_left ↦ ground arith
]

deprecated_verdict :
    (st : AddressState)
    → ((if◌then◌else◌ {A = ReconcileStatus × ConflictNote}
          (is_deprecated st)
          (conflict, deprecated_responds)
          (matching, no_note)).0
        ≡ conflict)
      ↔ (st ≡ deprecated)
deprecated_verdict available = (λ h. cc, λ e. cc)
deprecated_verdict reserved = (λ h. cc, λ e. cc)
deprecated_verdict assigned = (λ h. cc, λ e. cc)
deprecated_verdict deprecated = (λ h. refl, λ e. refl)

module _ (db : Db) (a : Address) (mac : Text) where
  abbrev owned : ℕ
  owned = count_macs (owned_by a.device_id) db.macs

  abbrev same_mac : ℕ
  same_mac = count_macs (λ m. owned_by a.device_id m && same m.address mac) db.macs

  abbrev differs : Bool
  differs = not (is_empty mac) && ltb 0 owned && same_mac == 0

  differs-OtherMac : differs ≡ true → OtherMac db a mac
  differs-OtherMac h =
      let given : is_empty mac ≡ false = ground arith in
      let has : 0 < owned = ground arith in
      let lacks : same_mac ≡ 0 = ground arith in
      (
        given,
        count_macs-some (owned_by a.device_id) db.macs has,
        λ m i e.
            let off =
              count_macs-zero (λ m. owned_by a.device_id m && same m.address mac) db.macs lacks m
                i in
            rw e at off,
      )

  OtherMac-differs : OtherMac db a mac → differs ≡ true
  OtherMac-differs (given, seen, others) =
      let (m, i, e) = seen in
      let has = count_macs-pos (owned_by a.device_id) db.macs m i e in
      let lacks : same_mac ≡ 0 =
        count_macs-none (λ m. owned_by a.device_id m && same m.address mac) db.macs
          (λ m i. elim (Bool-cases (owned_by a.device_id m)) [
            | inl mine ↦ rw mine (others m i mine)
            | inr not_mine ↦ rw not_mine refl
          ]) in
      ground (arith)

  -- A managed address.
  managed-conflict_iff :
      (pg : Postgres)
      → ((reconcile_managed pg db a mac).0 ≡ conflict)
        ↔ (OtherMac db a mac ⊎ (a.state ≡ deprecated))
  unfolding reconcile_managed
  managed-conflict_iff pg = elim (Bool-cases differs) [
    | inl hit ↦ rw hit (λ h. inl (differs-OtherMac hit), λ h. refl)
    | inr miss ↦ rw miss (
      λ h. inr ((deprecated_verdict a.state).0 h),
      λ s. elim s [
        | inl o ↦ absurd (true≢false (sym (OtherMac-differs o) ∙ miss))
        | inr d ↦ (deprecated_verdict a.state).1 d
      ],
    )
  ]

module _ (pg : Postgres) (db : Db) (ip : Addr) (mac : Text) where
  -- An address that is not managed.
  unmanaged-conflict_iff :
      ((reconcile_unmanaged pg db ip mac).0 ≡ conflict)
      ↔ ((is_empty mac ≡ false) × Held mac ip db.macs db.addresses)
  unfolding reconcile_unmanaged
  unmanaged-conflict_iff = elim (Bool-cases (is_empty mac)) [
    | inl blank ↦ rw blank (λ h. cc, λ k. cc)
    | inr given ↦ elim (Option-cases (mac_elsewhere mac ip db.macs db.addresses)) [
      | inl nowhere ↦
          rw (given, nowhere)
            (λ h. cc, λ k. absurd (Held-mac_elsewhere mac ip db.macs db.addresses nowhere k.1))
      | inr (o, found) ↦
          rw (given, found)
            (λ h. (refl, mac_elsewhere-Held mac ip db.macs db.addresses found), λ k. refl)
    ]
  ]

  -- Why an observation conflicts with the managed records.
  abbrev pub Contradicts : Option Address → Type 0
  Contradicts none = (is_empty mac ≡ false) × Held mac ip db.macs db.addresses
  Contradicts (some a) = OtherMac db a mac ⊎ (a.state ≡ deprecated)

  reconcile_conflict :
      ((reconcile_discovery pg db ip mac).0 ≡ conflict) ↔ Contradicts (address_at ip db.addresses)
  unfolding reconcile_discovery reconcile_at
  reconcile_conflict = elim (Option-cases (address_at ip db.addresses)) [
    | inl unmanaged ↦ rw unmanaged unmanaged-conflict_iff
    | inr (a, managed) ↦ rw managed (managed-conflict_iff db a mac pg)
  ]

  -- The observed MAC is recorded for another managed address.
  abbrev pub Elsewhere : Type 0
  Elsewhere = (is_empty mac ≡ false) × Held mac ip db.macs db.addresses

  -- The reasons for a conflict that the code documents.
  abbrev pub Documented : Type 0
  Documented =
      Elsewhere
      ⊎ ((a : Address) × (address_at ip db.addresses ≡ some a)
          × (OtherMac db a mac ⊎ (a.state ≡ deprecated)))

  -- A conflict is flagged exactly for the reasons that the comment of the code gives: the observed
  -- address is managed and its device has a MAC but not the observed one, or it is deprecated, or
  -- the observed MAC is recorded for another managed address. The last reason counts for an
  -- observed address that is not managed: that a managed one's MAC is recorded for another address
  -- is excluded here.
  pub reconcile_discovery-conflict_iff :
      (address_at ip db.addresses ≢ none → ¬ Elsewhere)
      → ((reconcile_discovery pg db ip mac).0 ≡ conflict) ↔ Documented
  reconcile_discovery-conflict_iff apart = elim (Option-cases (address_at ip db.addresses)) [
    | inl unmanaged ↦
        let verdict =
          subst (λ o. ((reconcile_discovery pg db ip mac).0 ≡ conflict) ↔ Contradicts o) unmanaged
            reconcile_conflict in
        (
          (λ h. inl (verdict.0 h)),
          λ d. elim d [
            | inl held ↦ verdict.1 held
            | inr (a, managed, _) ↦ cc (sym unmanaged ∙ managed)
          ],
        )
    | inr (a, managed) ↦
        let verdict =
          subst (λ o. ((reconcile_discovery pg db ip mac).0 ≡ conflict) ↔ Contradicts o) managed
            reconcile_conflict in
        (
          (λ h. inr (a, managed, verdict.0 h)),
          λ d. elim d [
            | inl held ↦ absurd (apart (λ e. cc (sym e ∙ managed)) held)
            | inr (a', also, why) ↦ verdict.1 (
                subst (λ x. OtherMac db x mac ⊎ (x.state ≡ deprecated))
                  (some-injective _ _ (sym also ∙ managed)) why)
          ],
        )
  ]
