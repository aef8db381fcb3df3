-- ===== src/Links/Guards.antt =====
-- What may be suggested as the same hardware, and that a dismissed pair is not.
use light_ipam.Base.{
  Bool, true, false, not, ◌||◌, List, [], ◌∷◌, ◌⊎◌, inl, inr, Text, any, is_empty, same, same_refl,
  same_comm, ◌≡◌, ◌≢◌, refl, sym, ap, subst, ◌∙◌, arith, Bool-cases, Option-cases, In, here, there,
  In-cons, not-In-nil, In-any,
}
use light_ipam.Links.{
  Device, Db, LinkError, coalesce, disjoint_subnets, gold_hardware_candidate,
  same_hardware_candidate, pair_is, find_device, dismiss_device_link_suggestion, add_rejection,
  insert_rejection,
}
use light_ipam.Links.Suggest.{
  subnet_ids, identity_of, is_rejected, is_open, DeviceLinkSuggestion, qualifies, suggest_from,
  no_identity, list_device_link_suggestions,
}
use light_ipam.Links.Steps.{insert_rejection-inr, dismiss-cases}
use light_ipam.Links.Groups.{Member, not-same, find_device-In}

-- A device may be suggested for another: it is another device with an address, outside of the
-- group, the pair was not dismissed, and the two share no subnet.
pub record IsCandidateFor (below : Text → Text → Bool) (db : Db) (target d : Device) : Type 0 where
  pub other : d.id ≢ target.id
  pub outside : (g : Text) → g ≢ [] → Member g target → Member g d → ⊥
  pub not_dismissed : is_rejected below db d.id target.id ≡ false
  pub apart : (s : Text) → In s (subnet_ids target) → In s (subnet_ids d) → ⊥

clash : false ≡ true → ⊥
clash h = cc

disjoint_subnets-apart :
    (a b : List Text) → disjoint_subnets a b ≡ true → (s : Text) → In s a → In s b → ⊥
unfolding disjoint_subnets
disjoint_subnets-apart a b h s i j =
    let none_shared : any (λ id. any (same id) a) b ≡ false = ground (arith, h) in
    clash (sym none_shared ∙ In-any (λ id. any (same id) a) j (In-any (same s) i (same_refl s)))

candidate-apart :
    (target d : Device)
    → gold_hardware_candidate (identity_of target) (identity_of d)
        || same_hardware_candidate (identity_of target) (identity_of d)
      ≡ true
    → disjoint_subnets (subnet_ids target) (subnet_ids d) ≡ true
unfolding gold_hardware_candidate same_hardware_candidate identity_of
candidate-apart target d h = ground (arith, h)

-- The parts of the test.
is_open-parts :
    (below : Text → Text → Bool) (db : Db) (target d : Device)
    → is_open below db target d ≡ true
    → (same d.id target.id ≡ false)
      × (is_rejected below db d.id target.id ≡ false)
      × ((g : Text) → g ≢ [] → Member g target → Member g d → ⊥)
unfolding is_open
is_open-parts below db target d h = (
  ground (arith, h),
  ground (arith, h),
  λ g ne t own.
      let free : is_empty (coalesce target.group) ≡ false =
        named (coalesce target.group) (λ e. ne (sym (ap coalesce t) ∙ e)) in
      clash (sym (outside free own t) ∙ same_refl g),
)
  where
    named : (g : Text) → g ≢ [] → is_empty g ≡ false
    named [] ne = absurd (ne refl)
    named (c ∷ g) ne = refl

    outside :
        {g : Text}
        → is_empty (coalesce target.group) ≡ false
        → Member g d
        → Member g target
        → same g g ≡ false
    outside {g} free own t =
        let far : not (same g (coalesce target.group)) ≡ true = ground (arith, h, free, own) in
        ground (arith, rw t at far)

qualifies-IsCandidateFor :
    (below : Text → Text → Bool) (db : Db) (target d : Device)
    → qualifies below db target d ≡ true
    → IsCandidateFor below db target d
qualifies-IsCandidateFor below db target d h =
    let (other, kept, outside) = is_open-parts below db target d (ground (arith, h)) in
    record {
      other = not-same target.id d.id (same_comm target.id d.id ∙ other);
      outside = outside;
      not_dismissed = kept;
      apart =
          disjoint_subnets-apart (subnet_ids target) (subnet_ids d)
            (candidate-apart target d (ground (arith, h)));
    }

suggest_from-In :
    (below : Text → Text → Bool) (db : Db) (target : Device) (devices : List Device)
    (s : DeviceLinkSuggestion)
    → In s (suggest_from below db target devices)
    → (d : Device) × In d devices × (s.device_id ≡ d.id) × IsCandidateFor below db target d
unfolding suggest_from
suggest_from-In below db target [] s m = absurd (not-In-nil m)
suggest_from-In below db target (d ∷ devices) s m =
    elim (Bool-cases (qualifies below db target d)) [
      | inr out ↦
          let (e, i, own, c) = suggest_from-In below db target devices s (rw out at m) in
          (e, there i, own, c)
      | inl hit ↦ elim (In-cons (rw hit at m)) [
        | inl q ↦ (d, here, ap (λ x. x.device_id) q, qualifies-IsCandidateFor below db target d hit)
        | inr r ↦
            let (e, i, own, c) = suggest_from-In below db target devices s r in (e, there i, own, c)
      ]
    ]

inr-injective : {A : Type 0} (x y : A) → ◌≡◌ {A = LinkError ⊎ A} (inr x) (inr y) → x ≡ y
inr-injective x y h = cc

inl-inr : {A : Type 0} (a : LinkError) (b : A) → ◌≡◌ {A = LinkError ⊎ A} (inl a) (inr b) → ⊥
inl-inr a b h = cc

-- Every suggestion for a device is a row of the table that may be suggested for it: another device,
-- in no group with it, not dismissed for it, and with no subnet in common.
pub list_device_link_suggestions-IsCandidateFor :
    (below : Text → Text → Bool) (id : Text) (db : Db) (found : List DeviceLinkSuggestion)
    → list_device_link_suggestions below id db ≡ inr found
    → (s : DeviceLinkSuggestion) → In s found
    → (target : Device) × In target db.devices
      × (target.id ≡ id)
      × ((d : Device) × In d db.devices × (s.device_id ≡ d.id) × IsCandidateFor below db target d)
unfolding list_device_link_suggestions
list_device_link_suggestions-IsCandidateFor below id db found h s m =
    elim (Option-cases (find_device id db.devices)) [
      | inl e ↦ absurd (inl-inr _ _ (rw e at h))
      | inr (target, e) ↦
          let (i, own) = find_device-In id db.devices target e in
          elim (Bool-cases (no_identity (identity_of target))) [
            | inl unknown ↦ absurd (
                not-In-nil (subst (λ l. In s l) (sym (inr-injective _ _ (rw (e, unknown) at h))) m))
            | inr known ↦ (
              target,
              i,
              own,
              suggest_from-In below db target db.devices s
                  (subst (λ l. In s l) (sym (inr-injective _ _ (rw (e, known) at h))) m),
            )
          ]
    ]

add_rejection-any :
    (lo hi : Text) (db : Db) → any (pair_is lo hi) (add_rejection lo hi db).rejections ≡ true
unfolding any
add_rejection-any lo hi db = elim (Bool-cases (any (pair_is lo hi) db.rejections)) [
  | inl e ↦ rw e e
  | inr e ↦ rw (e, same_refl lo, same_refl hi) refl
]

-- A pair that was inserted is found in either order.
insert-is_rejected :
    (below : Text → Text → Bool) (lo hi : Text) (db db' : Db)
    → ((s t : Text) → below s t ≡ true → below t s ≡ false)
    → insert_rejection below lo hi db ≡ inr db'
    → (is_rejected below db' lo hi ≡ true) × (is_rejected below db' hi lo ≡ true)
unfolding is_rejected
insert-is_rejected below lo hi db db' asym h =
    let (less, made) = insert_rejection-inr below lo hi db db' h in
    let hit =
      subst (λ x. any (pair_is lo hi) x.rejections ≡ true) made (add_rejection-any lo hi db) in
    rw (less, asym lo hi less) (hit, hit)

dismiss-is_rejected :
    (below : Text → Text → Bool) (a b : Text) (db db' : Db)
    → ((s t : Text) → below s t ≡ true → below t s ≡ false)
    → dismiss_device_link_suggestion below a b db ≡ inr db'
    → (is_rejected below db' a b ≡ true) × (is_rejected below db' b a ≡ true)
dismiss-is_rejected below a b db db' asym h = elim (dismiss-cases below a b db db' h) [
  | inl i ↦ insert-is_rejected below a b db db' asym i
  | inr i ↦ let (x, y) = insert-is_rejected below b a db db' asym i in (y, x)
]

-- A device is not suggested for another once the pair was dismissed, in whichever order the two were
-- given. The order of texts in the database has no two texts each below the other.
pub dismiss-list_device_link_suggestions :
    (below : Text → Text → Bool) (a b : Text) (db db' : Db) (found : List DeviceLinkSuggestion)
    → ((s t : Text) → below s t ≡ true → below t s ≡ false)
    → dismiss_device_link_suggestion below a b db ≡ inr db'
      ⊎ dismiss_device_link_suggestion below b a db ≡ inr db'
    → list_device_link_suggestions below a db' ≡ inr found
    → (s : DeviceLinkSuggestion) → In s found
    → s.device_id ≢ b
dismiss-list_device_link_suggestions below a b db db' found asym dismissed listed s m q =
    let (target, _, own, (d, _, shown, c)) =
      list_device_link_suggestions-IsCandidateFor below a db' found listed s m in
    let free : is_rejected below db' b a ≡ false =
      subst (λ x. is_rejected below db' x a ≡ false) (sym shown ∙ q)
        (subst (λ x. is_rejected below db' d.id x ≡ false) own c.not_dismissed) in
    elim dismissed [
      | inl h ↦ clash (sym free ∙ (dismiss-is_rejected below a b db db' asym h).1)
      | inr h ↦ clash (sym free ∙ (dismiss-is_rejected below b a db db' asym h).0)
    ]
