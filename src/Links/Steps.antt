-- ===== src/Links/Steps.antt =====
-- No device is left alone in a group: the operations on the database.
use light_ipam.Base.{
  true, trim_space, ◌≤◌, Bool, ◌||◌, List, [], ◌∷◌, ◌⊎◌, inl, inr, Text, map, length, is_empty,
  same, ltb, ◌==◌, ◌≡◌, ◌≢◌, sym, ap, subst, ◌∙◌, arith, Bool-cases, Option-cases,
}
use light_ipam.Combined.Merge.{union_from}
use light_ipam.Links.{
  Db, LinkError, coalesce, found_devices, link_unique, link_devices, find_device, leave_group,
  dissolve_small, unlink_device, dismiss_device_link_suggestion,
}
use light_ipam.Links.{add_rejection, insert_rejection, text_less, dismiss_device_link_suggestion}
use light_ipam.Links.Suggest.{
  identity_of, subnet_ids, with_matches, link_matches, is_on, auto_link_device_by_serial,
  matches_from,
}
use light_ipam.Links.Groups.{IsGrouped, find_device-In, unlink-IsGrouped}
use light_ipam.Links.Joined.{joined-IsGrouped, join}

inl-inr : {A B : Type 0} (a : A) (b : B) → ◌≡◌ {A = A ⊎ B} (inl a) (inr b) → ⊥
inl-inr a b h = cc

inr-injective : {A B : Type 0} (x y : B) → ◌≡◌ {A = A ⊎ B} (inr x) (inr y) → x ≡ y
inr-injective x y h = cc

-- What a link that succeeds does: it was given two devices, found all, and updated the rows.
pub link_unique-inr :
    (token : Text) (ids : List Text) (db db' : Db)
    → link_unique token ids db ≡ inr db'
    → (2 ≤ length ids)
      × (length (found_devices ids db.devices) ≡ length ids)
      × (db' ≡ record db { devices = map (join token ids db.devices) db.devices })
link_unique-inr token ids db db' h = elim (Bool-cases (ltb (length ids) 2)) [
  | inl few ↦ absurd (inl-inr _ _ (rw few at h))
  | inr enough ↦ elim (Bool-cases (length (found_devices ids db.devices) == length ids)) [
    | inr missing ↦ absurd (inl-inr _ _ (rw (enough, missing) at h))
    | inl all_found ↦
        (ground arith, ground arith, sym (inr-injective _ _ (rw (enough, all_found) at h)))
  ]
]

link_devices-IsGrouped :
    (token : Text) (ids : List Text) (db db' : Db)
    → token ≢ []
    → IsGrouped db.devices
    → link_devices token ids db ≡ inr db'
    → IsGrouped db'.devices
unfolding link_devices
link_devices-IsGrouped token ids db db' t h l =
    let unique = union_from [] ids in
    let (two, found, after) = link_unique-inr token unique db db' l in
    subst (λ x. IsGrouped x.devices) (sym after)
      (joined-IsGrouped token unique db.devices t (omega (arith, two, found)) h)

unlink_device-IsGrouped :
    (id : Text) (db db' : Db)
    → IsGrouped db.devices
    → unlink_device id db ≡ inr db'
    → IsGrouped db'.devices
unfolding unlink_device
unlink_device-IsGrouped id db db' h u = elim (Option-cases (find_device id db.devices)) [
  | inl e ↦ absurd (inl-inr _ _ (rw e at u))
  | inr (d, e) ↦
      let (m, own) = find_device-In id db.devices d e in
      elim (Bool-cases (is_empty (coalesce d.group))) [
        | inl free ↦ subst (λ x. IsGrouped x.devices) (inr-injective _ _ (rw (e, free) at u)) h
        | inr grouped ↦
            subst (λ x. IsGrouped x.devices) (inr-injective _ _ (rw (e, grouped) at u))
              (subst
                (λ k.
                  IsGrouped (dissolve_small (coalesce d.group) (map (leave_group k) db.devices)))
                own (unlink-IsGrouped db.devices d h m))
      ]
]

add_rejection-devices : (lo hi : Text) (db : Db) → (add_rejection lo hi db).devices ≡ db.devices
add_rejection-devices lo hi db = ground arith

pub insert_rejection-inr :
    (below : Text → Text → Bool) (lo hi : Text) (db db' : Db)
    → insert_rejection below lo hi db ≡ inr db'
    → (below lo hi ≡ true) × (add_rejection lo hi db ≡ db')
insert_rejection-inr below lo hi db db' h = elim (Bool-cases (below lo hi)) [
  | inl e ↦ (e, inr-injective _ _ (rw e at h))
  | inr e ↦ absurd (inl-inr _ _ (rw e at h))
]

-- A dismissal that succeeds inserts the pair in one of its orders.
pub dismiss-cases :
    (below : Text → Text → Bool) (a b : Text) (db db' : Db)
    → dismiss_device_link_suggestion below a b db ≡ inr db'
    → insert_rejection below a b db ≡ inr db' ⊎ insert_rejection below b a db ≡ inr db'
unfolding dismiss_device_link_suggestion
dismiss-cases below a b db db' h = elim (Bool-cases (is_empty a || is_empty b || same a b)) [
  | inl bad ↦ absurd (inl-inr _ _ (rw bad at h))
  | inr fine ↦ elim (Bool-cases (text_less b a)) [
    | inl e ↦ inr (rw (fine, e) at h)
    | inr e ↦ inl (rw (fine, e) at h)
  ]
]

insert_rejection-devices :
    (below : Text → Text → Bool) (lo hi : Text) (db db' : Db)
    → insert_rejection below lo hi db ≡ inr db'
    → db'.devices ≡ db.devices
insert_rejection-devices below lo hi db db' h =
    ap (λ x. x.devices) (sym (insert_rejection-inr below lo hi db db' h).1)
    ∙ add_rejection-devices lo hi db

dismiss-devices :
    (below : Text → Text → Bool) (a b : Text) (db db' : Db)
    → dismiss_device_link_suggestion below a b db ≡ inr db'
    → db'.devices ≡ db.devices
dismiss-devices below a b db db' h = elim (dismiss-cases below a b db db' h) [
  | inl i ↦ insert_rejection-devices below a b db db' i
  | inr i ↦ insert_rejection-devices below b a db db' i
]

pair-injective :
    {A B : Type 0} (x : A × B) (y : A × B) → ◌≡◌ {A = LinkError ⊎ A × B} (inr x) (inr y) → x ≡ y
pair-injective x y h = cc

with_matches-inr :
    (ids : List Text) (r : LinkError ⊎ Db) (db' : Db) (linked : List Text)
    → with_matches ids r ≡ inr (db', linked)
    → r ≡ inr db'
with_matches-inr ids (inl e) db' linked h = absurd (inl-inr _ _ h)
with_matches-inr ids (inr db) db' linked h = ap inr (ap (λ p. p.0) (pair-injective _ _ h))

-- The automatic link changes nothing or is a link.
auto_link-cases :
    (below : Text → Text → Bool) (token id : Text) (db db' : Db) (linked : List Text)
    → auto_link_device_by_serial below token id db ≡ inr (db', linked)
    → (db ≡ db') ⊎ ((ids : List Text) × (link_devices token ids db ≡ inr db'))
unfolding auto_link_device_by_serial
auto_link-cases below token id db db' linked h = elim (Bool-cases (is_on db.auto_serial)) [
  | inr off ↦ inl (ap (λ p. p.0) (pair-injective _ _ (rw off at h)))
  | inl on ↦ elim (Option-cases (find_device id db.devices)) [
    | inl e ↦ inl (ap (λ p. p.0) (pair-injective _ _ (rw (on, e) at h)))
    | inr (d, e) ↦
        elim (Bool-cases
          (is_empty (trim_space (identity_of d).hw_serial) || is_empty (subnet_ids d))) [
            | inl none_of ↦ inl (ap (λ p. p.0) (pair-injective _ _ (rw (on, e, none_of) at h)))
            | inr some_of ↦
                by_matches d.id (matches_from below db d db.devices) (rw (on, e, some_of) at h)
          ]
  ]
]
  where
    by_matches :
        (own : Text) (ids : List Text)
        → link_matches token own ids db ≡ inr (db', linked)
        → (db ≡ db') ⊎ ((ids : List Text) × (link_devices token ids db ≡ inr db'))
    by_matches own [] h = inl (ap (λ p. p.0) (pair-injective _ _ h))
    by_matches own (m ∷ ids) h = inr (own ∷ m ∷ ids, with_matches-inr (m ∷ ids) _ db' linked h)

-- The changes of the file, each where it succeeds; the token of a new group is not empty.
pub data LinkStep (below : Text → Text → Bool) (db db' : Db) : Type 0 where
  linked :
      (token : Text) (ids : List Text)
      → token ≢ []
      → link_devices token ids db ≡ inr db'
      → LinkStep below db db'
  unlinked : (id : Text) → unlink_device id db ≡ inr db' → LinkStep below db db'
  dismissed :
      (a b : Text) → dismiss_device_link_suggestion below a b db ≡ inr db' → LinkStep below db db'
  auto_linked :
      (token id : Text) (ids : List Text)
      → token ≢ []
      → auto_link_device_by_serial below token id db ≡ inr (db', ids)
      → LinkStep below db db'

-- Linking, unlinking, dismissing and the automatic link keep the ids of the devices a key, leave no
-- group with the empty name, and leave no device alone in its group: every member of a group has
-- another. The token of a new group is not empty.
pub LinkStep-IsGrouped :
    (below : Text → Text → Bool) (db db' : Db)
    → IsGrouped db.devices
    → LinkStep below db db'
    → IsGrouped db'.devices
LinkStep-IsGrouped below db db' h (linked token ids t l) =
    link_devices-IsGrouped token ids db db' t h l
LinkStep-IsGrouped below db db' h (unlinked id u) = unlink_device-IsGrouped id db db' h u
LinkStep-IsGrouped below db db' h (dismissed a b d) =
    subst IsGrouped (sym (dismiss-devices below a b db db' d)) h
LinkStep-IsGrouped below db db' h (auto_linked token id ids t a) =
    elim (auto_link-cases below token id db db' ids a) [
      | inl same_db ↦ subst (λ x. IsGrouped x.devices) same_db h
      | inr (all_ids, l) ↦ link_devices-IsGrouped token all_ids db db' t h l
    ]
