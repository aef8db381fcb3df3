-- ===== src/Examples/Hardware.antt =====
-- Runs on a table of four devices: b and c are one piece of hardware, a and d are not linked.
use mathlib.Core.Option.{some-injective}
use light_ipam.Base.{
  arith, any, same, same_refl, Bool, true, false, List, [], ◌∷◌, Option, none, some, ◌⊎◌, inl, inr,
  Text, codes, ◌≡◌, ◌≢◌, ◌↔◌, refl, In, here, there, In-cons, not-In-nil, subst, sym, ap, ◌∙◌,
}
use light_ipam.Links.{
  Device, Db, text_less, link_devices, unlink_device, dismiss_device_link_suggestion,
}
use light_ipam.Links.Suggest.{
  DeviceLinkSuggestion, list_device_link_suggestions, auto_link_device_by_serial,
}
use light_ipam.Links.Groups.{IsGrouped, Member}
use light_ipam.Links.Steps.{linked, LinkStep-IsGrouped}
use light_ipam.Links.Merge.{SameHardware, Touched, link_devices-SameHardware}
use light_ipam.Links.Guards.{
  IsCandidateFor, list_device_link_suggestions-IsCandidateFor, dismiss-list_device_link_suggestions,
}

abbrev device : Text → Option Text → Text → Device
device id group subnet = record {
  id = id;
  name = id;
  os_family = codes "BSD";
  hw_serial = codes "S1";
  group = group;
  addresses = record { ip = []; hostname = codes "gw"; subnet = some subnet } ∷ [];
  macs = [];
}

abbrev own : Text
own = codes "g"

abbrev a : Device
a = device (codes "a") none (codes "s1")

abbrev b : Device
b = device (codes "b") (some own) (codes "s2")

abbrev c : Device
c = device (codes "c") (some own) (codes "s3")

abbrev d : Device
d = device (codes "d") none (codes "s2")

abbrev tables : List Device → Db
tables devices = record {
  devices = devices;
  subnets = [];
  rejections = [];
  auto_serial = some (codes "true");
}

abbrev db : Db
db = tables (a ∷ b ∷ c ∷ d ∷ [])

-- After a is linked with b.
abbrev joined : Db
joined = tables (device (codes "a") (some own) (codes "s1") ∷ b ∷ c ∷ d ∷ [])

joined_made : link_devices (codes "t") (codes "a" ∷ codes "b" ∷ []) db ≡ inr joined
unfolding link_devices
joined_made = refl

left_alone :
    unlink_device (codes "b") db
    ≡ inr (
        tables (
          a ∷ device (codes "b") none (codes "s2") ∷ device (codes "c") none (codes "s3") ∷ d ∷ []))
unfolding unlink_device
left_alone = refl

-- The automatic link of a takes b and d, which are both in s2.
linked_with :
    auto_link_device_by_serial text_less
      (codes "t")
      (codes "a")
      (tables (a ∷ device (codes "b") none (codes "s2") ∷ d ∷ []))
    ≡ inr (
      tables (
          device (codes "a") (some (codes "t")) (codes "s1")
          ∷ device (codes "b") (some (codes "t")) (codes "s2")
          ∷ device (codes "d") (some (codes "t")) (codes "s2")
          ∷ []),
      codes "b" ∷ codes "d" ∷ [],
    )
unfolding auto_link_device_by_serial light_ipam.Base.is_space
linked_with = refl

abbrev dismissed : Db
dismissed = record db { rejections = (codes "a", codes "b") ∷ [] }

dismissed_made : dismiss_device_link_suggestion text_less (codes "b") (codes "a") db ≡ inr dismissed
unfolding dismiss_device_link_suggestion
dismissed_made = refl

abbrev shown : Device → DeviceLinkSuggestion
shown x = record {
  device_id = x.id;
  name = x.id;
  hostname = codes "gw";
  os_family = codes "BSD";
  serial_match = true;
  addresses = [];
}

suggested :
    list_device_link_suggestions text_less (codes "a") db ≡ inr (shown b ∷ shown c ∷ shown d ∷ [])
unfolding list_device_link_suggestions light_ipam.Base.is_space text_less
suggested = refl

suggested_then :
    list_device_link_suggestions text_less (codes "a") dismissed ≡ inr (shown c ∷ shown d ∷ [])
unfolding list_device_link_suggestions light_ipam.Base.is_space text_less
suggested_then = refl

-- What holds of the four rows holds of every row.
each : (P : Device → Type 0) → P a → P b → P c → P d → (x : Device) → In x db.devices → P x
each P pa pb pc pd x m = elim (In-cons m) [
  | inl e ↦ subst P (sym e) pa
  | inr m1 ↦ elim (In-cons m1) [
    | inl e ↦ subst P (sym e) pb
    | inr m2 ↦ elim (In-cons m2) [
      | inl e ↦ subst P (sym e) pc
      | inr m3 ↦ elim (In-cons m3) [ inl e ↦ subst P (sym e) pd | inr m4 ↦ absurd (not-In-nil m4) ]
    ]
  ]
]

no_group : (g : Text) → ◌≡◌ {A = Option Text} none (some g) → ⊥
no_group g h = cc

in_own : (g : Text) → some own ≡ some g → g ≢ []
in_own g h e = cc (h, e)

differ : (s t : Text) → same s t ≡ false → s ≢ t
differ s t h e = clash (sym h ∙ subst (λ x. same s x ≡ true) e (same_refl s))
  where
    clash : false ≡ true → ⊥
    clash h = cc

fresh : (x : Device) → In x db.devices → Member (codes "t") x → ⊥
unfolding same
fresh =
    each (λ x. Member (codes "t") x → ⊥) (no_group (codes "t")) other other (no_group (codes "t"))
  where
    other : some own ≡ some (codes "t") → ⊥
    other e = differ own (codes "t") refl (some-injective _ _ e)

db-IsGrouped : IsGrouped db.devices
unfolding any same
db-IsGrouped = record {
  keys = ((λ e. cc), refl, ((λ e. cc), refl, ((λ e. cc), refl, ((λ e. cc), refl, tt))));
  named =
      each (λ x. (g : Text) → Member g x → g ≢ []) (λ g h. absurd (no_group g h)) in_own in_own
        (λ g h. absurd (no_group g h));
  paired =
      each
        (λ x. (g : Text) → Member g x → (e : Device) × In e db.devices × Member g e × (e.id ≢ x.id))
        (λ g h. absurd (no_group g h))
        (λ g h. (c, there (there here), h, differ (codes "c") (codes "b") refl))
        (λ g h. (b, there here, h, differ (codes "b") (codes "c") refl))
        (λ g h. absurd (no_group g h));
}

LinkStep-IsGrouped_example : IsGrouped joined.devices
LinkStep-IsGrouped_example =
    LinkStep-IsGrouped text_less db joined db-IsGrouped
      (linked (codes "t") (codes "a" ∷ codes "b" ∷ []) (λ e. cc) joined_made)

link_devices-SameHardware_example : SameHardware joined.devices (codes "a") (codes "c") ↔ (
    SameHardware db.devices (codes "a") (codes "c")
    ⊎ (Touched db.devices (codes "a" ∷ codes "b" ∷ []) (codes "a")
        × Touched db.devices (codes "a" ∷ codes "b" ∷ []) (codes "c")))
link_devices-SameHardware_example =
    link_devices-SameHardware (codes "t") (codes "a" ∷ codes "b" ∷ []) db joined db-IsGrouped fresh
      joined_made (codes "a") (codes "c")

list_device_link_suggestions-IsCandidateFor_example :
    (target : Device) × In target db.devices
    × (target.id ≡ codes "a")
    × ((x : Device) × In x db.devices × (codes "c" ≡ x.id) × IsCandidateFor text_less db target x)
list_device_link_suggestions-IsCandidateFor_example =
    list_device_link_suggestions-IsCandidateFor text_less (codes "a") db
      (shown b ∷ shown c ∷ shown d ∷ []) suggested (shown c) (there here)

text_less_asym : (s t : Text) → text_less s t ≡ true → text_less t s ≡ false
unfolding text_less
text_less_asym [] [] h = cc
text_less_asym [] (d ∷ t) h = refl
text_less_asym (c ∷ s) [] h = cc
text_less_asym (c ∷ s) (d ∷ t) h = ground (arith, text_less_asym s t)

dismiss-list_device_link_suggestions_example : codes "c" ≢ codes "b"
dismiss-list_device_link_suggestions_example =
    dismiss-list_device_link_suggestions text_less (codes "a") (codes "b") db dismissed
      (shown c ∷ shown d ∷ []) text_less_asym (inr dismissed_made) suggested_then (shown c) here
