-- ===== src/Inventory/Reconcile/Search.antt =====
-- The search for another managed address with an observed MAC.
use mathlib.Core.Bool.{true≢false}
use light_ipam.Base.{
  ℕ, true, false, not, ◌&&◌, List, [], ◌∷◌, none, some, Text, ◌≡◌, ◌≢◌, inl, inr, sym, ◌∙◌, In,
  here, there, In-cons, not-In-nil, Bool-cases, Option-cases, same,
}
use light_ipam.Netip.{Addr}
use light_ipam.Inventory.{Address, Mac, same_addr}
use light_ipam.Inventory.Queue.{has_device, other_address, mac_elsewhere}

some≢none : {o : Addr} → some o ≢ none
some≢none h = cc

other_address-none :
    (device : ℕ) (ip : Addr) (rows : List Address)
    → other_address device ip rows ≡ none
    → (a : Address) → In a rows
    → (has_device device a.device_id && not (same_addr a.address ip)) ≡ false
unfolding other_address
other_address-none device ip [] h a i = absurd (not-In-nil i)
other_address-none device ip (x ∷ rows) h a i =
    elim (Bool-cases (has_device device x.device_id && not (same_addr x.address ip))) [
      | inl hit ↦ absurd (some≢none (rw hit at h))
      | inr miss ↦ elim (In-cons i) [
        | inl e ↦ rw e miss
        | inr later ↦ other_address-none device ip rows (rw miss at h) a later
      ]
    ]

other_address-some :
    (device : ℕ) (ip : Addr) (rows : List Address) {o : Addr}
    → other_address device ip rows ≡ some o
    → (a : Address) × In a rows
      × ((has_device device a.device_id && not (same_addr a.address ip)) ≡ true)
unfolding other_address
other_address-some device ip [] h = absurd cc
other_address-some device ip (x ∷ rows) h =
    elim (Bool-cases (has_device device x.device_id && not (same_addr x.address ip))) [
      | inl hit ↦ (x, here, hit)
      | inr miss ↦
          let (a, i, e) = other_address-some device ip rows (rw miss at h) in (a, there i, e)
    ]

-- Some row of the MACs and some row of the addresses witness that the MAC is held elsewhere.
abbrev pub Held : Text → Addr → List Mac → List Address → Type 0
Held mac ip macs addresses =
    (m : Mac) × (a : Address) × In m macs
    × In a addresses
    × (same m.address mac ≡ true)
    × ((has_device m.device_id a.device_id && not (same_addr a.address ip)) ≡ true)

Held-there :
    (mac : Text) (ip : Addr) (x : Mac) (macs : List Mac) (addresses : List Address)
    → Held mac ip macs addresses
    → Held mac ip (x ∷ macs) addresses
Held-there mac ip x macs addresses (m, a, i, j, s, e) = (m, a, there i, j, s, e)

pub mac_elsewhere-Held :
    (mac : Text) (ip : Addr) (macs : List Mac) (addresses : List Address) {o : Addr}
    → mac_elsewhere mac ip macs addresses ≡ some o
    → Held mac ip macs addresses
unfolding mac_elsewhere
mac_elsewhere-Held mac ip [] addresses h = absurd cc
mac_elsewhere-Held mac ip (x ∷ macs) addresses h =
    let later = λ (e : mac_elsewhere mac ip macs addresses ≡ some _).
      Held-there mac ip x macs addresses (mac_elsewhere-Held mac ip macs addresses e) in
    elim (Bool-cases (same x.address mac)) [
      | inl hit ↦ elim (Option-cases (other_address x.device_id ip addresses)) [
        | inl none_there ↦ later (rw (hit, none_there) at h)
        | inr (o, found) ↦
            let (a, j, e) = other_address-some x.device_id ip addresses found in
            (x, a, here, j, hit, e)
      ]
      | inr miss ↦ later (rw miss at h)
    ]

pub Held-mac_elsewhere :
    (mac : Text) (ip : Addr) (macs : List Mac) (addresses : List Address)
    → mac_elsewhere mac ip macs addresses ≡ none
    → Held mac ip macs addresses
    → ⊥
unfolding mac_elsewhere
Held-mac_elsewhere mac ip [] addresses h (m, a, i, j, s, e) = not-In-nil i
Held-mac_elsewhere mac ip (x ∷ macs) addresses h (m, a, i, j, s, e) =
    elim (Bool-cases (same x.address mac)) [
      | inl hit ↦ elim (Option-cases (other_address x.device_id ip addresses)) [
        | inl none_there ↦ elim (In-cons i) [
          | inl same_row ↦ absurd (
              true≢false
                (sym e ∙ rw same_row (other_address-none x.device_id ip addresses none_there a j)))
          | inr later ↦
              Held-mac_elsewhere mac ip macs addresses (rw (hit, none_there) at h)
                (m, a, later, j, s, e)
        ]
        | inr (o, found) ↦ absurd (some≢none (rw (hit, found) at h))
      ]
      | inr miss ↦ elim (In-cons i) [
        | inl same_row ↦ absurd (true≢false (sym s ∙ rw same_row miss))
        | inr later ↦ Held-mac_elsewhere mac ip macs addresses (rw miss at h) (m, a, later, j, s, e)
      ]
    ]
