-- ===== src/Combined/Services.antt =====
-- The union of two service lists by protocol and port.
use light_ipam.Base.{Bool, false, List, [], ◌∷◌, ◌≡◌, any}
use light_ipam.Protocol.{ServiceObservation}
use light_ipam.Combined.Merge.{same_service}

-- A service of the same protocol and port is in the list.
abbrev pub has : ServiceObservation → List ServiceObservation → Bool
has s a = any (same_service s) a

-- No protocol and port is twice in the list.
abbrev pub Distinct : List ServiceObservation → Type 0
Distinct [] = Unit {0}
Distinct (s ∷ a) = (has s a ≡ false) × Distinct a
