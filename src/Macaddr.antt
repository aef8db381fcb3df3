-- ===== src/Macaddr.antt =====
-- internal/macaddr/macaddr.go: what a MAC address says of itself, and the vendor of its prefix. The
-- laws are in Macaddr/Canonical.antt.
pub mod Canonical
use light_ipam.Base.{
  ℕ, zero, suc, ◌+◌, ◌-◌, ◌*◌, ◌/◌, ◌%◌, Bool, true, false, not, ◌&&◌, ◌||◌, List, [], ◌∷◌, ◌++◌,
  Option, none, some, Text, codes, split, same, trim_space, to_upper, length, get_elem?, leb, ltb,
  ◌==◌, if◌then◌else◌, ◌>>=◌,
}
use light_ipam.Netip.Parse.{hex_digit}

pub data MacError : Type 0 where
  unreadable wrong_length : MacError

pub data Result (A : Type 0) : Type 0 where
  ok : A → Result A
  err : MacError → Result A

pub record Analysis : Type 0 where
  pub address : Text
  pub vendor : Text
  pub is_private : Bool
  pub is_multicast : Bool

-- `net.ParseMAC`: groups of two digits between colons or dashes, or of four between dots.
unfoldable pub hex_pair : Text → Option ℕ
unfolding hex_digit
hex_pair (a ∷ b ∷ []) = do x ← hex_digit a; y ← hex_digit b; some (x * 16 + y)
hex_pair _ = none

unfoldable pub pairs : List Text → Option (List ℕ)
unfolding hex_pair
pairs [] = some []
pairs (p ∷ ps) = do x ← hex_pair p; xs ← pairs ps; some (x ∷ xs)

unfoldable pub quads : List Text → Option (List ℕ)
unfolding hex_pair
quads [] = some []
quads ((a ∷ b ∷ c ∷ d ∷ []) ∷ ps) = do
  x ← hex_pair (a ∷ b ∷ [])
  y ← hex_pair (c ∷ d ∷ [])
  xs ← quads ps
  some (x ∷ y ∷ xs)
quads _ = none

abbrev pub mac_length : List ℕ → Option (List ℕ)
mac_length bytes = let n = length bytes in if n == 6 || n == 8 || n == 20 then some bytes else none

abbrev pub has_at : Text → ℕ → ℕ → Bool
has_at s i c = elim (get_elem? s i) [ none ↦ false | some d ↦ d == c ]

unfoldable pub parse_mac : Text → Option (List ℕ)
parse_mac s =
    if has_at s 2 b':'
    then pairs (split b':' s) >>= mac_length
    else if has_at s 2 b'-'
    then pairs (split b'-' s) >>= mac_length
    else if has_at s 4 b'.'
    then quads (split b'.' s) >>= mac_length
    else none

-- `HardwareAddr.String`: lower case, between colons.
abbrev pub hex_char : ℕ → ℕ
hex_char n = if ltb n 10 then b'0' + n else b'a' + (n - 10)

abbrev pub byte_text : ℕ → Text
byte_text n = hex_char (n / 16) ∷ hex_char (n % 16) ∷ []

unfoldable pub mac_text : List ℕ → Text
mac_text [] = []
mac_text (x ∷ []) = byte_text x
mac_text (x ∷ y ∷ xs) = byte_text x ++ (b':' ∷ mac_text (y ∷ xs))

abbrev pub oui_vendors : List (Text × Text)
oui_vendors =
    (codes "001A11", codes "Google")
    ∷ (codes "001B63", codes "Apple")
    ∷ (codes "001C42", codes "Parallels")
    ∷ (codes "002248", codes "Microsoft")
    ∷ (codes "002500", codes "Apple")
    ∷ (codes "3C5A37", codes "Samsung")
    ∷ (codes "3C7C3F", codes "Apple")
    ∷ (codes "44D9E7", codes "Ubiquiti")
    ∷ (codes "544249", codes "Sony")
    ∷ (codes "5C514F", codes "Intel")
    ∷ (codes "60F81D", codes "Apple")
    ∷ (codes "685B35", codes "Apple")
    ∷ (codes "6C2995", codes "Intel")
    ∷ (codes "70106F", codes "Hewlett Packard")
    ∷ (codes "74867A", codes "Dell")
    ∷ (codes "8C8590", codes "Apple")
    ∷ (codes "A0CEC8", codes "Cisco")
    ∷ (codes "A4B197", codes "Apple")
    ∷ (codes "B827EB", codes "Raspberry Pi")
    ∷ (codes "BC2411", codes "Apple")
    ∷ (codes "D85ED3", codes "Apple")
    ∷ (codes "DC9B9C", codes "Apple")
    ∷ (codes "F0D1A9", codes "Apple")
    ∷ (codes "F4F5D8", codes "Google")
    ∷ (codes "FCECDA", codes "Ubiquiti")
    ∷ []

unfoldable pub lookup_vendor : Text → List (Text × Text) → Text
lookup_vendor oui [] = []
lookup_vendor oui ((k, vendor) ∷ m) = if same k oui then vendor else lookup_vendor oui m

-- The OUI: the first three bytes, upper case, with no colon.
abbrev pub oui_of : ℕ → ℕ → ℕ → Text
oui_of a b c = to_upper (byte_text a ++ byte_text b ++ byte_text c)

unfoldable pub analyze_bytes : List ℕ → Result Analysis
unfolding lookup_vendor mac_text
analyze_bytes (a ∷ b ∷ c ∷ d ∷ e ∷ f ∷ []) =
    let multicast = a % 2 == 1 in
    let local = a / 2 % 2 == 1 in
    let private = local && not multicast in
    ok (record {
      address = mac_text (a ∷ b ∷ c ∷ d ∷ e ∷ f ∷ []);
      vendor = if private then [] else lookup_vendor (oui_of a b c) oui_vendors;
      is_private = private;
      is_multicast = multicast;
    })
analyze_bytes _ = err wrong_length

abbrev pub analyze_parsed : Option (List ℕ) → Result Analysis
analyze_parsed none = err unreadable
analyze_parsed (some bytes) = analyze_bytes bytes

unfoldable pub analyze : Text → Result Analysis
analyze value = analyze_parsed (parse_mac (trim_space value))
