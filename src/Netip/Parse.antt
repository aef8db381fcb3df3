-- ===== src/Netip/Parse.antt =====
-- `netip.ParseAddr` and `netip.ParsePrefix`, over texts as lists of code points.
use mathlib.Core.List.{reverse}
use light_ipam.Base.{
  ℕ, zero, suc, ◌+◌, ◌-◌, ◌*◌, ◌^◌, ◌/◌, Bool, false, not, ◌&&◌, ◌||◌, List, [], ◌∷◌, ◌++◌, Option,
  none, some, Text, is_empty, length, take, drop, replicate, split, ltb, leb, ◌==◌, if◌then◌else◌,
  ◌>>=◌, is_some, ◌%◌,
}
use light_ipam.Netip.{Addr, v4, v6, Prefix, bit_len}

abbrev pub is_digit : ℕ → Bool
is_digit c = leb b'0' c && leb c b'9'

-- Decimal digits behind the value so far; anything else is refused.
unfoldable pub decimal_from : ℕ → Text → Option ℕ
decimal_from n [] = some n
decimal_from n (c ∷ s) =
    let rest = decimal_from (n * 10 + (c - b'0')) s in if is_digit c then rest else none

unfoldable pub decimal : Text → Option ℕ
unfolding decimal_from
decimal [] = none
decimal (c ∷ s) = decimal_from 0 (c ∷ s)

-- One field of a dotted address: no leading zero, at most 255.
abbrev leads_zero : Text → Bool
leads_zero (c ∷ d ∷ s) = c == b'0'
leads_zero _ = false

unfoldable pub octet : Text → Option ℕ
unfolding decimal
octet s = do n ← decimal s; if leads_zero s || ltb 255 n then none else some n

unfoldable pub octets : List Text → Option ℕ
unfolding octet
octets (a ∷ b ∷ c ∷ d ∷ []) = do
  w ← octet a
  x ← octet b
  y ← octet c
  z ← octet d
  some (w * 2 ^ 24 + x * 2 ^ 16 + y * 2 ^ 8 + z)
octets _ = none

unfoldable pub parse_v4 : Text → Option ℕ
unfolding octets split
parse_v4 s = octets (split b'.' s)

unfoldable pub hex_digit : ℕ → Option ℕ
hex_digit c =
    if is_digit c
    then some (c - b'0')
    else if leb b'a' c && leb c b'f'
    then some (c - b'a' + 10)
    else if leb b'A' c && leb c b'F'
    then some (c - b'A' + 10)
    else none

-- The hexadecimal digits at the head of a text: their number, their value, and what follows.
hex_run : ℕ → ℕ → Text → ℕ × ℕ × Text
unfolding hex_digit
hex_run k acc [] = (k, acc, [])
hex_run k acc (c ∷ s) = elim (hex_digit c) [
  | none ↦ (k, acc, c ∷ s)
  | some d ↦ hex_run (k + 1) (acc * 16 + d) s
]

-- The 16-bit groups read so far (last first), the place of `::` if it was seen.
record Groups : Type 0 where
  read : List ℕ
  ellipsis : Option ℕ

abbrev starts_with : ℕ → Text → Bool
starts_with c [] = false
starts_with c (d ∷ s) = c == d

-- What stands behind a group: the end, or a colon and more, or `::`.
after_colon : (Text → Groups → Option Groups) → Text → Groups → Option Groups
after_colon again [] g = none
after_colon again (c ∷ s) g =
    if c == b':'
    then elim g.ellipsis [
      | some _ ↦ none
      | none ↦
          let g' = record g { ellipsis = some (length g.read) } in
          if is_empty s then some g' else again s g'
    ]
    else again (c ∷ s) g

after_group : (Text → Groups → Option Groups) → Text → Groups → Option Groups
unfolding after_colon
after_group again [] g = some g
after_group again (c ∷ s) g = if c == b':' then after_colon again s g else none

-- A dotted address may stand for the last two groups.
dotted_tail : Text → Groups → Option Groups
unfolding parse_v4
dotted_tail s g =
    let here = length g.read in
    if ltb 6 here || (not (here == 6) && not (is_some g.ellipsis))
    then none
    else do n ← parse_v4 s; some (record g { read = (n % 2 ^ 16) ∷ (n / 2 ^ 16) ∷ g.read })

-- The loop of `parseIPv6` over the groups that are still to read; `none` is a refusal.
groups : ℕ → Text → Groups → Option Groups
unfolding hex_run dotted_tail after_group
groups zero s g = if is_empty s then some g else none
groups (suc k) s g =
    let (n, acc, rest) = hex_run 0 0 s in
    if n == 0 || ltb 4 n
    then none
    else if starts_with b'.' rest
    then dotted_tail s g
    else after_group (groups k) rest (record g { read = acc ∷ g.read })

-- The value of groups given first to last.
value16 : ℕ → List ℕ → ℕ
value16 acc [] = acc
value16 acc (g ∷ gs) = value16 (acc * 2 ^ 16 + g) gs

-- The groups in order, with zeros in the place of `::`; all eight must be given, or be left to it.
expand : Groups → Option ℕ
unfolding value16
expand g =
    let gs = reverse g.read in
    let n = length gs in
    elim g.ellipsis [
      | none ↦ if n == 8 then some (value16 0 gs) else none
      | some e ↦
          if n == 8 then none else some (value16 0 (take e gs ++ replicate (8 - n) 0 ++ drop e gs))
    ]

abbrev from_ellipsis : Text → Option Groups
from_ellipsis [] = some (record { read = []; ellipsis = some 0 })
from_ellipsis (c ∷ s) = groups 8 (c ∷ s) (record { read = []; ellipsis = some 0 })

abbrev from_start : Text → Option Groups
from_start s = groups 8 s (record { read = []; ellipsis = none })

leading : Text → Option Groups
unfolding groups
leading (c ∷ d ∷ s) = if c == b':' && d == b':' then from_ellipsis s else from_start (c ∷ d ∷ s)
leading s = from_start s

-- A text up to the first character given, and what follows that, if it is there.
unfoldable pub cut : ℕ → Text → Text × Option Text
cut sep [] = ([], none)
cut sep (c ∷ s) =
    let (before, after) = cut sep s in if c == sep then ([], some s) else (c ∷ before, after)

abbrev zone : Option Text → Option Text
zone none = some []
zone (some []) = none
zone (some (c ∷ s)) = some (c ∷ s)

unfoldable pub parse_v6 : Text → Option Addr
unfolding leading expand cut
parse_v6 s = do z ← zone (cut b'%' s).1; g ← leading (cut b'%' s).0; n ← expand g; some (v6 n z)

-- `ParseAddr`: the first `.`, `:` or `%` decides.
pub data Family : Type 0 where
  dotted colons neither : Family

family : Text → Family
family [] = neither
family (c ∷ s) =
    let rest = family s in
    if c == b'.' then dotted else if c == b':' then colons else if c == b'%' then neither else rest

parse_family : Family → Text → Option Addr
unfolding parse_v4 parse_v6
parse_family dotted s = do n ← parse_v4 s; some (v4 n)
parse_family colons s = parse_v6 s
parse_family neither s = none

unfoldable pub parse_addr : Text → Option Addr
unfolding family parse_family
parse_addr s = parse_family (family s) s

-- A text at its last `/`.
unfoldable pub cut_last_slash : Text → Option (Text × Text)
cut_last_slash [] = none
cut_last_slash (c ∷ s) = elim (cut_last_slash s) [
  | some (a, b) ↦ some (c ∷ a, b)
  | none ↦ if c == b'/' then some ([], s) else none
]

abbrev pub zoned : Addr → Bool
zoned (v4 n) = false
zoned (v6 n z) = not (is_empty z)

-- A length has no sign and no leading zero.
unfoldable pub prefix_bits : Text → Option ℕ
unfolding decimal
prefix_bits (c ∷ d ∷ s) = if leb b'1' c && leb c b'9' then decimal (c ∷ d ∷ s) else none
prefix_bits s = decimal s

unfoldable pub prefix_from : Addr → ℕ → Option Prefix
prefix_from a k = if leb k (bit_len a) then some (record { addr = a; bits = k }) else none

unfoldable pub parse_prefix : Text → Option Prefix
unfolding cut_last_slash prefix_bits parse_addr prefix_from
parse_prefix s = do
  parts ← cut_last_slash s
  a ← parse_addr parts.0
  k ← (if zoned a then none else prefix_bits parts.1)
  prefix_from a k

-- `net.ParseCIDR`, as an address and a length: the text is cut at the first slash, and the length
-- may have leading zeros.
abbrev pub cidr_bits : Option Text → Option ℕ
cidr_bits none = none
cidr_bits (some s) = decimal s

unfoldable pub parse_cidr : Text → Option Prefix
unfolding cut decimal parse_addr prefix_from
parse_cidr s = do
  a ← parse_addr (cut b'/' s).0
  k ← (if zoned a then none else cidr_bits (cut b'/' s).1)
  prefix_from a k
