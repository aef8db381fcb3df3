-- ===== src/Macaddr/Canonical.antt =====
-- The canonical text of a MAC address is read back as the same address.
use light_ipam.Base.{
  ℕ, ◌+◌, ◌/◌, ◌%◌, ◌<◌, false, List, [], ◌∷◌, ◌++◌, Option, none, some, Text, ◌≡◌, ◌≢◌, refl,
  arith, split, join, split-join, >>=-eq-some, Option-cases, Bool-cases, inl, inr, subst, ◌*◌,
  Lacks, All, ap, ◌∙◌, ◌>>=◌, trim_space, NoSpace, is_space, map, trim_space-NoSpace,
}
use light_ipam.Netip.Parse.{hex_digit}
use light_ipam.Macaddr.{
  hex_pair, byte_text, hex_char, pairs, mac_text, quads, has_at, parse_mac, mac_length, analyze,
  analyze_bytes, analyze_parsed, ok, Analysis,
}

hex_digit-hex_char : (d : ℕ) → d < 16 → hex_digit (hex_char d) ≡ some d
unfolding hex_digit
hex_digit-hex_char d h = ground arith

hex_pair-byte_text : (n : ℕ) → n < 256 → hex_pair (byte_text n) ≡ some n
unfolding hex_pair
hex_pair-byte_text n h =
    rw (hex_digit-hex_char (n / 16) (omega arith), hex_digit-hex_char (n % 16) (omega arith))
      (ap some (omega arith))

hex_digit-lt : (c : ℕ) {d : ℕ} → hex_digit c ≡ some d → d < 16
unfolding hex_digit
hex_digit-lt c h = ground arith

-- A digit of a byte is no colon and no space.
hex_char-plain : (d : ℕ) → d < 16 → (hex_char d ≢ b':') × (is_space (hex_char d) ≡ false)
unfolding is_space
hex_char-plain d h = ground arith

abbrev IsByte : ℕ → Type 0
IsByte n = n < 256

byte_text-Lacks : (n : ℕ) → IsByte n → Lacks b':' (byte_text n)
byte_text-Lacks n h =
    ((hex_char-plain (n / 16) (omega arith)).0, ((hex_char-plain (n % 16) (omega arith)).0, tt))

byte_text-NoSpace : (n : ℕ) → IsByte n → NoSpace (byte_text n)
byte_text-NoSpace n h =
    ((hex_char-plain (n / 16) (omega arith)).1, ((hex_char-plain (n % 16) (omega arith)).1, tt))

NoSpace-append : (s t : Text) → NoSpace s → NoSpace t → NoSpace (s ++ t)
NoSpace-append [] t hs ht = ht
NoSpace-append (c ∷ s) t (h, hs) ht = (h, NoSpace-append s t hs ht)

mac_text-NoSpace : (xs : List ℕ) → All IsByte xs → NoSpace (mac_text xs)
unfolding mac_text
mac_text-NoSpace [] h = tt
mac_text-NoSpace (x ∷ []) (h, _) = byte_text-NoSpace x h
mac_text-NoSpace (x ∷ y ∷ xs) (h, hs) =
    NoSpace-append (byte_text x) (b':' ∷ mac_text (y ∷ xs)) (byte_text-NoSpace x h)
      (unfold is_space in refl, mac_text-NoSpace (y ∷ xs) hs)

mac_text-join : (xs : List ℕ) → mac_text xs ≡ join b':' (map byte_text xs)
unfolding mac_text join
mac_text-join [] = refl
mac_text-join (x ∷ []) = refl
mac_text-join (x ∷ y ∷ xs) = ap (λ t. byte_text x ++ (b':' ∷ t)) (mac_text-join (y ∷ xs))

map-Lacks : (xs : List ℕ) → All IsByte xs → All (Lacks b':') (map byte_text xs)
map-Lacks [] h = tt
map-Lacks (x ∷ xs) (h, hs) = (byte_text-Lacks x h, map-Lacks xs hs)

pairs-map : (xs : List ℕ) → All IsByte xs → pairs (map byte_text xs) ≡ some xs
unfolding pairs
pairs-map [] h = refl
pairs-map (x ∷ xs) (h, hs) = rw (hex_pair-byte_text x h, pairs-map xs hs)

-- The text of six bytes is read back as these bytes.
parse_mac-mac_text :
    (a b c d e f : ℕ)
    → All IsByte (a ∷ b ∷ c ∷ d ∷ e ∷ f ∷ [])
    → parse_mac (mac_text (a ∷ b ∷ c ∷ d ∷ e ∷ f ∷ [])) ≡ some (a ∷ b ∷ c ∷ d ∷ e ∷ f ∷ [])
unfolding parse_mac mac_text
parse_mac-mac_text a b c d e f h =
    let xs : List ℕ = a ∷ b ∷ c ∷ d ∷ e ∷ f ∷ [] in
    ap (λ t. pairs (split b':' t) >>= mac_length) (mac_text-join xs)
    ∙ ap (λ ps. pairs ps >>= mac_length)
        (split-join b':' (byte_text a) (map byte_text (b ∷ c ∷ d ∷ e ∷ f ∷ [])) (map-Lacks xs h))
    ∙ ap (λ o. o >>= mac_length) (pairs-map xs h)

hex_pair-lt : (p : Text) {n : ℕ} → hex_pair p ≡ some n → n < 256
unfolding hex_pair
hex_pair-lt (a ∷ b ∷ []) {n} h =
    let (x, ex, h1) = >>=-eq-some (hex_digit a) (λ x. hex_digit b >>= λ y. some (x * 16 + y)) h in
    let (y, ey, h2) = >>=-eq-some (hex_digit b) (λ y. some (x * 16 + y)) h1 in
    let q : x * 16 + y ≡ n = cc h2 in omega (arith, hex_digit-lt a ex, hex_digit-lt b ey)
hex_pair-lt [] h = cc
hex_pair-lt (a ∷ []) h = cc
hex_pair-lt (a ∷ b ∷ c ∷ p) h = cc

pairs-IsByte : (ps : List Text) {xs : List ℕ} → pairs ps ≡ some xs → All IsByte xs
unfolding pairs
pairs-IsByte [] {xs} h = let e : [] ≡ xs = cc in subst (All IsByte) e tt
pairs-IsByte (p ∷ ps) {xs} h =
    let (x, ex, h1) = >>=-eq-some (hex_pair p) (λ x. pairs ps >>= λ xs. some (x ∷ xs)) h in
    let (ys, ey, h2) = >>=-eq-some (pairs ps) (λ xs. some (x ∷ xs)) h1 in
    let e : x ∷ ys ≡ xs = cc h2 in subst (All IsByte) e (hex_pair-lt p ex, pairs-IsByte ps ey)

quads-IsByte : (ps : List Text) {xs : List ℕ} → quads ps ≡ some xs → All IsByte xs
unfolding quads
quads-IsByte [] {xs} h = let e : [] ≡ xs = cc in subst (All IsByte) e tt
quads-IsByte ((a ∷ b ∷ c ∷ d ∷ []) ∷ ps) {xs} h =
    let (x, ex, h1) =
      >>=-eq-some (hex_pair (a ∷ b ∷ []))
        (λ x. hex_pair (c ∷ d ∷ []) >>= λ y. quads ps >>= λ xs. some (x ∷ y ∷ xs)) h in
    let (y, ey, h2) =
      >>=-eq-some (hex_pair (c ∷ d ∷ [])) (λ y. quads ps >>= λ xs. some (x ∷ y ∷ xs)) h1 in
    let (ys, eys, h3) = >>=-eq-some (quads ps) (λ xs. some (x ∷ y ∷ xs)) h2 in
    let e : x ∷ y ∷ ys ≡ xs = cc h3 in
    subst (All IsByte) e
      (hex_pair-lt (a ∷ b ∷ []) ex, (hex_pair-lt (c ∷ d ∷ []) ey, quads-IsByte ps eys))
quads-IsByte ([] ∷ ps) h = cc
quads-IsByte ((a ∷ []) ∷ ps) h = cc
quads-IsByte ((a ∷ b ∷ []) ∷ ps) h = cc
quads-IsByte ((a ∷ b ∷ c ∷ []) ∷ ps) h = cc
quads-IsByte ((a ∷ b ∷ c ∷ d ∷ e ∷ p) ∷ ps) h = cc

mac_length-eq : (o : Option (List ℕ)) {xs : List ℕ} → (o >>= mac_length) ≡ some xs → o ≡ some xs
mac_length-eq none h = cc
mac_length-eq (some ys) h = ground arith

parse_mac-IsByte : (s : Text) {xs : List ℕ} → parse_mac s ≡ some xs → All IsByte xs
unfolding parse_mac
parse_mac-IsByte s h = elim (Bool-cases (has_at s 2 b':')) [
  | inl e ↦ pairs-IsByte (split b':' s) (mac_length-eq (pairs (split b':' s)) (rw e at h))
  | inr e ↦ elim (Bool-cases (has_at s 2 b'-')) [
    | inl f ↦ pairs-IsByte (split b'-' s) (mac_length-eq (pairs (split b'-' s)) (rw (e, f) at h))
    | inr f ↦ elim (Bool-cases (has_at s 4 b'.')) [
      | inl g ↦
          quads-IsByte (split b'.' s) (mac_length-eq (quads (split b'.' s)) (rw (e, f, g) at h))
      | inr g ↦ cc (rw (e, f, g) at h)
    ]
  ]
]

analyze-mac_text :
    (a b c d e f : ℕ)
    → All IsByte (a ∷ b ∷ c ∷ d ∷ e ∷ f ∷ [])
    → analyze (mac_text (a ∷ b ∷ c ∷ d ∷ e ∷ f ∷ [])) ≡ analyze_bytes (a ∷ b ∷ c ∷ d ∷ e ∷ f ∷ [])
unfolding analyze
analyze-mac_text a b c d e f h =
    let xs : List ℕ = a ∷ b ∷ c ∷ d ∷ e ∷ f ∷ [] in
    ap (λ s. analyze_parsed (parse_mac s))
      (trim_space-NoSpace (mac_text xs) (mac_text-NoSpace xs h))
    ∙ ap analyze_parsed (parse_mac-mac_text a b c d e f h)

analyze_bytes-address :
    (xs : List ℕ) {r : Analysis}
    → All IsByte xs
    → analyze_bytes xs ≡ ok r
    → analyze r.address ≡ ok r
unfolding analyze_bytes
analyze_bytes-address (a ∷ b ∷ c ∷ d ∷ e ∷ f ∷ []) {r} h q =
    let at : r.address ≡ mac_text (a ∷ b ∷ c ∷ d ∷ e ∷ f ∷ []) = cc q in
    ap analyze at ∙ analyze-mac_text a b c d e f h ∙ q
analyze_bytes-address _ h q = cc

-- The address that an analysis reports is canonical: it has the same analysis again.
pub analyze-address :
    (value : Text) {r : Analysis} → analyze value ≡ ok r → analyze r.address ≡ ok r
unfolding analyze
analyze-address value h = elim (Option-cases (parse_mac (trim_space value))) [
  | inl e ↦ cc (rw e at h)
  | inr (xs, e) ↦ analyze_bytes-address xs (parse_mac-IsByte (trim_space value) e) (rw e at h)
]
