-- ===== src/Dhcp/Blocks.antt =====
-- Which leases `parseISCLeases` reports: those of the active blocks of the file.
use mathlib.Core.List.{foldl, foldl-append}
use light_ipam.Base.{
  ℕ, Bool, true, false, List, [], ◌∷◌, ◌++◌, Option, none, some, Text, codes, any, same, same-eq,
  trim_suffix, has_prefix, is_empty, if◌then◌else◌, ◌≡◌, ◌≢◌, inl, inr, refl, sym, ap, ◌∙◌, arith,
  Bool-cases, All, append_assoc,
}
use light_ipam.Dhcp.{Lease, Clock}
use light_ipam.Dhcp.Isc.{
  Block, statement, ends_at, parse_isc_time, parse_isc_lease_line, IscScan, opens, opened, closes,
  isc_line,
}
use light_ipam.Dhcp.Lines.{nonempty}

-- A line inside of a block.
abbrev pub Plain : Text → Type 0
Plain line = (opens line ≡ false) × (closes line ≡ false)

pub none-some : {A : Type 0} {a : A} → none ≡ some a → ⊥
none-some h = cc

closes-eq : (line : Text) → closes line ≡ true → line ≡ codes "}"
unfolding closes
closes-eq line h = same-eq line (codes "}") h

unfoldable pub says_active : Text → Bool
unfolding same trim_suffix
says_active line = same (trim_suffix line (codes ";")) (codes "binding state active")

-- The lines have a block of the lease: an opening line, lines that neither open nor close a block
-- and one of which says that the binding is active, and a closing line; the lease has an address and
-- is what the statements make of the opening line's. What follows the block is `after`.
pub record IsBlockOf (clock : Clock) (lines after : List Text) (l : Lease) : Type 0 where
  pub before : List Text
  pub opening : Text
  pub body : List Text
  pub split : lines ≡ before ++ (opening ∷ (body ++ (codes "}" ∷ after)))
  pub is_open : opens opening ≡ true
  pub plain : All Plain body
  pub active : any says_active body ≡ true
  pub lease : (foldl (parse_isc_lease_line clock) (opened opening) body).cur ≡ l
  pub named : l.ip ≢ []

-- The lines read so far end in an open block, with the lease under construction.
pub record IsOpenAt (clock : Clock) (done : List Text) (b : Block) : Type 0 where
  pub before : List Text
  pub opening : Text
  pub body : List Text
  pub split : done ≡ before ++ (opening ∷ body)
  pub is_open : opens opening ≡ true
  pub plain : All Plain body
  pub built : foldl (parse_isc_lease_line clock) (opened opening) body ≡ b

abbrev pub Tracks : Clock → List Text → IscScan → Type 0
Tracks clock done s = s.in_block ≡ true → IsOpenAt clock done s.block

or-true : (a : Bool) → (if a then true else true) ≡ true
or-true true = refl
or-true false = refl

or-false : (a : Bool) → a ≡ (if a then true else false)
or-false true = refl
or-false false = refl

ends_at-active : (b : Block) (o : Option ℕ) → (ends_at b o).active ≡ b.active
ends_at-active b none = refl
ends_at-active b (some t) = refl

statement-active :
    (clock : Clock) (b : Block) (stmt : Text)
    → (statement clock b stmt).active
      ≡ (if b.active then true else same stmt (codes "binding state active"))
unfolding statement
statement-active clock b stmt = elim (Bool-cases (same stmt (codes "binding state active"))) [
  | inl e ↦ rw e (sym (or-true b.active))
  | inr e ↦ elim (Bool-cases (has_prefix stmt (codes "hardware ethernet "))) [
    | inl f ↦ rw (e, f) (or-false b.active)
    | inr f ↦ elim (Bool-cases (has_prefix stmt (codes "client-hostname "))) [
      | inl g ↦ rw (e, f, g) (or-false b.active)
      | inr g ↦ elim (Bool-cases (has_prefix stmt (codes "ends "))) [
        | inl k ↦ rw (e, f, g, k) (ends_at-active b (parse_isc_time clock stmt) ∙ or-false b.active)
        | inr k ↦ rw (e, f, g, k) (or-false b.active)
      ]
    ]
  ]
]

parse_isc_lease_line-active :
    (clock : Clock) (b : Block) (line : Text)
    → (parse_isc_lease_line clock b line).active ≡ (if b.active then true else says_active line)
unfolding parse_isc_lease_line says_active
parse_isc_lease_line-active clock b line = statement-active clock b (trim_suffix line (codes ";"))

foldl-active :
    (clock : Clock) (b : Block) (body : List Text)
    → (foldl (parse_isc_lease_line clock) b body).active
      ≡ (if b.active then true else any says_active body)
unfolding any
foldl-active clock b [] = ground arith
foldl-active clock b (line ∷ body) =
    foldl-active clock (parse_isc_lease_line clock b line) body
    ∙ ground (arith, parse_isc_lease_line-active clock b line)

All-append : {A : Type 0} (P : A → Type 0) (xs ys : List A) → All P xs → All P ys → All P (xs ++ ys)
All-append P [] ys h k = k
All-append P (x ∷ xs) ys (h, hs) k = (h, All-append P xs ys hs k)

pub isc_line-Tracks :
    (clock : Clock) (done : List Text) (s : IscScan) (line : Text)
    → Tracks clock done s
    → Tracks clock (done ++ line ∷ []) (isc_line clock s line)
unfolding isc_line
isc_line-Tracks clock done s line h = elim (Bool-cases (opens line)) [
  | inl o ↦ rw o (λ _. record {
    before = done;
    opening = line;
    body = [];
    split = refl;
    is_open = o;
    plain = tt;
    built = refl;
  })
  | inr p ↦ elim (Bool-cases (closes line)) [
    | inl c ↦ elim (Bool-cases s.in_block) [
      | inl inside ↦ rw (p, c, inside) (λ e. cc)
      | inr out ↦ rw (p, c, out) (λ e. cc)
    ]
    | inr d ↦ elim (Bool-cases s.in_block) [
      | inl inside ↦ rw (p, d, inside) (λ _. extended (h inside) p d)
      | inr out ↦ rw (p, d, out) (λ e. cc)
    ]
  ]
]
  where
    extended :
        IsOpenAt clock done s.block
        → opens line ≡ false
        → closes line ≡ false
        → IsOpenAt clock (done ++ line ∷ []) (parse_isc_lease_line clock s.block line)
    extended o p d = record {
      before = o.before;
      opening = o.opening;
      body = o.body ++ line ∷ [];
      split =
          ap (λ t. t ++ line ∷ []) o.split ∙ append_assoc o.before (o.opening ∷ o.body) (line ∷ []);
      is_open = o.is_open;
      plain = All-append Plain o.body (line ∷ []) o.plain ((p, d), tt);
      built =
          foldl-append (parse_isc_lease_line clock) (opened o.opening) o.body (line ∷ [])
          ∙ ap (λ b. parse_isc_lease_line clock b line) o.built;
    }

pub opened-active :
    (clock : Clock) (opening : Text) (body : List Text)
    → (foldl (parse_isc_lease_line clock) (opened opening) body).active ≡ any says_active body
unfolding opened
opened-active clock opening body = foldl-active clock (opened opening) body

pub closed-IsBlockOf :
    (clock : Clock) (done : List Text) (b : Block) (line : Text) (lines : List Text)
    → IsOpenAt clock done b
    → closes line ≡ true
    → b.active ≡ true
    → is_empty b.cur.ip ≡ false
    → IsBlockOf clock (done ++ (line ∷ lines)) lines b.cur
closed-IsBlockOf clock done b line lines o is_close on given = record {
  before = o.before;
  opening = o.opening;
  body = o.body;
  split =
      ap (λ t. t ++ (line ∷ lines)) o.split
      ∙ append_assoc o.before (o.opening ∷ o.body) (line ∷ lines)
      ∙ ap (λ t. o.before ++ (o.opening ∷ (o.body ++ (t ∷ lines)))) (closes-eq line is_close);
  is_open = o.is_open;
  plain = o.plain;
  active = sym (opened-active clock o.opening o.body) ∙ ap (λ b. b.active) o.built ∙ on;
  lease = ap (λ b. b.cur) o.built;
  named = nonempty b.cur.ip given;
}
