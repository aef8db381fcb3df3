-- ===== src/Dhcp/Active.antt =====
-- `parseISCLeases` (internal/scanner/agent/dhcp.go) reports the last active block of each address.
use mathlib.Core.List.{foldl}
use mathlib.Core.Option.{some-injective}
use light_ipam.Base.{
  true, false, not, ◌&&◌, List, [], ◌∷◌, ◌++◌, Option, none, some, Text, codes, map, same,
  same_refl, trim_space, has_prefix, is_empty, ◌≡◌, ◌≢◌, ◌↔◌, inl, inr, refl, sym, ap, subst, ◌∙◌,
  arith, Bool-cases, Option-cases, In, All, append_assoc, is_empty-eq,
}
use light_ipam.Combined.Hosts.{IsHostList}
use light_ipam.Dhcp.{Lease, Clock, scan_lines}
use light_ipam.Dhcp.Isc.{
  Block, parse_isc_lease_line, IscScan, opens, opened, closes, isc_line, outside, parse_isc_leases,
}
use light_ipam.Dhcp.Book.{last_for, last_for-ip, IsLatest, collect_leases-IsLatest}
use light_ipam.Dhcp.Lines.{and_more}
use light_ipam.Dhcp.Finished.{finished, blocks_leases, isc_lines-keep_all, blocks_leases-Named}
use light_ipam.Dhcp.Blocks.{
  Plain, IsBlockOf, Tracks, isc_line-Tracks, closed-IsBlockOf, opened-active, none-some,
}

-- The state after some lines.
abbrev after_lines : Clock → IscScan → List Text → IscScan
after_lines clock s lines = foldl (isc_line clock) s lines

in_block-open :
    (clock : Clock) (s : IscScan) (line : Text)
    → opens line ≡ true
    → ((isc_line clock s line).in_block ≡ true) × ((isc_line clock s line).block ≡ opened line)
unfolding isc_line
in_block-open clock s line o = (rw o refl, rw o refl)

read_one :
    (clock : Clock) (s : IscScan) (line : Text)
    → Plain line
    → s.in_block ≡ true
    → ((isc_line clock s line).in_block ≡ true)
      × ((isc_line clock s line).block ≡ parse_isc_lease_line clock s.block line)
      × (finished s line ≡ none)
unfolding isc_line finished
read_one clock s line (o, c) inside =
    (rw (o, c, inside) refl, rw (o, c, inside) refl, rw (o, c) refl)

finished-open : (s : IscScan) (line : Text) → opens line ≡ true → finished s line ≡ none
unfolding finished
finished-open s line o = rw o refl

finished-close :
    (s : IscScan) (b : Block)
    → s.in_block ≡ true
    → s.block ≡ b
    → b.active ≡ true
    → b.cur.ip ≢ []
    → finished s (codes "}") ≡ some b.cur
unfolding finished opens closes same has_prefix
finished-close s b inside e on named = elim (Bool-cases (is_empty b.cur.ip)) [
  | inl blank ↦ absurd (named (is_empty-eq b.cur.ip blank))
  | inr given ↦ rw (inside, e, on, given) refl
]

close-outside : (clock : Clock) (s : IscScan) → (isc_line clock s (codes "}")).in_block ≡ false
unfolding isc_line opens closes same has_prefix
close-outside clock s = elim (Bool-cases s.in_block) [ inl e ↦ rw e refl | inr e ↦ rw e refl ]

-- Plain lines of an open block leave it open, and are its statements.
read_body :
    (clock : Clock) (s : IscScan) (body : List Text)
    → All Plain body
    → s.in_block ≡ true
    → ((after_lines clock s body).in_block ≡ true)
      × ((after_lines clock s body).block ≡ foldl (parse_isc_lease_line clock) s.block body)
read_body clock s [] h inside = (inside, refl)
read_body clock s (line ∷ body) (h, hs) inside =
    let (still, block, _) = read_one clock s line h inside in
    let (open_after, built) = read_body clock (isc_line clock s line) body hs still in
    (open_after, built ∙ ap (λ b. foldl (parse_isc_lease_line clock) b body) block)

last_for-nil : (ip : Text) → last_for ip [] ≡ none
unfolding last_for
last_for-nil ip = refl

last_for-and_more :
    (ip : Text) (o : Option Lease) (leases : List Lease) (l : Lease)
    → last_for ip leases ≡ some l
    → last_for ip (and_more o leases) ≡ some l
unfolding last_for
last_for-and_more ip none leases l h = h
last_for-and_more ip (some x) leases l h = rw h refl

last_for-own :
    (ip : Text) (x : Lease) (leases : List Lease)
    → x.ip ≡ ip
    → last_for ip leases ≡ none
    → last_for ip (x ∷ leases) ≡ some x
unfolding last_for
last_for-own ip x leases own h = rw (h, own, same_refl ip) refl

-- The last lease of the later lines is the last one.
last_for-blocks_leases :
    (clock : Clock) (s : IscScan) (done lines : List Text) (ip : Text) (l : Lease)
    → last_for ip (blocks_leases clock (after_lines clock s done) lines) ≡ some l
    → last_for ip (blocks_leases clock s (done ++ lines)) ≡ some l
unfolding blocks_leases
last_for-blocks_leases clock s [] lines ip l h = h
last_for-blocks_leases clock s (line ∷ done) lines ip l h =
    last_for-and_more ip (finished s line) _ l
      (last_for-blocks_leases clock (isc_line clock s line) done lines ip l h)

-- A block of the file, from whatever state it is read: at its closing line it gives its lease, and
-- what follows it is read outside of a block.
module _ (clock : Clock) (s : IscScan) (lines after : List Text) (l : Lease)
    (b : IsBlockOf clock lines after l) where
  abbrev started : IscScan
  started = isc_line clock (after_lines clock s b.before) b.opening

  abbrev at_close : IscScan
  at_close = after_lines clock started b.body

  abbrev closed : IscScan
  closed = isc_line clock at_close (codes "}")

  at_close-finished : finished at_close (codes "}") ≡ some l
  at_close-finished =
      let (inside, fresh) =
        in_block-open clock (after_lines clock s b.before) b.opening b.is_open in
      let (still, built) = read_body clock started b.body b.plain inside in
      let made = built ∙ ap (λ x. foldl (parse_isc_lease_line clock) x b.body) fresh in
      finished-close at_close (foldl (parse_isc_lease_line clock) (opened b.opening) b.body) still
        made (opened-active clock b.opening b.body ∙ b.active)
        (λ e. b.named (ap (λ x. x.ip) (sym b.lease) ∙ e))
      ∙ ap some b.lease

  from_close :
      (x : Lease)
      → last_for l.ip (l ∷ blocks_leases clock closed after) ≡ some x
      → last_for l.ip (blocks_leases clock s lines) ≡ some x
  unfolding blocks_leases
  from_close x h =
      subst (λ t. last_for l.ip (blocks_leases clock s t) ≡ some x) (sym b.split)
        (last_for-blocks_leases clock s b.before _ l.ip x (
          last_for-and_more l.ip (finished (after_lines clock s b.before) b.opening) _ x (
            last_for-blocks_leases clock started b.body _ l.ip x (
              subst (λ o. last_for l.ip (and_more o (blocks_leases clock closed after)) ≡ some x)
                (sym at_close-finished) h))))

  closed-outside : closed.in_block ≡ false
  closed-outside = close-outside clock at_close

  block-last_for : (x : Lease) × (last_for l.ip (blocks_leases clock s lines) ≡ some x)
  block-last_for = elim (Option-cases (last_for l.ip (blocks_leases clock closed after))) [
    | inl nothing ↦ (l, from_close l (last_for-own l.ip l _ refl nothing))
    | inr (x, later) ↦ (x, from_close x (last_for-and_more l.ip (some l) _ x later))
  ]

-- No block of these lines has the address.
abbrev pub NoneFor : Clock → List Text → Text → Type 0
NoneFor clock lines ip = (after : List Text) (l : Lease) → IsBlockOf clock lines after l → l.ip ≢ ip

-- A block of the lease, and no later one of its address.
abbrev pub IsLastBlock : Clock → List Text → Lease → Type 0
IsLastBlock clock lines l =
    (after : List Text) × IsBlockOf clock lines after l × NoneFor clock after l.ip

finished-eq :
    (s : IscScan) (line : Text) (l : Lease)
    → finished s line ≡ some l
    → (s.in_block ≡ true)
      × (closes line ≡ true)
      × (s.block.active ≡ true)
      × (is_empty s.block.cur.ip ≡ false)
      × (s.block.cur ≡ l)
unfolding finished
finished-eq s line l f =
    elim (Bool-cases (
      not (opens line)
      && (closes line && s.in_block)
      && (s.block.active && not (is_empty s.block.cur.ip)))) [
        | inr e ↦ absurd (none-some (rw e at f))
        | inl e ↦ (
          ground (arith, e),
          ground (arith, e),
          ground (arith, e),
          ground (arith, e),
          some-injective _ _ (rw e at f),
        )
      ]

last_for-and_more-none :
    (ip : Text) (o : Option Lease) (leases : List Lease) (l : Lease)
    → last_for ip leases ≡ none
    → last_for ip (and_more o leases) ≡ some l
    → o ≡ some l
unfolding last_for
last_for-and_more-none ip none leases l none_later h = absurd (none-some (sym none_later ∙ h))
last_for-and_more-none ip (some x) leases l none_later h = elim (Bool-cases (same x.ip ip)) [
  | inl own ↦ rw (none_later, own) at h
  | inr other ↦ absurd (none-some (rw (none_later, other) at h))
]

last_for-IsLastBlock :
    (clock : Clock) (done : List Text) (s : IscScan) (lines : List Text) (ip : Text) (l : Lease)
    → Tracks clock done s
    → last_for ip (blocks_leases clock s lines) ≡ some l
    → (after : List Text) × IsBlockOf clock (done ++ lines) after l × NoneFor clock after ip
unfolding blocks_leases
last_for-IsLastBlock clock done s [] ip l h f = absurd (none-some (sym (last_for-nil ip) ∙ f))
last_for-IsLastBlock clock done s (line ∷ lines) ip l h f =
    let next = isc_line clock s line in
    elim (Option-cases (last_for ip (blocks_leases clock next lines))) [
      | inr (x, later) ↦
          let same_lease : x ≡ l =
            some-injective _ _ (sym (last_for-and_more ip (finished s line) _ x later) ∙ f) in
          let (after, b, none_for) =
            last_for-IsLastBlock clock (done ++ line ∷ []) next lines ip l
              (isc_line-Tracks clock done s line h) (later ∙ ap some same_lease) in
          (
            after,
            subst (λ t. IsBlockOf clock t after l) (append_assoc done (line ∷ []) lines) b,
            none_for,
          )
      | inl none_later ↦
          let (inside, is_close, on, given, own) =
            finished-eq s line l (last_for-and_more-none ip (finished s line) _ l none_later f) in
          (
            lines,
            subst (IsBlockOf clock (done ++ (line ∷ lines)) lines) own
                (closed-IsBlockOf clock done s.block line lines (h inside) is_close on given),
            λ after x b e.
                let (y, found) = block-last_for clock next lines after x b in
                none-some (
                  sym none_later
                  ∙ subst (λ t. last_for t (blocks_leases clock next lines) ≡ some y) e found),
          )
    ]

IsLastBlock-last_for :
    (clock : Clock) (s : IscScan) (lines : List Text) (l : Lease)
    → IsLastBlock clock lines l
    → last_for l.ip (blocks_leases clock s lines) ≡ some l
IsLastBlock-last_for clock s lines l (after, b, none_for) =
    let next = closed clock s lines after l b in
    elim (Option-cases (last_for l.ip (blocks_leases clock next after))) [
      | inl nothing ↦ from_close clock s lines after l b l (last_for-own l.ip l _ refl nothing)
      | inr (x, later) ↦
          let (after', b', _) =
            last_for-IsLastBlock clock [] next after l.ip x
              (λ e. absurd (cc (sym (closed-outside clock s lines after l b) ∙ e))) later in
          absurd (none_for after' x b' (last_for-ip l.ip (blocks_leases clock next after) x later))
    ]

-- What `parseISCLeases` reports of the trimmed lines of a file.
pub record IsActiveOf (clock : Clock) (lines : List Text) (result : List Lease) : Type 0 where
  pub once : IsHostList (map (λ l. l.ip) result)
  pub last_block : (l : Lease) → In l result ↔ IsLastBlock clock lines l

-- `parseISCLeases` reports each address once, none of them empty, and exactly the leases of the last
-- active blocks: a lease is reported if and only if it is that of a block, and no later block has
-- its address. A block is an opening line, lines that neither open nor close one, at least one of
-- which says that the binding is active, and a closing line; its lease is what the statements make of
-- the opening line's, and has an address.
pub parse_isc_leases-IsActiveOf :
    (clock : Clock) (contents : Text)
    → IsActiveOf clock (map trim_space (scan_lines contents)) (parse_isc_leases clock contents)
unfolding parse_isc_leases
parse_isc_leases-IsActiveOf clock contents =
    let lines = map trim_space (scan_lines contents) in
    let given = blocks_leases clock outside lines in
    let latest : IsLatest given (parse_isc_leases clock contents) =
      rw (isc_lines-keep_all clock outside (scan_lines contents))
        (collect_leases-IsLatest given (blocks_leases-Named clock outside lines)) in
    record {
      once = latest.once;
      last_block = λ l. (
        (λ m. last_for-IsLastBlock clock [] outside lines l.ip l (λ e. cc) ((latest.latest l).0 m)),
        (λ b. (latest.latest l).1 (IsLastBlock-last_for clock outside lines l b)),
      );
    }
