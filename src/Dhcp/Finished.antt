-- ===== src/Dhcp/Finished.antt =====
-- The leases that the blocks of an ISC file finish are the ones that `parseISCLeases` keeps.
use light_ipam.Base.{
  not, ◌&&◌, List, [], ◌∷◌, Option, none, some, Text, map, trim_space, is_empty, if◌then◌else◌, ◌≡◌,
  inl, inr, refl, ap, ◌∙◌, arith, Bool-cases,
}
use light_ipam.Dhcp.{Lease, Clock, keep_some}
use light_ipam.Dhcp.Isc.{IscScan, opens, closes, close_block, isc_line, isc_lines}
use light_ipam.Dhcp.Book.{keep_all}
use light_ipam.Dhcp.Lines.{
  and_more, and_more-Named, keep_some-keep_all, Named, MaybeNamed, nonempty,
}

-- The lease that a line of an ISC file finishes.
unfoldable pub finished : IscScan → Text → Option Lease
unfolding opens closes
finished s line =
    if not (opens line)
      && (closes line && s.in_block)
      && (s.block.active && not (is_empty s.block.cur.ip))
    then some s.block.cur
    else none

-- The leases that the blocks of an ISC file finish, in the order of the file.
unfoldable pub blocks_leases : Clock → IscScan → List Text → List Lease
unfolding finished isc_line
blocks_leases clock s [] = []
blocks_leases clock s (line ∷ lines) =
    and_more (finished s line) (blocks_leases clock (isc_line clock s line) lines)

isc_line-finished :
    (clock : Clock) (s : IscScan) (line : Text)
    → (isc_line clock s line).kept ≡ keep_some s.kept (finished s line)
unfolding isc_line finished close_block
isc_line-finished clock s line = ground arith

finished-Named : (s : IscScan) (line : Text) → MaybeNamed (finished s line)
unfolding finished
finished-Named s line =
    elim (Bool-cases (
      not (opens line)
      && (closes line && s.in_block)
      && (s.block.active && not (is_empty s.block.cur.ip)))) [
        | inl e ↦ rw e (nonempty s.block.cur.ip (ground (arith, e)))
        | inr e ↦ rw e tt
      ]

pub blocks_leases-Named :
    (clock : Clock) (s : IscScan) (lines : List Text) → Named (blocks_leases clock s lines)
unfolding blocks_leases
blocks_leases-Named clock s [] = tt
blocks_leases-Named clock s (line ∷ lines) =
    and_more-Named (finished s line) (blocks_leases clock (isc_line clock s line) lines)
      (finished-Named s line) (blocks_leases-Named clock (isc_line clock s line) lines)

pub isc_lines-keep_all :
    (clock : Clock) (s : IscScan) (lines : List Text)
    → (isc_lines clock s lines).kept
      ≡ keep_all s.kept (blocks_leases clock s (map trim_space lines))
unfolding isc_lines blocks_leases keep_all
isc_lines-keep_all clock s [] = refl
isc_lines-keep_all clock s (line ∷ lines) =
    let next = isc_line clock s (trim_space line) in
    let later = blocks_leases clock next (map trim_space lines) in
    isc_lines-keep_all clock next lines
    ∙ ap (λ kept. keep_all kept later) (isc_line-finished clock s (trim_space line))
    ∙ keep_some-keep_all s.kept (finished s (trim_space line)) later
