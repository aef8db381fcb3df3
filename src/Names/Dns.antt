-- ===== src/Names/Dns.antt =====
-- internal/scanner/agent/names.go: `skipName`, `readDNSName` and `appendDNSName`. A loop is a turn
-- and its repetition on fuel; Names/DnsLaws.antt shows that the fuel suffices.
use Prim.Native.Nat.{bit_and}
use light_ipam.Base.{
  ℕ, suc, ◌+◌, ◌*◌, ◌%◌, Bool, List, [], ◌∷◌, ◌++◌, Option, none, some, Text, length, is_empty,
  split, join, leb, ltb, ◌==◌, if◌then◌else◌,
}
use light_ipam.Names.{
  name_past_end, pointer_truncated, compression_loop, label_past_end, Reading, ok, fail, Turn, ends,
  goes_on, repeat, ◌>>=◌, byte_at, word_at, slice,
}

-- `n&0xc0 == 0xc0`.
unfoldable pub is_pointer : ℕ → Bool
is_pointer n = bit_and n 0xc0 == 0xc0

unfoldable pub skip_byte : List ℕ → ℕ → ℕ → Reading (Turn ℕ ℕ)
unfolding is_pointer
skip_byte buf pos n =
    if n == 0
    then ok (ends (pos + 1))
    else if is_pointer n
    then (if leb (length buf) (pos + 1) then fail pointer_truncated else ok (ends (pos + 2)))
    else ok (goes_on (pos + (1 + n)))

unfoldable pub skip_turn : List ℕ → ℕ → Reading (Turn ℕ ℕ)
unfolding byte_at skip_byte
skip_turn buf pos =
    if leb (length buf) pos then fail name_past_end else byte_at buf pos >>= skip_byte buf pos

-- `skipName`: each turn but the last advances, so the length of the packet bounds the turns.
unfoldable pub skip_name : List ℕ → ℕ → Reading ℕ
unfolding repeat skip_turn
skip_name buf pos = repeat (suc (length buf)) (skip_turn buf) pos

-- The variables of the loop of `readDNSName`; `next` is `none` for -1.
pub record ReadState : Type 0 where
  pub pos : ℕ
  pub labels : List Text
  pub next : Option ℕ
  pub hops : ℕ

abbrev pub ReadTurn : Type 0
ReadTurn = Turn (Text × ℕ) ReadState

abbrev pub or_next : Option ℕ → ℕ → ℕ
or_next none p = p
or_next (some n) p = n

abbrev pub pointed : ReadState → ℕ → Reading ReadTurn
pointed s w =
    if ltb 16 (s.hops + 1)
    then fail compression_loop
    else ok (
        goes_on record {
          pos = w % 0x4000;
          labels = s.labels;
          next = some (or_next s.next (s.pos + 2));
          hops = s.hops + 1;
        })

unfoldable pub follow_pointer : List ℕ → ReadState → Reading ReadTurn
unfolding word_at
follow_pointer buf s =
    if leb (length buf) (s.pos + 1) then fail pointer_truncated else word_at buf s.pos >>= pointed s

abbrev pub labelled : ReadState → ℕ → Text → Reading ReadTurn
labelled s n label =
    ok (goes_on (record s { pos = s.pos + 1 + n; labels = s.labels ++ label ∷ [] }))

unfoldable pub read_label : List ℕ → ReadState → ℕ → Reading ReadTurn
unfolding slice
read_label buf s n =
    if ltb (length buf) (s.pos + 1 + n)
    then fail label_past_end
    else slice buf (s.pos + 1) (s.pos + 1 + n) >>= labelled s n

unfoldable pub read_byte : List ℕ → ReadState → ℕ → Reading ReadTurn
unfolding join is_pointer follow_pointer read_label
read_byte buf s n =
    if n == 0
    then ok (ends (join b'.' s.labels, or_next s.next (s.pos + 1)))
    else if is_pointer n
    then follow_pointer buf s
    else read_label buf s n

unfoldable pub read_turn : List ℕ → ReadState → Reading ReadTurn
unfolding byte_at read_byte
read_turn buf s =
    if leb (length buf) s.pos then fail name_past_end else byte_at buf s.pos >>= read_byte buf s

-- `readDNSName`: at most sixteen pointers are followed, and between two the position advances.
unfoldable pub read_dns_name : List ℕ → ℕ → Reading (Text × ℕ)
unfolding repeat read_turn
read_dns_name buf pos =
    repeat (17 * (length buf + 2)) (read_turn buf)
      (record { pos = pos; labels = []; next = none; hops = 0 })

unfoldable pub append_labels : List ℕ → List Text → List ℕ
append_labels buf [] = buf
append_labels buf (label ∷ labels) =
    append_labels (if is_empty label then buf else buf ++ (length label % 256 ∷ label)) labels

-- `appendDNSName`.
unfoldable pub append_dns_name : List ℕ → Text → List ℕ
unfolding append_labels split
append_dns_name buf name = append_labels buf (split b'.' name) ++ 0 ∷ []
