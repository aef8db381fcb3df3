-- ===== src/Names/Netbios.antt =====
-- internal/scanner/agent/names.go: the NetBIOS node-status request and the reading of its answer.
use Prim.Native.Nat.{bit_and}
use light_ipam.Base.{
  ℕ, zero, suc, ◌+◌, ◌/◌, ◌%◌, Bool, not, ◌&&◌, ◌||◌, List, [], ◌∷◌, ◌++◌, Text, codes, length,
  replicate, is_empty, same, trim_right, ltb, leb, ◌==◌, if◌then◌else◌,
}
use light_ipam.Names.{
  netbios_short, netbios_truncated, no_netbios_names, Reading, ok, fail, ◌>>=◌, byte_at, word_at,
  slice,
}
use light_ipam.Names.Dns.{skip_name}

-- The sixteen bytes of a name: the wildcard, or fifteen with spaces at the end and a zero.
unfoldable pub pad : ℕ → Text → List ℕ
pad zero name = 0 ∷ []
pad (suc n) [] = b' ' ∷ pad n []
pad (suc n) (c ∷ name) = c ∷ pad n name

unfoldable pub half_ascii : List ℕ → List ℕ
half_ascii [] = []
half_ascii (b ∷ raw) = (b'A' + b / 16) ∷ (b'A' + b % 16) ∷ half_ascii raw

-- `encodeNetBIOSName`.
unfoldable pub encode_netbios_name : Text → List ℕ
unfolding pad half_ascii same
encode_netbios_name name =
    half_ascii (if same name (codes "*") then b'*' ∷ replicate 15 0 else pad 15 name)

-- `nbstatRequest`.
unfoldable pub nbstat_request : List ℕ
unfolding encode_netbios_name
nbstat_request =
    (0x4c ∷ 0x49 ∷ 0 ∷ 0 ∷ 0 ∷ 1 ∷ 0 ∷ 0 ∷ 0 ∷ 0 ∷ 0 ∷ 0 ∷ [])
    ++ (length (encode_netbios_name (codes "*")) % 256 ∷ encode_netbios_name (codes "*"))
    ++ (0 ∷ 0 ∷ 0x21 ∷ 0 ∷ 1 ∷ [])

-- The machine name and the workgroup, empty while they are not known.
pub record Station : Type 0 where
  pub name : Text
  pub group : Text

-- One entry of the answer: `suffix`, `flags` and the name with its padding trimmed.
unfoldable pub note_name : Station → ℕ → ℕ → Text → Station
note_name st suffix flags raw_name =
    if not (suffix == 0) || is_empty raw_name
    then st
    else if not (bit_and flags 0x8000 == 0)
    then (if is_empty st.group then record st { group = raw_name } else st)
    else if is_empty st.name
    then record st { name = raw_name }
    else st

abbrev pub is_padding : ℕ → Bool
is_padding c = c == b' ' || c == 0

unfoldable pub note_entry : Station → List ℕ → Reading Station
unfolding slice trim_right byte_at word_at note_name
note_entry st entry = do
  raw ← slice entry 0 15
  suffix ← byte_at entry 15
  flags ← word_at entry 16
  ok (note_name st suffix flags (trim_right is_padding raw))

-- The loop over the entries; a missing one ends it.
unfoldable pub read_entries : ℕ → List ℕ → ℕ → Station → Reading Station
unfolding slice note_entry
read_entries zero resp pos st = ok st
read_entries (suc n) resp pos st =
    if ltb (length resp) (pos + 18)
    then ok st
    else (slice resp pos (pos + 18) >>= note_entry st) >>= read_entries n resp (pos + 18)

abbrev pub named : Station → Reading Station
named st = if is_empty st.name && is_empty st.group then fail no_netbios_names else ok st

-- From the name count on.
unfoldable pub read_count : List ℕ → ℕ → Reading Station
unfolding byte_at read_entries
read_count resp pos = if leb (length resp) pos then fail netbios_truncated else do
  count ← byte_at resp pos
  st ← read_entries count resp (pos + 1) record { name = []; group = [] }
  named st

-- `parseNBStatResponse`.
unfoldable pub parse_nbstat_response : List ℕ → Reading Station
unfolding skip_name read_count
parse_nbstat_response resp =
    if ltb (length resp) 13
    then fail netbios_short
    else skip_name resp 12 >>= λ pos. read_count resp (pos + 10)
