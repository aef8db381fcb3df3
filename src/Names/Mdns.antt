-- ===== src/Names/Mdns.antt =====
-- internal/scanner/agent/names.go: the multicast DNS reverse query and the reading of its answer.
use light_ipam.Base.{
  ℕ, zero, suc, ◌+◌, ◌/◌, ◌%◌, ◌^◌, List, [], ◌∷◌, ◌++◌, some, Text, codes, length, join,
  trim_suffix, ltb, ◌==◌, if◌then◌else◌,
}
use light_ipam.Netip.{v4}
use light_ipam.Netip.Parse.{parse_addr}
use light_ipam.Names.{
  mdns_short, no_answers, question_truncated, answer_truncated, rdata_truncated, no_ptr, not_ipv4,
  Reading, ok, fail, ◌>>=◌, word_at,
}
use light_ipam.Names.Dns.{skip_name, read_dns_name, append_dns_name}

-- `%d` of a byte.
abbrev digit : ℕ → ℕ
digit n = b'0' + n % 10

unfoldable pub show_octet : ℕ → Text
show_octet n =
    if ltb n 10
    then digit n ∷ []
    else if ltb n 100
    then digit (n / 10) ∷ digit n ∷ []
    else digit (n / 100) ∷ digit (n / 10) ∷ digit n ∷ []

-- The name that asks for the address with this value.
unfoldable pub reverse_name : ℕ → Text
unfolding join show_octet
reverse_name n = join b'.' (
    show_octet (n % 256)
    ∷ show_octet (n / 2 ^ 8 % 256)
    ∷ show_octet (n / 2 ^ 16 % 256)
    ∷ show_octet (n / 2 ^ 24 % 256)
    ∷ codes "in-addr"
    ∷ codes "arpa"
    ∷ [])

unfoldable pub reverse_query : ℕ → List ℕ
unfolding append_dns_name reverse_name
reverse_query n =
    append_dns_name (0 ∷ 0 ∷ 0 ∷ 0 ∷ 0 ∷ 1 ∷ 0 ∷ 0 ∷ 0 ∷ 0 ∷ 0 ∷ 0 ∷ []) (reverse_name n)
    ++ (0 ∷ 0x0c ∷ 0x80 ∷ 1 ∷ [])

-- `mdnsReverseRequest`.
unfoldable pub mdns_reverse_request : Text → Reading (List ℕ)
unfolding parse_addr reverse_query
mdns_reverse_request ip = elim (parse_addr ip) [
  | some (v4 n) ↦ ok (reverse_query n)
  | _ ↦ fail not_ipv4
]

-- The loop over the questions; the result is the position of the answers.
unfoldable pub question_end : List ℕ → ℕ → Reading ℕ
question_end resp pos =
    if ltb (length resp) (pos + 4) then fail question_truncated else ok (pos + 4)

unfoldable pub skip_questions : ℕ → List ℕ → ℕ → Reading ℕ
unfolding skip_name question_end
skip_questions zero resp pos = ok pos
skip_questions (suc qd) resp pos = do
  end ← skip_name resp pos
  next ← question_end resp end
  skip_questions qd resp next

-- The target of a record that is a PTR record, without the dot at its end; empty for another.
abbrev trimmed : Text × ℕ → Reading Text
trimmed (name, end) = ok (trim_suffix name (codes "."))

unfoldable pub ptr_target : List ℕ → ℕ → ℕ → Reading Text
unfolding read_dns_name trim_suffix
ptr_target resp rr_type rdata_start =
    if rr_type == 0x0c then read_dns_name resp rdata_start >>= trimmed else ok []

abbrev and_end : ℕ → Text → Reading (Text × ℕ)
and_end end target = ok (target, end)

unfoldable pub read_rdata : List ℕ → ℕ → ℕ → ℕ → Reading (Text × ℕ)
unfolding ptr_target
read_rdata resp rdata_start rr_type rdlen =
    if ltb (length resp) (rdata_start + rdlen)
    then fail rdata_truncated
    else ptr_target resp rr_type rdata_start >>= and_end (rdata_start + rdlen)

-- A record behind its name: its target, empty if it gives none, and the position behind it.
abbrev read_fields : List ℕ → ℕ → Reading (Text × ℕ)
read_fields resp pos = do
  rr_type ← word_at resp pos
  rdlen ← word_at resp (pos + 8)
  read_rdata resp (pos + 10) rr_type rdlen

unfoldable pub read_record : List ℕ → ℕ → Reading (Text × ℕ)
unfolding word_at read_rdata
read_record resp pos =
    if ltb (length resp) (pos + 10) then fail answer_truncated else read_fields resp pos

abbrev pub or_else : Text → Reading Text → Reading Text
or_else [] later = later
or_else (c ∷ target) later = ok (c ∷ target)

-- The loop over the answers, up to the first target.
unfoldable pub read_answers : ℕ → List ℕ → ℕ → Reading Text
unfolding skip_name read_record
read_answers zero resp pos = fail no_ptr
read_answers (suc an) resp pos = do
  end ← skip_name resp pos
  (target, next) ← read_record resp end
  or_else target (read_answers an resp next)

abbrev pub read_sections : List ℕ → ℕ → ℕ → Reading Text
read_sections resp qd an =
    if an == 0 then fail no_answers else skip_questions qd resp 12 >>= read_answers an resp

abbrev read_header : List ℕ → Reading Text
read_header resp = do qd ← word_at resp 4; an ← word_at resp 6; read_sections resp qd an

-- `parseMDNSPTRResponse`.
unfoldable pub parse_mdns_ptr_response : List ℕ → Reading Text
unfolding word_at skip_questions read_answers
parse_mdns_ptr_response resp = if ltb (length resp) 12 then fail mdns_short else read_header resp
