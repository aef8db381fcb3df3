-- ===== src/Names/ReplyLaws.antt =====
-- The readers of NetBIOS and multicast DNS answers end on every packet and read no byte outside.
use light_ipam.Base.{
  ℕ, zero, suc, ◌+◌, ◌-◌, ◌<◌, ◌≤◌, false, ◌&&◌, List, [], ◌∷◌, Text, length, is_empty, take, drop,
  ltb, leb, ◌==◌, ◌≡◌, ◌≢◌, inl, inr, refl, ap, arith, Bool-cases,
}
use light_ipam.Names.{Reading, Returns, >>=-Returns, byte_at_lem, word_at_lem, slice_lem}
use light_ipam.Names.Dns.{skip_name, read_dns_name}
use light_ipam.Names.DnsLaws.{Inside, skip_name-Returns}
use light_ipam.Names.ReadLaws.{EndsAs, read_dns_name-Returns}
use light_ipam.Names.Netbios.{
  Station, note_entry, read_entries, named, read_count, parse_nbstat_response,
}
use light_ipam.Names.Mdns.{
  question_end, skip_questions, ptr_target, read_rdata, read_record, or_else, read_answers,
  read_sections, parse_mdns_ptr_response,
}

-- Nothing but that it returns.
abbrev Any {ℓ} : {A : Type ℓ} → A → Type 0
Any a = Unit {0}

length-take : (n : ℕ) (xs : List ℕ) → n ≤ length xs → length (take n xs) ≡ n
length-take zero xs h = refl
length-take (suc n) [] h = absurd (omega arith)
length-take (suc n) (x ∷ xs) h = ap suc (length-take n xs (omega arith))

length-drop : (n : ℕ) (xs : List ℕ) → length (drop n xs) ≡ length xs - n
length-drop zero xs = omega arith
length-drop (suc n) [] = omega arith
length-drop (suc n) (x ∷ xs) = omega (arith, length-drop n xs)

note_entry-Returns :
    (st : Station) (entry : List ℕ) → 18 ≤ length entry → Returns Any (note_entry st entry)
unfolding note_entry
note_entry-Returns st entry h =
    let (suffix, at_suffix) = byte_at_lem entry 15 (omega arith) in
    let (flags, at_flags) = word_at_lem entry 16 (omega arith) in
    rw (slice_lem entry 0 15 (omega arith) (omega arith), at_suffix, at_flags) tt

read_entries-Returns :
    (n : ℕ) (resp : List ℕ) (pos : ℕ) (st : Station) → Returns Any (read_entries n resp pos st)
unfolding read_entries
read_entries-Returns zero resp pos st = tt
read_entries-Returns (suc n) resp pos st = elim (Bool-cases (ltb (length resp) (pos + 18))) [
  | inl past ↦ rw past tt
  | inr inside ↦
      let le : pos + 18 ≤ length resp = ground arith in
      let entry = take (pos + 18 - pos) (drop pos resp) in
      let eighteen : 18 ≤ length entry = omega (
        arith,
        length-take (pos + 18 - pos) (drop pos resp) (omega (arith, length-drop pos resp)),
      ) in
      rw (inside, slice_lem resp pos (pos + 18) (omega arith) le)
        (>>=-Returns Any Any (note_entry st entry) (read_entries n resp (pos + 18))
          (note_entry-Returns st entry eighteen)
          (λ st' _. read_entries-Returns n resp (pos + 18) st'))
]

-- A name is known.
abbrev pub Named : Station → Type 0
Named st = is_empty st.name && is_empty st.group ≡ false

named-Returns : (st : Station) → Returns Named (named st)
named-Returns st = elim (Bool-cases (is_empty st.name && is_empty st.group)) [
  | inl e ↦ rw e tt
  | inr e ↦ rw e e
]

read_count-Returns : (resp : List ℕ) (pos : ℕ) → Returns Named (read_count resp pos)
unfolding read_count
read_count-Returns resp pos = elim (Bool-cases (leb (length resp) pos)) [
  | inl past ↦ rw past tt
  | inr inside ↦
      let h : pos < length resp = ground arith in
      let (count, at) = byte_at_lem resp pos h in
      rw (inside, at)
        (>>=-Returns Any Named (read_entries count resp (pos + 1) _) named
          (read_entries-Returns count resp (pos + 1) _) (λ st _. named-Returns st))
]

-- `parseNBStatResponse` ends on every answer and reads no byte outside of it, and what it gives
-- names the machine or its workgroup.
pub parse_nbstat_response-Returns : (resp : List ℕ) → Returns Named (parse_nbstat_response resp)
unfolding parse_nbstat_response
parse_nbstat_response-Returns resp = elim (Bool-cases (ltb (length resp) 13)) [
  | inl short ↦ rw short tt
  | inr long ↦ rw long (
      >>=-Returns (Inside resp) Named (skip_name resp 12) (λ pos. read_count resp (pos + 10))
        (skip_name-Returns resp 12) (λ pos _. read_count-Returns resp (pos + 10)))
]

question_end-Returns : (resp : List ℕ) (pos : ℕ) → Returns Any (question_end resp pos)
unfolding question_end
question_end-Returns resp pos = ground arith

skip_questions-Returns :
    (qd : ℕ) (resp : List ℕ) (pos : ℕ) → Returns Any (skip_questions qd resp pos)
unfolding skip_questions
skip_questions-Returns zero resp pos = tt
skip_questions-Returns (suc qd) resp pos =
    >>=-Returns (Inside resp) Any (skip_name resp pos) _ (skip_name-Returns resp pos) (λ end _.
      >>=-Returns Any Any (question_end resp end) (skip_questions qd resp)
        (question_end-Returns resp end) (λ next _. skip_questions-Returns qd resp next))

ptr_target-Returns :
    (resp : List ℕ) (rr_type start : ℕ) → Returns Any (ptr_target resp rr_type start)
unfolding ptr_target
ptr_target-Returns resp rr_type start = elim (Bool-cases (rr_type == 0x0c)) [
  | inl ptr ↦ rw ptr (
      >>=-Returns (EndsAs resp start) Any (read_dns_name resp start) _
        (read_dns_name-Returns resp start) (λ r _. tt))
  | inr other ↦ rw other tt
]

read_rdata-Returns :
    (resp : List ℕ) (start rr_type rdlen : ℕ) → Returns Any (read_rdata resp start rr_type rdlen)
unfolding read_rdata
read_rdata-Returns resp start rr_type rdlen =
    elim (Bool-cases (ltb (length resp) (start + rdlen))) [
      | inl past ↦ rw past tt
      | inr inside ↦ rw inside (
          >>=-Returns Any Any (ptr_target resp rr_type start) _
            (ptr_target-Returns resp rr_type start) (λ t _. tt))
    ]

read_record-Returns : (resp : List ℕ) (pos : ℕ) → Returns Any (read_record resp pos)
unfolding read_record
read_record-Returns resp pos = elim (Bool-cases (ltb (length resp) (pos + 10))) [
  | inl past ↦ rw past tt
  | inr inside ↦
      let le : pos + 10 ≤ length resp = ground arith in
      let (rr_type, at_type) = word_at_lem resp pos (omega arith) in
      let (rdlen, at_len) = word_at_lem resp (pos + 8) (omega arith) in
      rw (inside, at_type, at_len) (read_rdata-Returns resp (pos + 10) rr_type rdlen)
]

or_else-Returns :
    (target : Text) (later : Reading Text)
    → Returns (λ t. t ≢ []) later
    → Returns (λ t. t ≢ []) (or_else target later)
or_else-Returns [] later h = h
or_else-Returns (c ∷ target) later h = λ e. cc

read_answers-Returns :
    (an : ℕ) (resp : List ℕ) (pos : ℕ) → Returns (λ t. t ≢ []) (read_answers an resp pos)
unfolding read_answers
read_answers-Returns zero resp pos = tt
read_answers-Returns (suc an) resp pos =
    >>=-Returns (Inside resp) (λ t. t ≢ []) (skip_name resp pos) _ (skip_name-Returns resp pos)
      (λ end _.
        >>=-Returns Any (λ t. t ≢ []) (read_record resp end) _ (read_record-Returns resp end)
          (λ r _.
            or_else-Returns r.0 (read_answers an resp r.1) (read_answers-Returns an resp r.1)))

-- `parseMDNSPTRResponse` ends on every answer and reads no byte outside of it, and a name that it
-- gives is not empty.
pub parse_mdns_ptr_response-Returns :
    (resp : List ℕ) → Returns (λ name. name ≢ []) (parse_mdns_ptr_response resp)
unfolding parse_mdns_ptr_response
parse_mdns_ptr_response-Returns resp = elim (Bool-cases (ltb (length resp) 12)) [
  | inl short ↦ rw short tt
  | inr long ↦
      let h : 12 ≤ length resp = ground arith in
      let (qd, at_qd) = word_at_lem resp 4 (omega arith) in
      let (an, at_an) = word_at_lem resp 6 (omega arith) in rw (long, at_qd, at_an) (sections qd an)
]
  where
    sections : (qd an : ℕ) → Returns (λ name. name ≢ []) (read_sections resp qd an)
    sections qd an = elim (Bool-cases (an == 0)) [
      | inl z ↦ rw z tt
      | inr nz ↦ rw nz (
          >>=-Returns Any (λ t. t ≢ []) (skip_questions qd resp 12) (read_answers an resp)
            (skip_questions-Returns qd resp 12) (λ pos _. read_answers-Returns an resp pos))
    ]
