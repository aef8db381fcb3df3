-- ===== src/Names/RoundTrip.antt =====
-- What `appendDNSName` writes, `readDNSName` reads back.
use light_ipam.Base.{
  ℕ, zero, suc, ◌+◌, ◌-◌, ◌*◌, ◌%◌, ◌<◌, ◌≤◌, false, not, List, [], ◌∷◌, ◌++◌, none, Text, length,
  join, leb, ltb, ◌==◌, ◌≡◌, refl, sym, ap, subst, ◌∙◌, arith, drop, All, Lacks, split-join,
  append_assoc, append-nil, length-append, drop-append, take-append, all_below, all_below-eq-true,
}
use light_ipam.Names.{ok, ends, goes_on, repeat, proceed, byte_at, slice, slice_lem}
use light_ipam.Names.Dns.{
  is_pointer, ReadState, read_label, read_byte, read_turn, read_dns_name, append_labels,
  append_dns_name,
}

byte_at-append :
    (done : List ℕ) (b : ℕ) (rest : List ℕ) → byte_at (done ++ (b ∷ rest)) (length done) ≡ ok b
unfolding byte_at
byte_at-append [] b rest = refl
byte_at-append (c ∷ done) b rest = byte_at-append done b rest

slice-append :
    (done : List ℕ) (n : ℕ) (label rest : List ℕ)
    → slice (done ++ (n ∷ label ++ rest)) (length done + 1) (length done + 1 + length label)
      ≡ ok label
slice-append done n label rest =
    let whole : (done ++ n ∷ []) ++ (label ++ rest) ≡ done ++ (n ∷ label ++ rest) =
      append_assoc done (n ∷ []) (label ++ rest) in
    let start : length (done ++ n ∷ []) ≡ length done + 1 = length-append done (n ∷ []) in
    let count : length done + 1 + length label - (length done + 1) ≡ length label = omega arith in
    let tail : drop (length done + 1) (done ++ (n ∷ label ++ rest)) ≡ label ++ rest =
      rw (sym whole, sym start) (drop-append (done ++ n ∷ []) (label ++ rest)) in
    slice_lem (done ++ (n ∷ label ++ rest)) (length done + 1) (length done + 1 + length label)
      (omega arith)
      (omega (arith, length-append done (n ∷ label ++ rest), length-append label rest))
    ∙ (rw (count, tail, take-append label rest) refl)

-- A label of a host name: what fits into the six bits of its length byte, and no dot.
abbrev pub Label : Text → Type 0
Label label = (0 < length label) × (length label < 64) × Lacks b'.' label

is_pointer-short : (n : ℕ) → n < 64 → is_pointer n ≡ false
unfolding is_pointer all_below
is_pointer-short n h = ground (arith, all_below-eq-true 64 (λ k. not (is_pointer k)) n refl h)

-- The reader between two labels of a name without pointers.
abbrev reading : ℕ → List Text → ReadState
reading pos labels = record { pos = pos; labels = labels; next = none; hops = 0 }

read_turn-part :
    (done label rest : List ℕ) (acc : List Text)
    → Label label
    → read_turn (done ++ (length label ∷ label ++ rest)) (reading (length done) acc)
      ≡ ok (goes_on (reading (length done + 1 + length label) (acc ++ label ∷ [])))
unfolding read_turn read_byte read_label
read_turn-part done label rest acc (pos, short, _) =
    let total : length (done ++ (length label ∷ label ++ rest))
        ≡ length done + (1 + (length label + length rest)) =
      omega (arith, length-append done (length label ∷ label ++ rest), length-append label rest) in
    let inside : leb (length (done ++ (length label ∷ label ++ rest))) (length done) ≡ false =
      ground arith in
    let fits : ltb (length (done ++ (length label ∷ label ++ rest)))
          (length done + 1 + length label)
        ≡ false =
      ground arith in
    let nonzero : length label == 0 ≡ false = ground arith in
    rw
      (
        inside,
        byte_at-append done (length label) (label ++ rest),
        nonzero,
        is_pointer-short (length label) short,
        fits,
        slice-append done (length label) label rest,
      )
      refl

read_turn-end :
    (done rest : List ℕ) (acc : List Text)
    → read_turn (done ++ (0 ∷ rest)) (reading (length done) acc)
      ≡ ok (ends (join b'.' acc, length done + 1))
unfolding read_turn read_byte
read_turn-end done rest acc =
    let inside : leb (length (done ++ (0 ∷ rest))) (length done) ≡ false =
      ground (arith, length-append done (0 ∷ rest)) in
    rw (inside, byte_at-append done 0 rest) refl

-- The labels on the wire.
abbrev wire : List Text → List ℕ
wire [] = []
wire (label ∷ labels) = length label ∷ label ++ wire labels

repeat-wire :
    (labels : List Text) (done rest : List ℕ) (acc : List Text) (f : ℕ)
    → All Label labels
    → length labels < f
    → repeat f (read_turn (done ++ (wire labels ++ 0 ∷ rest))) (reading (length done) acc)
      ≡ ok (join b'.' (acc ++ labels), length done + length (wire labels) + 1)
unfolding repeat
repeat-wire labels done rest acc zero h le = absurd (omega arith)
repeat-wire [] done rest acc (suc f) h le =
    rw (read_turn-end done rest acc, append-nil acc) (ap (λ p. ok (join b'.' acc, p)) (omega arith))
repeat-wire (label ∷ labels) done rest acc (suc f) (h, hs) le =
    let done' = done ++ (length label ∷ label) in
    let packet = done ++ (wire (label ∷ labels) ++ 0 ∷ rest) in
    let inner : label ++ (wire labels ++ 0 ∷ rest) ≡ (label ++ wire labels) ++ 0 ∷ rest =
      sym (append_assoc label (wire labels) (0 ∷ rest)) in
    let outer : done' ++ (wire labels ++ 0 ∷ rest) ≡ packet =
      append_assoc done (length label ∷ label) (wire labels ++ 0 ∷ rest)
      ∙ ap (λ t. done ++ (length label ∷ t)) inner in
    let turn : read_turn packet (reading (length done) acc)
        ≡ ok (goes_on (reading (length done + 1 + length label) (acc ++ label ∷ []))) =
      subst
        (λ t.
          read_turn (done ++ (length label ∷ t)) (reading (length done) acc)
          ≡ ok (goes_on (reading (length done + 1 + length label) (acc ++ label ∷ []))))
        inner (read_turn-part done label (wire labels ++ 0 ∷ rest) acc h) in
    let at : length done' ≡ length done + 1 + length label =
      omega (arith, length-append done (length label ∷ label)) in
    let end : length done' + length (wire labels) + 1
        ≡ length done + length (wire (label ∷ labels)) + 1 =
      omega (arith, at, length-append label (wire labels)) in
    let ih : repeat f (read_turn packet)
          (reading (length done + 1 + length label) (acc ++ label ∷ []))
        ≡ ok (
          join b'.' (acc ++ (label ∷ labels)),
          length done + length (wire (label ∷ labels)) + 1,
        ) =
      rw (sym outer, sym end, sym at, sym (append_assoc acc (label ∷ []) labels))
        (repeat-wire labels done' rest (acc ++ label ∷ []) f hs (omega arith)) in
    ap (λ r. proceed r (repeat f (read_turn packet))) turn ∙ ih

append_labels-wire :
    (labels : List Text) (buf : List ℕ)
    → All Label labels
    → append_labels buf labels ≡ buf ++ wire labels
unfolding append_labels
append_labels-wire [] buf h = sym (append-nil buf)
append_labels-wire ([] ∷ labels) buf ((pos, _, _), hs) = absurd (omega arith)
append_labels-wire ((c ∷ cs) ∷ labels) buf ((_, short, _), hs) =
    let own : length (c ∷ cs) % 256 ≡ length (c ∷ cs) = omega arith in
    rw (append_labels-wire labels (buf ++ (length (c ∷ cs) % 256 ∷ (c ∷ cs))) hs, own)
      (append_assoc buf (length (c ∷ cs) ∷ (c ∷ cs)) (wire labels))

labels-wire : (labels : List Text) → All Label labels → length labels ≤ length (wire labels)
labels-wire [] h = omega arith
labels-wire (label ∷ labels) (_, hs) =
    omega (arith, labels-wire labels hs, length-append label (wire labels))

Label-Lacks : (labels : List Text) → All Label labels → All (Lacks b'.') labels
Label-Lacks [] h = tt
Label-Lacks (label ∷ labels) ((_, _, l), hs) = (l, Label-Lacks labels hs)

read_dns_name-wire :
    (before rest : List ℕ) (labels : List Text)
    → All Label labels
    → read_dns_name (before ++ (wire labels ++ 0 ∷ rest)) (length before)
      ≡ ok (join b'.' labels, length before + length (wire labels) + 1)
unfolding read_dns_name
read_dns_name-wire before rest labels h =
    repeat-wire labels before rest [] (17 * (length (before ++ (wire labels ++ 0 ∷ rest)) + 2)) h (
      omega (
        arith,
        labels-wire labels h,
        length-append before (wire labels ++ 0 ∷ rest),
        length-append (wire labels) (0 ∷ rest),
      ))

append_dns_name-wire :
    (before : List ℕ) (label : Text) (labels : List Text)
    → All Label (label ∷ labels)
    → append_dns_name before (join b'.' (label ∷ labels))
      ≡ before ++ (wire (label ∷ labels) ++ 0 ∷ [])
unfolding append_dns_name
append_dns_name-wire before label labels h =
    ap (λ l. append_labels before l ++ 0 ∷ [])
      (split-join b'.' label labels (Label-Lacks (label ∷ labels) h))
    ∙ ap (λ t. t ++ 0 ∷ []) (append_labels-wire (label ∷ labels) before h)
    ∙ append_assoc before (wire (label ∷ labels)) (0 ∷ [])

-- A dotted name of labels that are not empty, shorter than 64 bytes and free of dots, which
-- `appendDNSName` writes behind any bytes, is what `readDNSName` reads there, whatever bytes follow;
-- the end that it gives is the end of what was written.
pub read_dns_name-append_dns_name :
    (before after : List ℕ) (label : Text) (labels : List Text)
    → All Label (label ∷ labels)
    → read_dns_name (append_dns_name before (join b'.' (label ∷ labels)) ++ after) (length before)
      ≡ ok
          (join b'.' (label ∷ labels), length (append_dns_name before (join b'.' (label ∷ labels))))
read_dns_name-append_dns_name before after label labels h =
    let name = label ∷ labels in
    let written = append_dns_name-wire before label labels h in
    let packet : append_dns_name before (join b'.' name) ++ after
        ≡ before ++ (wire name ++ 0 ∷ after) =
      ap (λ t. t ++ after) written
      ∙ append_assoc before (wire name ++ 0 ∷ []) after
      ∙ ap (λ t. before ++ t) (append_assoc (wire name) (0 ∷ []) after) in
    let end : length (append_dns_name before (join b'.' name))
        ≡ length before + length (wire name) + 1 =
      ap length written
      ∙ omega
          (arith, length-append before (wire name ++ 0 ∷ []), length-append (wire name) (0 ∷ [])) in
    rw (packet, end) (read_dns_name-wire before after name h)
