-- ===== src/Names.antt =====
-- internal/scanner/agent/names.go: the names of hosts by NetBIOS and multicast DNS. This file reads
-- packets; Names/Dns.antt has DNS names, Names/Netbios.antt and Names/Mdns.antt the two protocols and
-- Names/Lookup.antt the scan of a job's targets. A byte slice is a list of numbers below 256, and
-- an index or a slice out of range is the value `panic`, as in Go.
pub mod Dns
pub mod DnsLaws
pub mod ReadLaws
pub mod RoundTrip
pub mod Netbios
pub mod Mdns
pub mod ReplyLaws
pub mod Lookup
pub mod LookupLaws
pub mod Accounting
use light_ipam.Base.{
  ℕ, zero, suc, ◌+◌, ◌-◌, ◌*◌, ◌<◌, ◌≤◌, Bool, true, false, ◌&&◌, List, [], ◌∷◌, Option, none, some,
  length, get_elem?, take, drop, leb, if◌then◌else◌, ◌≡◌, refl, arith,
}

-- The errors, one for each message.
pub data NameError : Type 0 where
  name_past_end pointer_truncated compression_loop label_past_end : NameError
  netbios_short netbios_truncated no_netbios_names : NameError
  mdns_short no_answers question_truncated answer_truncated rdata_truncated no_ptr : NameError
  not_ipv4 no_reply : NameError

-- What a parser returns. `panic` is an access out of range, and `stuck` is no Go value: a loop ran
-- out of the fuel that stands for its turns.
pub data Reading {ℓ} (A : Type ℓ) : Type ℓ where
  ok : A → Reading A
  fail : NameError → Reading A
  panic stuck : Reading A

infixl 5 ◌>>=◌
abbrev pub ◌>>=◌ {ℓ κ} : {A : Type ℓ} {B : Type κ} → Reading A → (A → Reading B) → Reading B
fail e >>= next = fail e
panic >>= next = panic
stuck >>= next = stuck
ok found >>= next = next found

-- `buf[pos]`.
unfoldable pub byte_at : List ℕ → ℕ → Reading ℕ
byte_at buf pos = elim (get_elem? buf pos) [ none ↦ panic | some b ↦ ok b ]

-- `binary.BigEndian.Uint16(buf[pos : pos+2])`.
unfoldable pub word_at : List ℕ → ℕ → Reading ℕ
unfolding byte_at
word_at buf pos = do hi ← byte_at buf pos; lo ← byte_at buf (pos + 1); ok (hi * 256 + lo)

-- `buf[from:to]`.
unfoldable pub slice : List ℕ → ℕ → ℕ → Reading (List ℕ)
slice buf from to =
    if leb from to && leb to (length buf) then ok (take (to - from) (drop from buf)) else panic

-- The parser ends with a value that satisfies `P`, or with an error of its own.
abbrev pub Returns {ℓ} : {A : Type ℓ} → (A → Type 0) → Reading A → Type 0
Returns P (ok a) = P a
Returns P (fail e) = Unit {0}
Returns P panic = ⊥
Returns P stuck = ⊥

pub byte_at_lem : (buf : List ℕ) (pos : ℕ) → pos < length buf → (b : ℕ) × (byte_at buf pos ≡ ok b)
unfolding byte_at
byte_at_lem [] pos h = absurd (omega arith)
byte_at_lem (b ∷ buf) zero h = (b, refl)
byte_at_lem (b ∷ buf) (suc pos) h = byte_at_lem buf pos (omega arith)

pub word_at_lem :
    (buf : List ℕ) (pos : ℕ) → pos + 1 < length buf → (w : ℕ) × (word_at buf pos ≡ ok w)
unfolding word_at
word_at_lem buf pos h =
    let (hi, at_hi) = byte_at_lem buf pos (omega arith) in
    let (lo, at_lo) = byte_at_lem buf (pos + 1) h in (hi * 256 + lo, rw (at_hi, at_lo) refl)

pub slice_lem :
    (buf : List ℕ) (from to : ℕ)
    → from ≤ to
    → to ≤ length buf
    → slice buf from to ≡ ok (take (to - from) (drop from buf))
unfolding slice
slice_lem buf from to h k = ground arith

-- A loop: a turn ends it or goes on from a new state. The fuel bounds the turns.
pub data Turn (A S : Type 0) : Type 0 where
  ends : A → Turn A S
  goes_on : S → Turn A S

abbrev pub proceed : {A S : Type 0} → Reading (Turn A S) → (S → Reading A) → Reading A
proceed (fail e) again = fail e
proceed panic again = panic
proceed stuck again = stuck
proceed (ok (ends a)) again = ok a
proceed (ok (goes_on s)) again = again s

unfoldable pub repeat : {A S : Type 0} → ℕ → (S → Reading (Turn A S)) → S → Reading A
repeat zero turn s = stuck
repeat (suc f) turn s = proceed (turn s) (repeat f turn)

-- What a turn keeps: `P` holds of the result, and a next state has the invariant and less to do.
abbrev pub Keeps : {A S : Type 0} → (A → Type 0) → (S → Type 0) → (S → ℕ) → ℕ → Turn A S → Type 0
Keeps P Inv measure m (ends a) = P a
Keeps P Inv measure m (goes_on s) = Inv s × (measure s < m)

proceed-Returns :
    {A S : Type 0} (P : A → Type 0) (Inv : S → Type 0) (measure : S → ℕ) (m : ℕ)
    (again : S → Reading A) (r : Reading (Turn A S))
    → ((s : S) → Inv s → measure s < m → Returns P (again s))
    → Returns (Keeps P Inv measure m) r
    → Returns P (proceed r again)
proceed-Returns P Inv measure m again (ok (ends a)) ih h = h
proceed-Returns P Inv measure m again (ok (goes_on s)) ih (i, le) = ih s i le
proceed-Returns P Inv measure m again (fail e) ih h = tt
proceed-Returns P Inv measure m again panic ih h = h
proceed-Returns P Inv measure m again stuck ih h = h

-- A loop whose turns keep the invariant and come nearer to the end returns, on enough fuel.
pub repeat-Returns :
    {A S : Type 0} (P : A → Type 0) (Inv : S → Type 0) (measure : S → ℕ)
    (turn : S → Reading (Turn A S))
    → ((s : S) → Inv s → Returns (Keeps P Inv measure (measure s)) (turn s))
    → (f : ℕ) (s : S) → measure s < f
    → Inv s
    → Returns P (repeat f turn s)
unfolding repeat
repeat-Returns P Inv measure turn keep zero s m i = absurd (omega arith)
repeat-Returns P Inv measure turn keep (suc f) s m i =
    proceed-Returns P Inv measure (measure s) (repeat f turn) (turn s)
      (λ s' i' less. repeat-Returns P Inv measure turn keep f s' (omega arith) i') (keep s i)

proceed-fuel :
    {A S : Type 0} (P : A → Type 0) (Inv : S → Type 0) (measure : S → ℕ) (m : ℕ)
    (again again' : S → Reading A) (r : Reading (Turn A S))
    → ((s : S) → Inv s → measure s < m → again s ≡ again' s)
    → Returns (Keeps P Inv measure m) r
    → proceed r again ≡ proceed r again'
proceed-fuel P Inv measure m again again' (ok (ends a)) ih h = refl
proceed-fuel P Inv measure m again again' (ok (goes_on s)) ih (i, le) = ih s i le
proceed-fuel P Inv measure m again again' (fail e) ih h = refl
proceed-fuel P Inv measure m again again' panic ih h = refl
proceed-fuel P Inv measure m again again' stuck ih h = refl

-- Any fuel that is enough gives the same.
pub repeat-fuel :
    {A S : Type 0} (P : A → Type 0) (Inv : S → Type 0) (measure : S → ℕ)
    (turn : S → Reading (Turn A S))
    → ((s : S) → Inv s → Returns (Keeps P Inv measure (measure s)) (turn s))
    → (f g : ℕ) (s : S) → measure s < f
    → measure s < g
    → Inv s
    → repeat f turn s ≡ repeat g turn s
unfolding repeat
repeat-fuel P Inv measure turn keep zero g s m n i = absurd (omega arith)
repeat-fuel P Inv measure turn keep (suc f) zero s m n i = absurd (omega arith)
repeat-fuel P Inv measure turn keep (suc f) (suc g) s m n i =
    proceed-fuel P Inv measure (measure s) (repeat f turn) (repeat g turn) (turn s)
      (λ s' i' less. repeat-fuel P Inv measure turn keep f g s' (omega arith) (omega arith) i')
      (keep s i)

-- A chain returns where its parts do.
pub >>=-Returns :
    {A B : Type 0} (P : A → Type 0) (Q : B → Type 0) (first : Reading A) (next : A → Reading B)
    → Returns P first
    → ((a : A) → P a → Returns Q (next a))
    → Returns Q (first >>= next)
>>=-Returns P Q (ok a) next h k = k a h
>>=-Returns P Q (fail e) next h k = tt
>>=-Returns P Q panic next h k = h
>>=-Returns P Q stuck next h k = h

pub Returns-map :
    {A : Type 0} (P Q : A → Type 0) (r : Reading A)
    → ((a : A) → P a → Q a)
    → Returns P r
    → Returns Q r
Returns-map P Q (ok a) k h = k a h
Returns-map P Q (fail e) k h = tt
Returns-map P Q panic k h = h
Returns-map P Q stuck k h = h
