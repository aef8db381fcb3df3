-- ===== src/Combined/Notices.antt =====
-- internal/scanner/agent/combined.go: `noticeCollector`. The workers of the combined scan call it
-- under a mutex, in any order, so a run is a list of notes. A Go map is an association list in
-- the order of its keys, which is the order that `sort.Strings` gives them in `notices`.
pub mod Order
use mathlib.Core.List.{foldl}
use light_ipam.Base.{
  ℕ, zero, suc, ◌+◌, ◌/◌, ◌%◌, Bool, true, false, List, [], ◌∷◌, ◌++◌, Text, codes, same, Option,
  none, some, if◌then◌else◌, ◌==◌, ltb,
}
use light_ipam.Protocol.{ScanError}

-- `strings.Compare`, the order of `sort.Strings`.
pub data Sign : Type 0 where
  less equal greater : Sign

unfoldable pub compare_text : Text → Text → Sign
compare_text [] [] = equal
compare_text [] (d ∷ t) = less
compare_text (c ∷ s) [] = greater
compare_text (c ∷ s) (d ∷ t) =
    let rest = compare_text s t in if ltb c d then less else if ltb d c then greater else rest

-- A write to a map: the value at a key, made from the old one.
module _ {V : Type 0} (change : Option V → V) where
  unfoldable pub write : Text → List (Text × V) → List (Text × V)
  write k [] = (k, change none) ∷ []
  write k ((j, v) ∷ m) =
      let rest = write k m in
      elim (compare_text k j) [
        | less ↦ (k, change none) ∷ (j, v) ∷ m
        | equal ↦ (j, change (some v)) ∷ m
        | greater ↦ (j, v) ∷ rest
      ]

pub record Collector : Type 0 where
  pub per_target : List (Text × ℕ)
  pub whole_pass : List (Text × Text)

pub data Note : Type 0 where
  target : Text → Note
  whole : Text → Text → Note

-- `n.perTarget[label]++`.
abbrev pub increment : Option ℕ → ℕ
increment none = 1
increment (some n) = n + 1

-- `noteTarget` and `noteWhole`.
unfoldable pub note : Collector → Note → Collector
unfolding write
note c (target label) = record c { per_target = write increment label c.per_target }
note c (whole label message) = record c {
  whole_pass = write (λ _. label) (label ++ 0 ∷ message) c.whole_pass;
}

abbrev pub empty : Collector
empty = record { per_target = []; whole_pass = [] }

unfoldable pub collect_from : Collector → List Note → Collector
unfolding note
collect_from c [] = c
collect_from c (n ∷ ns) = collect_from (note c n) ns

-- `strings.SplitN(k, "\x00", 2)[1]`.
unfoldable pub after_nul : Text → Text
after_nul [] = []
after_nul (c ∷ s) = let rest = after_nul s in if c == 0 then s else rest

-- `%d`; the digits of a positive number, with fuel for each digit.
digits_from : ℕ → ℕ → Text → Text
digits_from zero n out = out
digits_from (suc f) n out =
    let rest = digits_from f (n / 10) ((b'0' + n % 10) ∷ out) in if n == 0 then out else rest

unfoldable pub decimal_text : ℕ → Text
unfolding digits_from
decimal_text n = if n == 0 then b'0' ∷ [] else digits_from (suc n) n []

abbrev pub scan_ignored : Text
scan_ignored = codes "scan_ignored"

unfoldable pub whole_notices : List (Text × Text) → List ScanError
unfolding after_nul
whole_notices [] = []
whole_notices ((k, label) ∷ m) =
    record {
      code = scan_ignored;
      message = label ++ codes " skipped: " ++ after_nul k;
      target = [];
    }
    ∷ whole_notices m

unfoldable pub target_notices : List (Text × ℕ) → List ScanError
unfolding decimal_text
target_notices [] = []
target_notices ((label, count) ∷ m) =
    record {
      code = scan_ignored;
      message =
          label
          ++ codes " skipped: "
          ++ decimal_text count
          ++ codes " "
          ++ (if count == 1 then codes "host" else codes "hosts")
          ++ codes " did not respond";
      target = [];
    }
    ∷ target_notices m

unfoldable pub notices : Collector → List ScanError
unfolding whole_notices target_notices
notices c = whole_notices c.whole_pass ++ target_notices c.per_target
