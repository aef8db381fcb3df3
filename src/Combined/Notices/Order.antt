-- ===== src/Combined/Notices/Order.antt =====
-- The notices of a combined scan do not depend on the order in which the workers note them.
use mathlib.Core.List.{Permᴰ}
use mathlib.Core.Path.{ap₂}
use light_ipam.Base.{
  List, [], ◌∷◌, ◌++◌, Text, Option, ◌≡◌, refl, sym, ap, ◌∙◌, arith, inl, inr, ◌⊎◌, Lacks, All,
  subst,
}
use light_ipam.Combined.Notices.{
  Sign, less, equal, greater, compare_text, write, Collector, Note, target, whole, increment, note,
  collect_from, notices, empty,
}

compare-equal : (s t : Text) → compare_text s t ≡ equal → s ≡ t
unfolding compare_text
compare-equal [] [] h = refl
compare-equal [] (d ∷ t) h = cc
compare-equal (c ∷ s) [] h = cc
compare-equal (c ∷ s) (d ∷ t) h = ground (arith, compare-equal s t)

compare_refl : (s : Text) → compare_text s s ≡ equal
unfolding compare_text
compare_refl [] = refl
compare_refl (c ∷ s) = ground (arith, compare_refl s)

abbrev flip : Sign → Sign
flip less = greater
flip equal = equal
flip greater = less

compare-flip : (s t : Text) → compare_text t s ≡ flip (compare_text s t)
unfolding compare_text
compare-flip [] [] = refl
compare-flip [] (d ∷ t) = refl
compare-flip (c ∷ s) [] = refl
compare-flip (c ∷ s) (d ∷ t) = ground (arith, compare-flip s t)

compare_trans :
    (s t u : Text) → compare_text s t ≡ less → compare_text t u ≡ less → compare_text s u ≡ less
unfolding compare_text
compare_trans [] [] u h k = cc
compare_trans [] (d ∷ t) [] h k = cc
compare_trans [] (d ∷ t) (e ∷ u) h k = refl
compare_trans (c ∷ s) [] u h k = cc
compare_trans (c ∷ s) (d ∷ t) [] h k = cc
compare_trans (c ∷ s) (d ∷ t) (e ∷ u) h k = ground (arith, compare_trans s t u)

module _ {V : Type 0} (f g : Option V → V) where
  write-write_less :
      (j k : Text) (m : List (Text × V))
      → compare_text j k ≡ less
      → write f j (write g k m) ≡ write g k (write f j m)
  unfolding write
  write-write_less j k [] h = ground (arith, compare-flip j k)
  write-write_less j k ((i, v) ∷ m) h =
      ground
        (arith, write-write_less j k m, compare-flip j k, compare_trans j k i, compare-equal k i)

Sign-cases : (s : Sign) → (s ≡ less) ⊎ (s ≡ equal) ⊎ (s ≡ greater)
Sign-cases less = inl refl
Sign-cases equal = inr (inl refl)
Sign-cases greater = inr (inr refl)

-- Two writes commute if they change a common key alike.
write-write :
    {V : Type 0} (f g : Option V → V) (j k : Text) (m : List (Text × V))
    → (j ≡ k → f ≡ g)
    → write f j (write g k m) ≡ write g k (write f j m)
write-write f g j k m alike = elim (Sign-cases (compare_text j k)) [
  | inl e ↦ write-write_less f g j k m e
  | inr (inl e) ↦ let q = compare-equal j k e in rw (q, alike q)
  | inr (inr e) ↦ sym (write-write_less g f k j m (compare-flip j k ∙ ap flip e))
]

-- The key of a whole-pass note determines its label, if labels hold no NUL.
label_of_key : (a b s t : Text) → Lacks 0 a → Lacks 0 b → a ++ (0 ∷ s) ≡ b ++ (0 ∷ t) → a ≡ b
label_of_key [] [] s t ha hb h = refl
label_of_key [] (d ∷ b) s t ha (hd, hb) h = absurd (hd (ground arith))
label_of_key (c ∷ a) [] s t (hc, ha) hb h = absurd (hc (ground arith))
label_of_key (c ∷ a) (d ∷ b) s t (hc, ha) (hd, hb) h = ground (arith, label_of_key a b s t ha hb)

abbrev pub HasPlainLabel : Note → Type 0
HasPlainLabel (target label) = Lacks 0 label
HasPlainLabel (whole label message) = Lacks 0 label

note-note :
    (c : Collector) (x y : Note)
    → HasPlainLabel x
    → HasPlainLabel y
    → note (note c x) y ≡ note (note c y) x
unfolding note
note-note c (target a) (target b) ha hb = λ i. record {
  per_target = write-write increment increment b a c.per_target (λ _. refl) i;
  whole_pass = c.whole_pass;
}
note-note c (target a) (whole b s) ha hb = refl
note-note c (whole a s) (target b) ha hb = refl
note-note c (whole a s) (whole b t) ha hb = λ i. record {
  per_target = c.per_target;
  whole_pass =
      write-write (λ _. b) (λ _. a) (b ++ 0 ∷ t) (a ++ 0 ∷ s) c.whole_pass
        (λ e. ap (λ l _. l) (label_of_key b a t s hb ha e)) i;
}

All-Permᴰ : {xs ys : List Note} → Permᴰ xs ys → All HasPlainLabel xs → All HasPlainLabel ys
All-Permᴰ Permᴰ.nil h = tt
All-Permᴰ (Permᴰ.cons e p) (h, hs) = (subst HasPlainLabel e h, All-Permᴰ p hs)
All-Permᴰ (Permᴰ.swap e e') (h, (h', hs)) =
    (subst HasPlainLabel e' h', (subst HasPlainLabel e h, hs))
All-Permᴰ (Permᴰ.trans p q) h = All-Permᴰ q (All-Permᴰ p h)

collect_from-Permᴰ :
    {xs ys : List Note} (c : Collector)
    → Permᴰ xs ys
    → All HasPlainLabel xs
    → collect_from c xs ≡ collect_from c ys
unfolding collect_from
collect_from-Permᴰ c Permᴰ.nil h = refl
collect_from-Permᴰ c (Permᴰ.cons {a} {l₁} {l₂} e p) (h, hs) =
    collect_from-Permᴰ (note c a) p hs ∙ ap (λ x. collect_from (note c x) l₂) e
collect_from-Permᴰ c (Permᴰ.swap {a} {b} {l} e e') (h, (h', hs)) =
    ap (λ c'. collect_from c' l) (note-note c a b h h')
    ∙ ap₂ (λ x y. collect_from (note (note c x) y) l) e' e
collect_from-Permᴰ c (Permᴰ.trans p q) h =
    collect_from-Permᴰ c p h ∙ collect_from-Permᴰ c q (All-Permᴰ p h)

-- The notices are the same whatever the order in which the workers note them: any permutation of
-- the notes gives the same list of notices, where no label holds a NUL character.
pub notices-perm :
    (xs ys : List Note)
    → All HasPlainLabel xs
    → Permᴰ xs ys
    → notices (collect_from empty xs) ≡ notices (collect_from empty ys)
notices-perm xs ys h p = ap notices (collect_from-Permᴰ empty p h)
