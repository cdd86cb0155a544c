-- ===== src/Util/Lists/Uniq.antt =====
-- `uniq` on a sorted list drops the repeats and nothing else.
use Prim.Native.Nat.{Ordering}
use wmii.Base.{◌≡◌, ◌≢◌, refl, false, List, [], ◌∷◌, ◌||◌, arith, Bool-cases, inl, inr}
use wmii.Base.Str.{CString, Ordering-cases, strcmp, streq, strcmp_eq, strcmp_trans}
use wmii.Util.Lists.{uniq_from, uniq, mem, Above, Ascending}

-- No string of the list stands before `x`; the order of `qsort` with `strcmp`.
abbrev pub NotAfter : CString → List CString → Type 0
NotAfter x [] = Unit {0}
NotAfter x (y ∷ l) = (strcmp x y ≢ Ordering.gt) × NotAfter x l

abbrev pub IsSorted : List CString → Type 0
IsSorted [] = Unit {0}
IsSorted (x ∷ l) = NotAfter x l × IsSorted l

lt_of : (x y : CString) → strcmp x y ≢ Ordering.gt → streq x y ≡ false → strcmp x y ≡ Ordering.lt
lt_of x y h e = elim (Ordering-cases (strcmp x y)) [
  | inl p ↦ p
  | inr (inl p) ↦ ground (arith, p)
  | inr (inr p) ↦ absurd (h p)
]

pub Above-trans :
    (x y : CString) (l : List CString) → strcmp x y ≡ Ordering.lt → Above y l → Above x l
Above-trans x y [] e h = tt
Above-trans x y (z ∷ l) e h = (strcmp_trans x y z e h.0, Above-trans x y l e h.1)

uniq_from-Ascending :
    (q : CString) (l : List CString)
    → NotAfter q l
    → IsSorted l
    → Above q (uniq_from q l) × Ascending (uniq_from q l)
unfolding uniq_from
uniq_from-Ascending q [] h k = (tt, tt)
uniq_from-Ascending q (p ∷ r) h k = elim (Bool-cases (streq q p)) [
  | inl e ↦ rw (e, uniq_from) (uniq_from-Ascending q r h.1 k.1)
  | inr e ↦
      rw (e, uniq_from)
        (let ih = uniq_from-Ascending p r k.0 k.1 in
          let lt = lt_of q p h.0 e in ((lt, Above-trans q p (uniq_from p r) lt ih.0), ih))
]

uniq_from-mem :
    (q : CString) (l : List CString) (z : CString)
    → (streq z q || mem z (uniq_from q l)) ≡ (streq z q || mem z l)
unfolding uniq_from mem
uniq_from-mem q [] z = refl
uniq_from-mem q (p ∷ r) z = elim (Bool-cases (streq q p)) [
  | inl e ↦ rw (e, uniq_from) (ground (arith, strcmp_eq q p, uniq_from-mem q r z))
  | inr e ↦ rw (e, uniq_from) (ground (arith, uniq_from-mem p r z))
]

-- On a list that `qsort` has sorted, `uniq` leaves a strictly ascending list of the same strings.
pub uniq-Ascending :
    (l : List CString)
    → IsSorted l
    → Ascending (uniq l) × ((z : CString) → mem z (uniq l) ≡ mem z l)
unfolding uniq mem
uniq-Ascending [] h = (tt, λ z. refl)
uniq-Ascending (q ∷ r) h = (uniq_from-Ascending q r h.0 h.1, λ z. uniq_from-mem q r z)
