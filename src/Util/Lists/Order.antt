-- ===== src/Util/Lists/Order.antt =====
-- `comm` and `grep` keep ascending lists ascending, and what `grep` keeps.
use Prim.Native.Nat.{Ordering}
use wmii.Base.{
  ◌≡◌, refl, sym, subst, Bool, true, false, not, ◌&&◌, List, [], ◌∷◌, arith, Bool-cases, inl, inr,
  ℕ, if◌then◌else◌,
}
use wmii.Base.Str.{CString, Ordering-cases, strcmp, strcmp_eq, strcmp_flip_gt}
use wmii.Util.Lists.{left, right, center, push_if, comm, grep, mem, Above, Ascending}
use wmii.Util.Lists.Uniq.{Above-trans}

Above-push_if :
    (x s : CString) (b : Bool) (l : List CString)
    → strcmp x s ≡ Ordering.lt
    → Above x l
    → Above x (push_if b s l)
Above-push_if x s true l h k = (h, k)
Above-push_if x s false l h k = k

Ascending-push_if :
    (s : CString) (b : Bool) (l : List CString)
    → Above s l
    → Ascending l
    → Ascending (push_if b s l)
Ascending-push_if s true l h k = (h, k)
Ascending-push_if s false l h k = k

Above-comm :
    (x : CString) (cols : ℕ) (xs ys : List CString)
    → Above x xs
    → Above x ys
    → Above x (comm cols xs ys)
unfolding comm
Above-comm x cols [] [] h k = tt
Above-comm x cols [] (b ∷ bs) h (k, ks) =
    Above-push_if x b (right cols) (comm cols [] bs) k (Above-comm x cols [] bs tt ks)
Above-comm x cols (a ∷ xs) [] (h, hs) k =
    Above-push_if x a (left cols) (comm cols xs []) h (Above-comm x cols xs [] hs tt)
Above-comm x cols (a ∷ xs) (b ∷ bs) (h, hs) (k, ks) = elim (Ordering-cases (strcmp a b)) [
  | inl e ↦
      rw (e, comm)
        (Above-push_if x a (left cols) (comm cols xs (b ∷ bs)) h
          (Above-comm x cols xs (b ∷ bs) hs (k, ks)))
  | inr (inl e) ↦
      rw (e, comm)
        (Above-push_if x a (center cols) (comm cols xs bs) h (Above-comm x cols xs bs hs ks))
  | inr (inr e) ↦
      rw (e, comm)
        (Above-push_if x b (right cols) (comm cols (a ∷ xs) bs) k
          (Above-comm x cols (a ∷ xs) bs (h, hs) ks))
]

-- `comm` of two ascending lists is ascending.
pub comm-Ascending :
    (cols : ℕ) (xs ys : List CString) → Ascending xs → Ascending ys → Ascending (comm cols xs ys)
unfolding comm
comm-Ascending cols [] [] h k = tt
comm-Ascending cols [] (b ∷ bs) h (k, ks) =
    Ascending-push_if b (right cols) (comm cols [] bs) (Above-comm b cols [] bs tt k)
      (comm-Ascending cols [] bs tt ks)
comm-Ascending cols (a ∷ xs) [] (h, hs) k =
    Ascending-push_if a (left cols) (comm cols xs []) (Above-comm a cols xs [] h tt)
      (comm-Ascending cols xs [] hs tt)
comm-Ascending cols (a ∷ xs) (b ∷ bs) (h, hs) (k, ks) = elim (Ordering-cases (strcmp a b)) [
  | inl e ↦
      rw (e, comm)
        (Ascending-push_if a (left cols) (comm cols xs (b ∷ bs))
          (Above-comm a cols xs (b ∷ bs) h (e, Above-trans a b bs e k))
          (comm-Ascending cols xs (b ∷ bs) hs (k, ks)))
  | inr (inl e) ↦
      rw (e, comm)
        (Ascending-push_if a (center cols) (comm cols xs bs)
          (Above-comm a cols xs bs h (subst (λ c. Above c bs) (sym (strcmp_eq a b e)) k))
          (comm-Ascending cols xs bs hs ks))
  | inr (inr e) ↦
      let f = strcmp_flip_gt a b e in
      rw (e, comm)
        (Ascending-push_if b (right cols) (comm cols (a ∷ xs) bs)
          (Above-comm b cols (a ∷ xs) bs (f, Above-trans b a xs f h) k)
          (comm-Ascending cols (a ∷ xs) bs (h, hs) ks))
]

Above-grep :
    (x : CString) (matches : CString → Bool) (invert : Bool) (l : List CString)
    → Above x l
    → Above x (grep matches invert l)
unfolding grep
Above-grep x matches invert [] h = tt
Above-grep x matches true (p ∷ l) (h, hs) = elim (Bool-cases (matches p)) [
  | inl e ↦ rw (e, grep) (Above-grep x matches true l hs)
  | inr e ↦ rw (e, grep) (h, Above-grep x matches true l hs)
]
Above-grep x matches false (p ∷ l) (h, hs) = elim (Bool-cases (matches p)) [
  | inl e ↦ rw (e, grep) (h, Above-grep x matches false l hs)
  | inr e ↦ rw (e, grep) (Above-grep x matches false l hs)
]

pub grep-Ascending :
    (matches : CString → Bool) (invert : Bool) (l : List CString)
    → Ascending l
    → Ascending (grep matches invert l)
unfolding grep
grep-Ascending matches invert [] h = tt
grep-Ascending matches true (p ∷ l) (h, hs) = elim (Bool-cases (matches p)) [
  | inl e ↦ rw (e, grep) (grep-Ascending matches true l hs)
  | inr e ↦ rw (e, grep) (Above-grep p matches true l h, grep-Ascending matches true l hs)
]
grep-Ascending matches false (p ∷ l) (h, hs) = elim (Bool-cases (matches p)) [
  | inl e ↦ rw (e, grep) (Above-grep p matches false l h, grep-Ascending matches false l hs)
  | inr e ↦ rw (e, grep) (grep-Ascending matches false l hs)
]

-- `grep` keeps the strings that match, or with `GInvert` the others.
pub grep-mem :
    (matches : CString → Bool) (invert : Bool) (l : List CString) (z : CString)
    → mem z (grep matches invert l) ≡ (mem z l && (if invert then not (matches z) else matches z))
unfolding grep mem
grep-mem matches invert [] z = refl
grep-mem matches true (p ∷ l) z = ground (arith, strcmp_eq z p, grep-mem matches true l z)
grep-mem matches false (p ∷ l) z = ground (arith, strcmp_eq z p, grep-mem matches false l z)
