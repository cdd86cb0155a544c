-- ===== src/Util/Lists/Comm.antt =====
-- `comm` on strictly ascending lists is the sets' algebra that its flags name.
use Prim.Native.Nat.{Ordering}
use wmii.Base.{ℕ, ◌≡◌, refl, Bool, true, false, List, [], ◌∷◌, ◌||◌, ◌&&◌, arith, inl, inr}
use wmii.Base.Str.{CString, Ordering-cases, strcmp, streq, strcmp_eq, strcmp_trans, strcmp_flip_gt}
use wmii.Util.Lists.{left, center, right, push_if, comm, mem, Above, Ascending}

-- Which strings the flags ask for.
abbrev pub chosen : ℕ → Bool → Bool → Bool
chosen cols true true = center cols
chosen cols true false = left cols
chosen cols false true = right cols
chosen cols false false = false

Above-mem :
    (x z : CString) (l : List CString) → Above x l → strcmp z x ≡ Ordering.lt → mem z l ≡ false
unfolding mem
Above-mem x z [] h e = refl
Above-mem x z (y ∷ l) h e = ground (arith, strcmp_trans z x y e h.0, Above-mem x z l h.1 e)

Above-mem_self : (x : CString) (l : List CString) → Above x l → mem x l ≡ false
unfolding mem
Above-mem_self x [] h = refl
Above-mem_self x (y ∷ l) h = ground (arith, h.0, Above-mem_self x l h.1)

Above-trans : (x y : CString) (l : List CString) → strcmp x y ≡ Ordering.lt → Above y l → Above x l
Above-trans x y [] e h = tt
Above-trans x y (z ∷ l) e h = (strcmp_trans x y z e h.0, Above-trans x y l e h.1)

mem-push_if :
    (z s : CString) (b : Bool) (l : List CString)
    → mem z (push_if b s l) ≡ ((b && streq z s) || mem z l)
unfolding mem
mem-push_if z s true l = refl
mem-push_if z s false l = refl

-- The three cases of two heads, over what the rest of the merge holds.
module _ (cols : ℕ) (a : CString) (xs : List CString) (b : CString) (bs : List CString)
    (z : CString) (above_a : Above a xs) (above_b : Above b bs) where
  less :
      (rest : List CString)
      → strcmp a b ≡ Ordering.lt
      → mem z rest ≡ chosen cols (mem z xs) (mem z (b ∷ bs))
      → mem z (push_if (left cols) a rest) ≡ chosen cols (mem z (a ∷ xs)) (mem z (b ∷ bs))
  unfolding mem
  less rest e ih =
      ground (arith, mem-push_if z a (left cols) rest, strcmp_eq z a, Above-mem b a bs above_b e)

  greater :
      (rest : List CString)
      → strcmp a b ≡ Ordering.gt
      → mem z rest ≡ chosen cols (mem z (a ∷ xs)) (mem z bs)
      → mem z (push_if (right cols) b rest) ≡ chosen cols (mem z (a ∷ xs)) (mem z (b ∷ bs))
  unfolding mem
  greater rest e ih = ground (
    arith,
    mem-push_if z b (right cols) rest,
    strcmp_eq z b,
    strcmp_flip_gt a b e,
    Above-mem a b xs above_a,
  )

  equal :
      (rest : List CString)
      → strcmp a b ≡ Ordering.eq
      → mem z rest ≡ chosen cols (mem z xs) (mem z bs)
      → mem z (push_if (center cols) a rest) ≡ chosen cols (mem z (a ∷ xs)) (mem z (b ∷ bs))
  unfolding mem
  equal rest e ih = ground (
    arith,
    mem-push_if z a (center cols) rest,
    strcmp_eq a b e,
    strcmp_eq z a,
    Above-mem_self a xs above_a,
    Above-mem_self b bs above_b,
  )

-- `comm` of two ascending lists holds a string exactly if the asked columns choose it: those of the
-- first list alone, of the second alone, or of both.
pub comm-mem :
    (cols : ℕ) (xs ys : List CString) (z : CString)
    → Ascending xs
    → Ascending ys
    → mem z (comm cols xs ys) ≡ chosen cols (mem z xs) (mem z ys)
unfolding comm mem
comm-mem cols [] [] z h k = refl
comm-mem cols [] (b ∷ bs) z h k =
    ground (arith, mem-push_if z b (right cols) (comm cols [] bs), comm-mem cols [] bs z tt k.1)
comm-mem cols (a ∷ xs) [] z h k =
    ground (arith, mem-push_if z a (left cols) (comm cols xs []), comm-mem cols xs [] z h.1 tt)
comm-mem cols (a ∷ xs) (b ∷ bs) z h k = elim (Ordering-cases (strcmp a b)) [
  | inl e ↦
      rw (e, comm)
        (less cols a xs b bs z h.0 k.0 (comm cols xs (b ∷ bs)) e
          (comm-mem cols xs (b ∷ bs) z h.1 k))
  | inr (inl e) ↦
      rw (e, comm)
        (equal cols a xs b bs z h.0 k.0 (comm cols xs bs) e (comm-mem cols xs bs z h.1 k.1))
  | inr (inr e) ↦
      rw (e, comm)
        (greater cols a xs b bs z h.0 k.0 (comm cols (a ∷ xs) bs) e
          (comm-mem cols (a ∷ xs) bs z h k.1))
]
