-- ===== src/Base/Str.antt =====
-- C strings: the bytes before the terminating NUL, each below 256.
use Prim.Native.Nat.{compare, Ordering}
use wmii.Base.{ℕ, ◌≡◌, refl, Bool, true, false, List, [], ◌∷◌, ◌||◌, arith, ◌==◌, ◌⊎◌, inl, inr}
use Prim.Native.Char.{code}
use Prim.Native.String.{String}

abbrev pub CString : Type 0
CString = List ℕ

-- The bytes of an ASCII literal.
abbrev pub codes : String → CString
codes String.[] = []
codes (String.◌∷◌ c s) = code c ∷ codes s

-- `strcmp`: the sign of the first difference of the bytes.
unfoldable pub strcmp : CString → CString → Ordering
strcmp [] [] = Ordering.eq
strcmp [] (b ∷ t) = Ordering.lt
strcmp (a ∷ s) [] = Ordering.gt
strcmp (a ∷ s) (b ∷ t) = elim (compare a b) [
  | Ordering.lt ↦ Ordering.lt
  | Ordering.gt ↦ Ordering.gt
  | Ordering.eq ↦ strcmp s t
]

-- `strcmp(s, t) == 0`
abbrev pub streq : CString → CString → Bool
streq s t = elim (strcmp s t) [ Ordering.eq ↦ true | _ ↦ false ]

-- `strchr(s, c) != nil`, for a byte `c` that is not NUL.
unfoldable pub contains : CString → ℕ → Bool
contains [] c = false
contains (a ∷ s) c = (a == c) || contains s c

pub Ordering-cases : (o : Ordering) → (o ≡ Ordering.lt) ⊎ ((o ≡ Ordering.eq) ⊎ (o ≡ Ordering.gt))
Ordering-cases Ordering.lt = inl refl
Ordering-cases Ordering.eq = inr (inl refl)
Ordering-cases Ordering.gt = inr (inr refl)

pub strcmp_refl : (s : CString) → strcmp s s ≡ Ordering.eq
unfolding strcmp
strcmp_refl [] = refl
strcmp_refl (a ∷ s) = ground (arith, strcmp_refl s)

pub strcmp_eq : (s t : CString) → strcmp s t ≡ Ordering.eq → s ≡ t
unfolding strcmp
strcmp_eq [] [] h = refl
strcmp_eq [] (b ∷ t) h = ground arith
strcmp_eq (a ∷ s) [] h = ground arith
strcmp_eq (a ∷ s) (b ∷ t) h = ground (arith, strcmp_eq s t)

pub strcmp_flip : (s t : CString) → strcmp s t ≡ Ordering.lt → strcmp t s ≡ Ordering.gt
unfolding strcmp
strcmp_flip [] [] h = ground arith
strcmp_flip [] (b ∷ t) h = refl
strcmp_flip (a ∷ s) [] h = ground arith
strcmp_flip (a ∷ s) (b ∷ t) h = ground (arith, strcmp_flip s t)

pub strcmp_flip_gt : (s t : CString) → strcmp s t ≡ Ordering.gt → strcmp t s ≡ Ordering.lt
unfolding strcmp
strcmp_flip_gt [] [] h = ground arith
strcmp_flip_gt [] (b ∷ t) h = ground arith
strcmp_flip_gt (a ∷ s) [] h = refl
strcmp_flip_gt (a ∷ s) (b ∷ t) h = ground (arith, strcmp_flip_gt s t)

pub strcmp_trans :
    (s t u : CString)
    → strcmp s t ≡ Ordering.lt
    → strcmp t u ≡ Ordering.lt
    → strcmp s u ≡ Ordering.lt
unfolding strcmp
strcmp_trans [] [] u h k = ground arith
strcmp_trans [] (b ∷ t) [] h k = ground arith
strcmp_trans [] (b ∷ t) (c ∷ u) h k = refl
strcmp_trans (a ∷ s) [] u h k = ground arith
strcmp_trans (a ∷ s) (b ∷ t) [] h k = ground arith
strcmp_trans (a ∷ s) (b ∷ t) (c ∷ u) h k = ground (arith, strcmp_trans s t u)
