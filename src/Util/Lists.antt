-- ===== src/Util/Lists.antt =====
-- lib/libstuff/util/uniq.c, comm.c and grep.c: lists of strings, which end at a nil pointer.
pub mod Comm
pub mod Uniq
pub mod Order
use Prim.Native.Nat.{Ordering}
use wmii.Base.{ℕ, ◌≡◌, ◌/◌, ◌%◌, Bool, true, false, List, [], ◌∷◌, ◌||◌, ◌==◌, if◌then◌else◌}
use wmii.Base.Str.{CString, strcmp, streq}

-- The loop of `uniq` behind `*q`.
unfoldable pub uniq_from : CString → List CString → List CString
uniq_from q [] = []
uniq_from q (p ∷ r) = elim (streq q p) [ true ↦ uniq_from q r | false ↦ p ∷ uniq_from p r ]

unfoldable pub uniq : List CString → List CString
unfolding uniq_from
uniq [] = []
uniq (q ∷ r) = q ∷ uniq_from q r

-- CLeft, CCenter and CRight are bits 0, 1 and 2 of `cols`.
unfoldable pub left : ℕ → Bool
left cols = cols % 2 == 1

unfoldable pub center : ℕ → Bool
center cols = cols / 2 % 2 == 1

unfoldable pub right : ℕ → Bool
right cols = cols / 4 % 2 == 1

abbrev pub push_if : Bool → CString → List CString → List CString
push_if true s l = s ∷ l
push_if false s l = l

-- `comm(cols, toka, tokb)`
unfoldable pub comm : ℕ → List CString → List CString → List CString
unfolding strcmp
comm cols [] [] = []
comm cols [] (b ∷ bs) = push_if (right cols) b (comm cols [] bs)
comm cols (a ∷ xs) [] = push_if (left cols) a (comm cols xs [])
comm cols (a ∷ xs) (b ∷ bs) = elim (strcmp a b) [
  | Ordering.lt ↦ push_if (left cols) a (comm cols xs (b ∷ bs))
  | Ordering.gt ↦ push_if (right cols) b (comm cols (a ∷ xs) bs)
  | Ordering.eq ↦ push_if (center cols) a (comm cols xs bs)
]

-- `grep(list, re, flags)`: `matches` is the library's regexec on `re`, and `none` for no pattern;
-- `invert` is `flags & GInvert`.
unfoldable pub grep : (CString → Bool) → Bool → List CString → List CString
grep matches invert [] = []
grep matches invert (p ∷ l) = elim (matches p) [
  | true ↦ elim invert [ true ↦ grep matches invert l | false ↦ p ∷ grep matches invert l ]
  | false ↦ elim invert [ true ↦ p ∷ grep matches invert l | false ↦ grep matches invert l ]
]

-- Membership by `strcmp`, and strict order.
unfoldable pub mem : CString → List CString → Bool
mem x [] = false
mem x (y ∷ l) = streq x y || mem x l

abbrev pub Above : CString → List CString → Type 0
Above x [] = Unit {0}
Above x (y ∷ l) = (strcmp x y ≡ Ordering.lt) × Above x l

abbrev pub Ascending : List CString → Type 0
Ascending [] = Unit {0}
Ascending (x ∷ l) = Above x l × Ascending l
