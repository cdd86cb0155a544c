-- ===== src/Message/Search/Known.antt =====
-- cmd/wmii/message.c: which of the tables that `_bsearch` is given it can search.
use Prim.Native.Nat.{Ordering}
use wmii.Base.{
  ℕ, zero, suc, ◌<◌, ◌≡◌, ◌≢◌, ◌↔◌, refl, Bool, true, false, ◌&&◌, List, [], ◌∷◌, arith, get_or,
  length,
}
use wmii.Base.Str.{CString, strcmp, strcmp_trans, codes}
use wmii.Message.Search.{found, missing, out_of_fuel, bsearch_loop}
use wmii.Message.Search.Tables.{symtab, barpostab, debugtab, permtab, incmodetab, modes}
use wmii.Message.Search.Sound.{IsSorted, bsearch-decides}

abbrev before : CString → CString → Bool
before s t = elim (strcmp s t) [ Ordering.lt ↦ true | _ ↦ false ]

unfoldable pub ascending : List CString → Bool
unfolding strcmp
ascending (s ∷ t ∷ tab) = before s t && ascending (t ∷ tab)
ascending _ = true

ascending-head :
    (s : CString) (tab : List CString) (j : ℕ)
    → ascending (s ∷ tab) ≡ true
    → j < length tab
    → strcmp s (get_or tab j []) ≡ Ordering.lt
unfolding ascending
ascending-head s [] j h p = absurd (omega arith)
ascending-head s (t ∷ tab) zero h p = ground arith
ascending-head s (t ∷ tab) (suc j) h p =
    strcmp_trans s t (get_or tab j []) (ground arith)
      (ascending-head t tab j (ground arith) (omega arith))

ascending-tail :
    (s : CString) (tab : List CString) → ascending (s ∷ tab) ≡ true → ascending tab ≡ true
unfolding ascending
ascending-tail s [] h = refl
ascending-tail s (t ∷ tab) h = ground arith

pub ascending-IsSorted : (tab : List CString) → ascending tab ≡ true → IsSorted tab
ascending-IsSorted [] h i j p q = absurd (omega arith)
ascending-IsSorted (s ∷ tab) h zero zero p q = absurd (omega arith)
ascending-IsSorted (s ∷ tab) h zero (suc j) p q = ascending-head s tab j h (omega arith)
ascending-IsSorted (s ∷ tab) h (suc i) zero p q = absurd (omega arith)
ascending-IsSorted (s ∷ tab) h (suc i) (suc j) p q =
    ascending-IsSorted tab (ascending-tail s tab h) i j (omega arith) (omega arith)

-- The search ends, and is exact on a table.
abbrev pub IsKnown : List CString → Type 0
IsKnown tab =
    (to : CString) (k : ℕ)
    → (bsearch_loop (suc (length tab)) to tab 0 (length tab) ≢ out_of_fuel)
      × ((bsearch_loop (suc (length tab)) to tab 0 (length tab) ≡ found k)
          ↔ ((k < length tab) × (get_or tab k [] ≡ to)))

known : (tab : List CString) → ascending tab ≡ true → IsKnown tab
known tab h to k =
    bsearch-decides to tab (suc (length tab)) k (ascending-IsSorted tab h) (omega arith)

-- `_bsearch` is exact on the symbols and on the bar positions, debug flags, permissions and increment
-- modes: it ends, and returns an index exactly where the folded text stands there. It is not on `modes`, whose
-- entries are out of order: it finds "default" and "stack", and never "max".
pub tables-IsKnown :
    IsKnown symtab
    × IsKnown barpostab
    × IsKnown debugtab
    × IsKnown permtab
    × IsKnown incmodetab
    × (bsearch_loop 4 (codes "default") modes 0 3 ≡ found 0)
    × (bsearch_loop 4 (codes "stack") modes 0 3 ≡ found 1)
    × (bsearch_loop 4 (codes "max") modes 0 3 ≡ missing)
unfolding ascending bsearch_loop
tables-IsKnown = (
  known symtab refl,
  known barpostab refl,
  known debugtab refl,
  known permtab refl,
  known incmodetab refl,
  refl,
  refl,
  refl,
)
