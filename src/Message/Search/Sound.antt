-- ===== src/Message/Search/Sound.antt =====
-- On a table in strict `strcmp` order the loop of `_bsearch` decides membership.
use Prim.Native.Nat.{Ordering}
use wmii.Base.{
  ℕ, zero, suc, ◌+◌, ◌-◌, ◌/◌, ◌<◌, ◌≤◌, ◌≡◌, ◌≢◌, ◌↔◌, ◌⊎◌, inl, inr, refl, Bool, true, false,
  List, [], arith, ◌==◌, get_or, length, sym, ap, ◌∙◌,
}
use mathlib.Core.Path.{subst}
use wmii.Base.Str.{CString, strcmp, strcmp_refl, strcmp_eq, strcmp_trans, strcmp_flip_gt}
use wmii.Message.Search.{Sought, found, missing, out_of_fuel, after_gt, narrow, probe, bsearch_loop}

abbrev pub IsSorted : List CString → Type 0
IsSorted tab =
    (i j : ℕ) → i < j → j < length tab → strcmp (get_or tab i []) (get_or tab j []) ≡ Ordering.lt

lt_irrefl : (s : CString) → strcmp s s ≢ Ordering.lt
lt_irrefl s h = cc (strcmp_refl s)

lt_or_eq : (m k : ℕ) → m ≤ k → (m < k) ⊎ (m ≡ k)
lt_or_eq m k h = omega arith

trichotomy : (j k : ℕ) → (j < k) ⊎ ((j ≡ k) ⊎ (k < j))
trichotomy j k = omega arith

inside : (i n k : ℕ) → ((i ≤ k) × (k < i + n)) ⊎ ((k < i) ⊎ (i + n ≤ k))
inside i n k = omega arith

-- What a search of tab[i .. i+n) returns.
abbrev Finds : CString → List CString → ℕ → ℕ → Sought → Type 0
Finds to tab i n missing = (k : ℕ) → i ≤ k → k < i + n → get_or tab k [] ≢ to
Finds to tab i n (found k) = (i ≤ k) × (k < i + n) × (get_or tab k [] ≡ to)
Finds to tab i n out_of_fuel = ⊥

module _ (to : CString) (tab : List CString) (sorted : IsSorted tab) where
  -- Nothing at or above an entry that is past `to`.
  above_ne :
      (m k : ℕ)
      → strcmp to (get_or tab m []) ≡ Ordering.lt
      → m ≤ k
      → k < length tab
      → get_or tab k [] ≢ to
  above_ne m k h p q e = elim (lt_or_eq m k p) [
    | inl l ↦ lt_irrefl to (
        subst (λ t. strcmp to t ≡ Ordering.lt) e
          (strcmp_trans to (get_or tab m []) (get_or tab k []) h (sorted m k l q)))
    | inr l ↦
        lt_irrefl to (subst (λ t. strcmp to t ≡ Ordering.lt) (ap (λ j. get_or tab j []) l ∙ e) h)
  ]

  below_ne :
      (m k : ℕ)
      → strcmp to (get_or tab m []) ≡ Ordering.gt
      → k ≤ m
      → m < length tab
      → get_or tab k [] ≢ to
  below_ne m k h p q e = elim (lt_or_eq k m p) [
    | inl l ↦ lt_irrefl to (
        subst (λ t. strcmp t to ≡ Ordering.lt) e
          (strcmp_trans (get_or tab k []) (get_or tab m []) to (sorted k m l q)
            (strcmp_flip_gt to (get_or tab m []) h)))
    | inr l ↦ lt_irrefl to (
        subst (λ t. strcmp t to ≡ Ordering.lt) (ap (λ j. get_or tab j []) (sym l) ∙ e)
          (strcmp_flip_gt to (get_or tab m []) h))
  ]

  Finds-wider :
      (i n i' n' : ℕ) (o : Sought)
      → Finds to tab i' n' o
      → i ≤ i'
      → i' + n' ≤ i + n
      → ((k : ℕ) → i ≤ k → k < i + n → (k < i') ⊎ (i' + n' ≤ k) → get_or tab k [] ≢ to)
      → Finds to tab i n o
  Finds-wider i n i' n' missing f a b out =
      λ k p q. elim (inside i' n' k) [ inl h ↦ f k h.0 h.1 | inr h ↦ out k p q h ]
  Finds-wider i n i' n' (found j) f a b out = (omega arith, omega arith, f.2)
  Finds-wider i n i' n' out_of_fuel f a b out = f

  module _ (i n : ℕ) (rec : ℕ → ℕ → Sought) (some_left : n ≢ 0) (fits : i + n ≤ length tab)
      (ih : (j k : ℕ) → k < n → j + k ≤ length tab → Finds to tab j k (rec j k)) where
    after_gt-Finds :
        (b : Bool)
        → (n / 2 == 0) ≡ b
        → strcmp to (get_or tab (i + n / 2) []) ≡ Ordering.gt
        → Finds to tab i n (after_gt rec i n (n / 2) b)
    unfolding after_gt
    after_gt-Finds true h e =
        Finds-wider i n i (n / 2) (rec i (n / 2)) (ih i (n / 2) (omega arith) (omega arith))
          (omega arith) (omega arith)
          (λ k p q out. below_ne (i + n / 2) k e (ground arith) (omega arith))
    after_gt-Finds false h e =
        Finds-wider i n (i + n / 2) (n - n / 2) (rec (i + n / 2) (n - n / 2))
          (ih (i + n / 2) (n - n / 2) (ground arith) (omega arith)) (omega arith) (omega arith)
          (λ k p q out. below_ne (i + n / 2) k e (omega arith) (omega arith))

    narrow-Finds :
        (o : Ordering)
        → strcmp to (get_or tab (i + n / 2) []) ≡ o
        → Finds to tab i n (narrow rec i n (n / 2) o)
    unfolding narrow
    narrow-Finds Ordering.eq e =
        (omega arith, omega arith, sym (strcmp_eq to (get_or tab (i + n / 2) []) e))
    narrow-Finds Ordering.lt e =
        Finds-wider i n i (n / 2) (rec i (n / 2)) (ih i (n / 2) (omega arith) (omega arith))
          (omega arith) (omega arith)
          (λ k p q out. above_ne (i + n / 2) k e (omega arith) (omega arith))
    narrow-Finds Ordering.gt e = after_gt-Finds (n / 2 == 0) refl e

  probe-Finds :
      (i n : ℕ) (rec : ℕ → ℕ → Sought)
      → i + n ≤ length tab
      → ((j k : ℕ) → k < n → j + k ≤ length tab → Finds to tab j k (rec j k))
      → (b : Bool) → (n == 0) ≡ b
      → Finds to tab i n (probe to tab rec i n b)
  unfolding probe
  probe-Finds i n rec fits ih true h = λ k p q. absurd (ground arith)
  probe-Finds i n rec fits ih false h =
      narrow-Finds i n rec (ground arith) fits ih (strcmp to (get_or tab (i + n / 2) [])) refl

  bsearch_loop-Finds :
      (fuel i n : ℕ)
      → n < fuel
      → i + n ≤ length tab
      → Finds to tab i n (bsearch_loop fuel to tab i n)
  unfolding bsearch_loop
  bsearch_loop-Finds zero i n h fits = absurd (omega arith)
  bsearch_loop-Finds (suc fuel) i n h fits =
      probe-Finds i n (bsearch_loop fuel to tab) fits
        (λ j k p q. bsearch_loop-Finds fuel j k (omega arith) q) (n == 0) refl

-- No text stands twice in a sorted table.
IsSorted-unique :
    (tab : List CString) (j k : ℕ)
    → IsSorted tab
    → j < length tab
    → k < length tab
    → get_or tab j [] ≡ get_or tab k []
    → j ≡ k
IsSorted-unique tab j k sorted p q e = elim (trichotomy j k) [
  | inl h ↦ absurd (
      lt_irrefl (get_or tab k [])
        (subst (λ t. strcmp t (get_or tab k []) ≡ Ordering.lt) e (sorted j k h q)))
  | inr (inl h) ↦ h
  | inr (inr h) ↦ absurd (
      lt_irrefl (get_or tab k [])
        (subst (λ t. strcmp (get_or tab k []) t ≡ Ordering.lt) e (sorted k j h p)))
]

Finds-found :
    (to : CString) (tab : List CString) (k : ℕ) (o : Sought)
    → IsSorted tab
    → Finds to tab 0 (length tab) o
    → k < length tab
    → get_or tab k [] ≡ to
    → o ≡ found k
Finds-found to tab k missing sorted f p e = absurd (f k (omega arith) (omega arith) e)
Finds-found to tab k (found j) sorted f p e =
    ap found (IsSorted-unique tab j k sorted (omega arith) p (f.2 ∙ sym e))
Finds-found to tab k out_of_fuel sorted f p e = absurd f

-- On a sorted table, with fuel above the table's length, the binary search ends before its fuel does,
-- and returns an index exactly where that is the index of the text, so -1 exactly where the table
-- lacks it.
pub bsearch-decides :
    (to : CString) (tab : List CString) (fuel k : ℕ)
    → IsSorted tab
    → length tab < fuel
    → (bsearch_loop fuel to tab 0 (length tab) ≢ out_of_fuel)
      × ((bsearch_loop fuel to tab 0 (length tab) ≡ found k)
          ↔ ((k < length tab) × (get_or tab k [] ≡ to)))
bsearch-decides to tab fuel k sorted m =
    let f = bsearch_loop-Finds to tab sorted fuel 0 (length tab) m (omega arith) in
    (
      λ e. subst (Finds to tab 0 (length tab)) e f,
      (
        λ e. let g = subst (Finds to tab 0 (length tab)) e f in (omega arith, g.2),
        λ h. Finds-found to tab k (bsearch_loop fuel to tab 0 (length tab)) sorted f h.0 h.1,
      ),
    )
