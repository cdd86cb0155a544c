-- ===== src/Bar/Sorted.antt =====
-- `bar_create` keeps the bars sorted by their names.
use Prim.Native.Nat.{Ordering}
use wmii.Base.{ℕ, ◌≡◌, ◌≢◌, refl, Option, none, some, List, [], ◌∷◌, inl, inr, ap, sym, ◌∙◌}
use wmii.Base.Str.{CString, strcmp, strcmp_refl, strcmp_flip_gt, strcmp_trans, Ordering-cases}
use wmii.Bar.{Bar, Bars, by_equal, by_order, bar_find, bar_place, create_from, bar_create}

-- Every name of the list is greater than `s`.
abbrev pub After : CString → List Bar → Type 0
After s [] = Unit {0}
After s (b ∷ l) = (strcmp s b.name ≡ Ordering.lt) × After s l

abbrev pub Sorted : List Bar → Type 0
Sorted [] = Unit {0}
Sorted (b ∷ l) = After b.name l × Sorted l

After-trans : (s t : CString) (l : List Bar) → strcmp s t ≡ Ordering.lt → After t l → After s l
After-trans s t [] h a = tt
After-trans s t (b ∷ l) h (k, a) = (strcmp_trans s t b.name h k, After-trans s t l h a)

-- One step of the loop that places a bar.
place-lt :
    (new b : Bar) (name : CString) (l : List Bar)
    → strcmp b.name name ≡ Ordering.lt
    → bar_place new name (b ∷ l) ≡ b ∷ bar_place new name l
unfolding bar_place
place-lt new b name l h = ap (λ o. by_order o (b ∷ bar_place new name l) (new ∷ (b ∷ l))) h

place-eq :
    (new b : Bar) (name : CString) (l : List Bar)
    → strcmp b.name name ≡ Ordering.eq
    → bar_place new name (b ∷ l) ≡ new ∷ (b ∷ l)
unfolding bar_place
place-eq new b name l h = ap (λ o. by_order o (b ∷ bar_place new name l) (new ∷ (b ∷ l))) h

place-gt :
    (new b : Bar) (name : CString) (l : List Bar)
    → strcmp b.name name ≡ Ordering.gt
    → bar_place new name (b ∷ l) ≡ new ∷ (b ∷ l)
unfolding bar_place
place-gt new b name l h = ap (λ o. by_order o (b ∷ bar_place new name l) (new ∷ (b ∷ l))) h

find-eq :
    (b : Bar) (name : CString) (l : List Bar)
    → strcmp b.name name ≡ Ordering.eq
    → bar_find (b ∷ l) name ≡ some b
unfolding bar_find
find-eq b name l h = ap (λ o. by_equal o (some b) (bar_find l name)) h

find-lt :
    (b : Bar) (name : CString) (l : List Bar)
    → strcmp b.name name ≡ Ordering.lt
    → bar_find (b ∷ l) name ≡ bar_find l name
unfolding bar_find
find-lt b name l h = ap (λ o. by_equal o (some b) (bar_find l name)) h

find-gt :
    (b : Bar) (name : CString) (l : List Bar)
    → strcmp b.name name ≡ Ordering.gt
    → bar_find (b ∷ l) name ≡ bar_find l name
unfolding bar_find
find-gt b name l h = ap (λ o. by_equal o (some b) (bar_find l name)) h

some-none : (b : Bar) → some b ≢ none
some-none b e = cc

After-place :
    (s : CString) (new : Bar) (name : CString) (l : List Bar)
    → strcmp s new.name ≡ Ordering.lt
    → After s l
    → After s (bar_place new name l)
unfolding bar_place
After-place s new name [] h a = (h, tt)
After-place s new name (b ∷ l) h (k, a) = elim (Ordering-cases (strcmp b.name name)) [
  | inl e ↦ rw (place-lt new b name l e) (k, After-place s new name l h a)
  | inr (inl e) ↦ rw (place-eq new b name l e) (h, (k, a))
  | inr (inr e) ↦ rw (place-gt new b name l e) (h, (k, a))
]

Sorted-place :
    (new : Bar) (l : List Bar)
    → Sorted l
    → bar_find l new.name ≡ none
    → Sorted (bar_place new new.name l)
unfolding bar_place
Sorted-place new [] s h = (tt, tt)
Sorted-place new (b ∷ l) (a, s) h = elim (Ordering-cases (strcmp b.name new.name)) [
  | inl e ↦ rw (place-lt new b new.name l e) (
    After-place b.name new new.name l e a,
    Sorted-place new l s (sym (find-lt b new.name l e) ∙ h),
  )
  | inr (inl e) ↦ absurd (some-none b (sym (find-eq b new.name l e) ∙ h))
  | inr (inr e) ↦
      (let k = strcmp_flip_gt b.name new.name e in
        rw (place-gt new b new.name l e) ((k, After-trans new.name b.name l k a), (a, s)))
]

find-place :
    (new : Bar) (l : List Bar)
    → bar_find l new.name ≡ none
    → bar_find (bar_place new new.name l) new.name ≡ some new
unfolding bar_place
find-place new [] h = find-eq new new.name [] (strcmp_refl new.name)
find-place new (b ∷ l) h = elim (Ordering-cases (strcmp b.name new.name)) [
  | inl e ↦
      ap (λ t. bar_find t new.name) (place-lt new b new.name l e)
      ∙ (find-lt b new.name (bar_place new new.name l) e
          ∙ find-place new l (sym (find-lt b new.name l e) ∙ h))
  | inr (inl e) ↦ absurd (some-none b (sym (find-eq b new.name l e) ∙ h))
  | inr (inr e) ↦
      ap (λ t. bar_find t new.name) (place-gt new b new.name l e)
      ∙ find-eq new new.name (b ∷ l) (strcmp_refl new.name)
]

find-skip :
    (b : Bar) (name : CString) (l : List Bar)
    → strcmp b.name name ≢ Ordering.eq
    → bar_find (b ∷ l) name ≡ bar_find l name
find-skip b name l h = elim (Ordering-cases (strcmp b.name name)) [
  | inl e ↦ find-lt b name l e
  | inr (inl e) ↦ absurd (h e)
  | inr (inr e) ↦ find-gt b name l e
]

find_behind :
    (b : Bar) (name : CString) (l m : List Bar)
    → bar_find l name ≡ bar_find m name
    → bar_find (b ∷ l) name ≡ bar_find (b ∷ m) name
unfolding bar_find
find_behind b name l m h = ap (by_equal (strcmp b.name name) (some b)) h

-- Another name is found as before.
find-other :
    (new : Bar) (l : List Bar) (name : CString)
    → strcmp new.name name ≢ Ordering.eq
    → bar_find (bar_place new new.name l) name ≡ bar_find l name
unfolding bar_place
find-other new [] name h = find-skip new name [] h
find-other new (b ∷ l) name h = elim (Ordering-cases (strcmp b.name new.name)) [
  | inl e ↦
      ap (λ t. bar_find t name) (place-lt new b new.name l e)
      ∙ find_behind b name (bar_place new new.name l) l (find-other new l name h)
  | inr (inl e) ↦
      ap (λ t. bar_find t name) (place-eq new b new.name l e) ∙ find-skip new name (b ∷ l) h
  | inr (inr e) ↦
      ap (λ t. bar_find t name) (place-gt new b new.name l e) ∙ find-skip new name (b ∷ l) h
]

-- What `bar_create` promises.
pub record Created (l : List Bar) (name : CString) (w : Bars) : Type 0 where
  sorted : Sorted w.bars
  found : bar_find w.bars name ≡ some w.made
  others :
      (other : CString) → strcmp name other ≢ Ordering.eq → bar_find w.bars other ≡ bar_find l other

Created-from :
    (stored : CString → CString) (l : List Bar) (id : ℕ) (name : CString) (o : Option Bar)
    → stored name ≡ name
    → Sorted l
    → bar_find l name ≡ o
    → Created l name (create_from stored l id name o)
unfolding create_from
Created-from stored l id name (some b) e s f = record {
  sorted = s;
  found = f;
  others = λ other h. refl;
}
Created-from stored l id name none e s f =
    let new : Bar = record { id = id; name = name } in
    rw e (record {
      sorted = Sorted-place new l s f;
      found = find-place new l f;
      others = λ other h. find-other new l other h;
    })

-- Where the name is short enough that a bar keeps it whole, `bar_create` of a sorted list leaves a
-- sorted list in which the name leads to the bar that it returns, and every other name to the bar it
-- led to before.
pub bar_create-Created :
    (stored : CString → CString) (l : List Bar) (id : ℕ) (name : CString)
    → stored name ≡ name
    → Sorted l
    → Created l name (bar_create stored l id name)
unfolding bar_create
bar_create-Created stored l id name e s = Created-from stored l id name (bar_find l name) e s refl
