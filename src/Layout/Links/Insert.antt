-- ===== src/Layout/Links/Insert.antt =====
-- the order of an area's frames when one is inserted.
use wmii.Base.{
  ℕ, ◌≡◌, refl, false, Option, none, some, List, ◌∷◌, ◌++◌, ◌==◌, arith, ap, sym, ◌∙◌, subst,
}
use wmii.Layout.Links.{Links, put, put_at, Area, insert_order}
use wmii.Layout.Links.Lists.{
  Fresh, Distinct, Seg, Linked, Apart, put_same, put_other, Linked-put_next, Linked-put_prev,
  Seg-put_next, Seg-put_prev, Linked-split, Linked-join, Linked-enter, Fresh-append,
  Distinct-append, Apart-cons, Seg-put_head, put_head_other,
}

-- The order of the frames of an area.
abbrev pub Ordered : Area → List ℕ → Type 0
Ordered a l = Linked a.anext a.aprev none a.frame l

neq_sym : (f p : ℕ) → (f == p) ≡ false → (p == f) ≡ false
neq_sym f p h = ground (arith, h)

module _ (N P : Links) (f p : ℕ) where
  abbrev next_in : Links
  next_in = put_at (put N f (N p)) (some p) (some f)

  abbrev prev_in : Links
  prev_in = put_at (put P f (some p)) (N p) (some f)

  -- The frames up to `p` are as they were.
  insert-Seg :
      (h : Option ℕ) (xs ys : List ℕ) (z : Option ℕ)
      → Fresh f xs
      → Apart xs (p ∷ ys)
      → Linked N P (some p) (N p) ys
      → Seg N P none h xs (some p) z
      → Seg next_in prev_in none h xs (some p) z
  unfolding put_at
  insert-Seg h xs ys z nx ap l s =
      let (px, ax) = Apart-cons xs p ys ap in
      let N1 = put N f (N p) in
      let N2 = put N1 p (some f) in
      let s1 = Seg-put_next N P none h xs (some p) z f (N p) nx s in
      let s2 = Seg-put_next N1 P none h xs (some p) z p (some f) px s1 in
      let s3 = Seg-put_prev N2 P none h xs (some p) z f (some p) nx s2 in
      Seg-put_head N2 (put P f (some p)) none h xs (some p) z N P (some p) (N p) ys (some f) ax l s3

  -- The frames behind `p` are entered from `f`.
  insert-Linked :
      (ys : List ℕ)
      → Fresh f ys
      → Fresh p ys
      → Distinct ys
      → Linked N P (some p) (N p) ys
      → Linked next_in prev_in (some f) (N p) ys
  unfolding put_at
  insert-Linked ys ny py d l =
      let N1 = put N f (N p) in
      let N2 = put N1 p (some f) in
      let l1 = Linked-put_next N P (some p) (N p) ys f (N p) ny l in
      let l2 = Linked-put_next N1 P (some p) (N p) ys p (some f) py l1 in
      let l3 = Linked-put_prev N2 P (some p) (N p) ys f (some p) ny l2 in
      Linked-enter N2 (put P f (some p)) (some p) (some f) (N p) ys d l3

  insert-links :
      (ys : List ℕ)
      → (f == p) ≡ false
      → Fresh f ys
      → Fresh p ys
      → Linked N P (some p) (N p) ys
      → (prev_in p ≡ P p) × (next_in p ≡ some f) × (prev_in f ≡ some p) × (next_in f ≡ N p)
  unfolding put_at
  insert-links ys e ny py l =
      let P1 = put P f (some p) in
      let N1 = put N f (N p) in
      (
        put_head_other P1 N P (some p) (N p) ys (some f) p py l ∙ put_other P f p (some p) e,
        put_same N1 p (some f),
        put_head_other P1 N P (some p) (N p) ys (some f) f ny l ∙ put_same P f (some p),
        put_other N1 p f (some f) (neq_sym f p e) ∙ put_same N f (N p),
      )

-- A frame is put behind `p`.
pub insert_order-behind :
    (a : Area) (f p : ℕ) (xs ys : List ℕ)
    → Distinct (xs ++ (p ∷ ys))
    → Fresh f (xs ++ (p ∷ ys))
    → Ordered a (xs ++ (p ∷ ys))
    → Ordered (insert_order a f (some p)) (xs ++ (p ∷ (f ∷ ys)))
unfolding insert_order
insert_order-behind a f p xs ys d n w =
    let N = a.anext in
    let P = a.aprev in
    let (s, l) = Linked-split N P none a.frame xs p ys w in
    let (dx, (py, dy), ap) = Distinct-append xs (p ∷ ys) d in
    let (nx, (e, ny)) = Fresh-append f xs (p ∷ ys) n in
    let (t0, t1, t2, t3) = insert-links N P f p ys e ny py l in
    let tail = insert-Linked N P f p ys ny py dy l in
    Linked-join (next_in N P f p) (prev_in N P f p) none a.frame xs (p ∷ (f ∷ ys)) (some p) (P p)
      (insert-Seg N P f p a.frame xs ys (P p) nx ap l s) (refl, t0, (t1, t2, rw t3 tail))

first-Linked :
    (N P : Links) (h o : Option ℕ) (f : ℕ) (l : List ℕ)
    → o ≡ none
    → Distinct l
    → Fresh f l
    → Linked N P none h l
    → Linked (put_at (put N f h) o (some f)) (put_at P h (some f)) (some f) h l
unfolding put_at
first-Linked N P h none f l e d n w =
    Linked-enter (put N f h) P none (some f) h l d (Linked-put_next N P none h l f h n w)
first-Linked N P h (some k) f l e d n w = absurd (cc e)

first-next : (N : Links) (h o : Option ℕ) (f : ℕ) → o ≡ none → put_at (put N f h) o (some f) f ≡ h
unfolding put_at
first-next N h none f e = put_same N f h
first-next N h (some k) f e = absurd (cc e)

-- A frame that no link leads to is put first.
pub insert_order-first :
    (a : Area) (f : ℕ) (l : List ℕ)
    → Distinct l
    → Fresh f l
    → a.aprev f ≡ none
    → Ordered a l
    → Ordered (insert_order a f none) (f ∷ l)
unfolding insert_order
insert_order-first a f l d n e w =
    let N1 = put_at (put a.anext f a.frame) (a.aprev f) (some f) in
    let P1 = put_at a.aprev a.frame (some f) in
    (
      refl,
      put_head_other a.aprev a.anext a.aprev none a.frame l (some f) f n w ∙ e,
      subst (λ h. Linked N1 P1 (some f) h l) (sym (first-next a.anext a.frame (a.aprev f) f e))
          (first-Linked a.anext a.aprev a.frame (a.aprev f) f l e d n w),
    )
