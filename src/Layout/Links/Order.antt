-- ===== src/Layout/Links/Order.antt =====
-- `frame_insert` and `frame_remove` implement insertion into and deletion from two lists.
use wmii.Base.{
  ℕ, ◌≡◌, refl, true, false, Option, none, some, List, [], ◌∷◌, ◌++◌, inl, inr, if◌then◌else◌, ap,
  sym, ◌∙◌, Bool-cases, subst,
}
use wmii.Layout.Links.{
  Links, put, put_at, same, Area, insert_order, remove_order, remove_stack, clear_stack,
  unlink_stack, link_stack, stays, frame_restack, frame_insert, frame_remove,
}
use wmii.Layout.Links.Lists.{
  Fresh, Distinct, Linked, put_same, Linked-put_next, Linked-put_prev, Linked-enter, put_head_other,
}
use wmii.Layout.Links.Insert.{Ordered, insert_order-behind, insert_order-first}
use wmii.Layout.Links.Remove.{unlink-deletes}

-- The stacking order, the topmost frame first. An area that does not float has none.
abbrev pub Stacked : Area → List ℕ → Type 0
Stacked a s = Linked a.snext a.sprev none a.stack s

-- No link leads from the frame.
abbrev pub Loose : Area → ℕ → Type 0
Loose a f = (a.aprev f ≡ none) × (a.snext f ≡ none) × (a.sprev f ≡ none)

not_head : (a : Area) (f : ℕ) (s : List ℕ) → Fresh f s → Stacked a s → same (some f) a.stack ≡ false
not_head a f [] n w = rw w refl
not_head a f (x ∷ s) (n, m) (h, q, w) = rw h n

put_at-none : (g : Links) (v : Option ℕ) → put_at g none v ≡ g
unfolding put_at
put_at-none g v = refl

-- A frame that is not stacked is put on top.
link_stack-top :
    (a : Area) (f : ℕ) (s : List ℕ)
    → Distinct s
    → Fresh f s
    → Stacked a s
    → Stacked (link_stack a f none) (f ∷ s)
unfolding link_stack
link_stack-top a f s d n w =
    let N1 = put a.snext f a.stack in
    let P1 = put a.sprev f none in
    let w1 = Linked-put_next a.snext a.sprev none a.stack s f a.stack n w in
    let w2 = Linked-put_prev N1 a.sprev none a.stack s f none n w1 in
    let w3 = Linked-enter N1 P1 none (some f) a.stack s d w2 in
    (
      refl,
      put_head_other P1 a.snext a.sprev none a.stack s (some f) f n w ∙ put_same a.sprev f none,
      subst (λ t. Linked N1 (put_at P1 a.stack (some f)) (some f) t s)
          (sym (put_same a.snext f a.stack)) w3,
    )

unlink_stack-loose :
    (a : Area) (f : ℕ) (s : List ℕ)
    → a.snext f ≡ none
    → a.sprev f ≡ none
    → Stacked a s
    → Stacked (unlink_stack a f) s
unfolding unlink_stack
unlink_stack-loose a f s e g w =
    rw (e, g) (rw (put_at-none a.snext none, put_at-none a.sprev none) w)

stays-new :
    (a : Area) (f : ℕ)
    → a.floating ≡ true
    → a.sprev f ≡ none
    → same (some f) a.stack ≡ false
    → stays a f none ≡ false
unfolding stays
stays-new a f e g h = rw (e, g, h) refl

frame_restack-top :
    (a : Area) (f : ℕ) (s : List ℕ)
    → a.floating ≡ true
    → Distinct s
    → Fresh f s
    → a.snext f ≡ none
    → a.sprev f ≡ none
    → Stacked a s
    → Stacked (frame_restack a f none) (f ∷ s)
unfolding frame_restack
frame_restack-top a f s fl d n e g w =
    subst (λ b. Stacked (if b then a else link_stack (unlink_stack a f) f none) (f ∷ s))
      (sym (stays-new a f fl g (not_head a f s n w)))
      (link_stack-top (unlink_stack a f) f s d n (unlink_stack-loose a f s e g w))

frame_restack-Ordered :
    (a : Area) (f : ℕ) (above : Option ℕ) (l : List ℕ)
    → Ordered a l
    → Ordered (frame_restack a f above) l
unfolding frame_restack link_stack unlink_stack
frame_restack-Ordered a f none l w = elim (Bool-cases (stays a f none)) [
  | inl e ↦ rw e w
  | inr e ↦ rw e w
]
frame_restack-Ordered a f (some g) l w = elim (Bool-cases (stays a f (some g))) [
  | inl e ↦ rw e w
  | inr e ↦ rw e w
]

-- The order and the stacking order of a floating area behind an insertion.
insert-floating :
    (a b : Area) (f : ℕ) (l s : List ℕ)
    → Ordered b l
    → b.floating ≡ true
    → (b.snext ≡ a.snext) × (b.sprev ≡ a.sprev) × (b.stack ≡ a.stack)
    → Distinct s
    → Fresh f s
    → a.snext f ≡ none
    → a.sprev f ≡ none
    → Stacked a s
    → Ordered (frame_restack b f none) l × Stacked (frame_restack b f none) (f ∷ s)
insert-floating a b f l s o fl (e, g, h) d n x y w = (
  frame_restack-Ordered b f none l o,
  frame_restack-top b f s fl d n (ap (λ t. t f) e ∙ x) (ap (λ t. t f) g ∙ y) (
      subst (λ t. Linked t b.sprev none b.stack s) (sym e)
        (subst (λ t. Linked a.snext t none b.stack s) (sym g)
          (subst (λ t. Linked a.snext a.sprev none t s) (sym h) w))),
)

-- In a floating area whose two lists are doubly linked without repetition, and for a frame `f` of
-- neither list whose `aprev`, `snext` and `sprev` are nil, `frame_insert(f, pos)` puts `f` right
-- behind `pos` in the area's order and on top of the stacking order; the two lists stay doubly
-- linked and keep their other frames in order.
pub frame_insert-floating :
    (a : Area) (f p : ℕ) (xs ys s : List ℕ)
    → a.floating ≡ true
    → Distinct (xs ++ (p ∷ ys))
    → Fresh f (xs ++ (p ∷ ys))
    → Ordered a (xs ++ (p ∷ ys))
    → Distinct s
    → Fresh f s
    → Stacked a s
    → Loose a f
    → Ordered (frame_insert a f (some p)) (xs ++ (p ∷ (f ∷ ys)))
      × Stacked (frame_insert a f (some p)) (f ∷ s)
unfolding frame_insert insert_order
frame_insert-floating a f p xs ys s fl d n w ds ns ws (q, x, y) =
    let b = insert_order a f (some p) in
    subst
      (λ t.
        Ordered (if t then frame_restack b f none else b) (xs ++ (p ∷ (f ∷ ys)))
        × Stacked (if t then frame_restack b f none else b) (f ∷ s))
      (sym fl)
      (insert-floating a b f (xs ++ (p ∷ (f ∷ ys))) s (insert_order-behind a f p xs ys d n w) fl
        (refl, refl, refl) ds ns x y ws)

-- In a column whose frames are doubly linked without repetition, and for another frame `f` whose
-- `aprev` is nil, `frame_insert(f, pos)` puts `f` right behind `pos`, or first without `pos`; the
-- list stays doubly linked and keeps its other frames in order.
frame_insert-column :
    (a : Area) (f p : ℕ) (xs ys : List ℕ)
    → a.floating ≡ false
    → Distinct (xs ++ (p ∷ ys))
    → Fresh f (xs ++ (p ∷ ys))
    → Ordered a (xs ++ (p ∷ ys))
    → a.aprev f ≡ none
    → Ordered (frame_insert a f (some p)) (xs ++ (p ∷ (f ∷ ys)))
      × Ordered (frame_insert a f none) (f ∷ (xs ++ (p ∷ ys)))
unfolding frame_insert insert_order
frame_insert-column a f p xs ys fl d n w e =
    let b = insert_order a f (some p) in
    let c = insert_order a f none in
    let l = xs ++ (p ∷ ys) in
    (
      subst (λ t. Ordered (if t then frame_restack b f none else b) (xs ++ (p ∷ (f ∷ ys)))) (sym fl)
          (insert_order-behind a f p xs ys d n w),
      subst (λ t. Ordered (if t then frame_restack c f none else c) (f ∷ l)) (sym fl)
          (insert_order-first a f l d n e w),
    )

-- In an area whose lists are doubly linked without repetition, `frame_remove` takes `f` out of the
-- area's order and, where the area floats, out of the stacking order; the lists stay doubly linked
-- and keep their other frames in order.
pub frame_remove-deletes :
    (a : Area) (f : ℕ) (xs ys s t : List ℕ)
    → Distinct (xs ++ (f ∷ ys))
    → Ordered a (xs ++ (f ∷ ys))
    → Distinct (s ++ (f ∷ t))
    → (a.floating ≡ true → Stacked a (s ++ (f ∷ t)))
    → Ordered (frame_remove a f) (xs ++ ys)
      × (a.floating ≡ true → Stacked (frame_remove a f) (s ++ t))
unfolding frame_remove remove_order remove_stack clear_stack
frame_remove-deletes a f xs ys s t d w e v = elim (Bool-cases a.floating) [
  | inl g ↦ rw g (
    unlink-deletes a.anext a.aprev a.frame f xs ys d w,
    λ h. unlink-deletes a.snext a.sprev a.stack f s t e (v g),
  )
  | inr g ↦ rw g (unlink-deletes a.anext a.aprev a.frame f xs ys d w, λ h. absurd (cc h))
]
