-- ===== src/Geom/Unique/Space.antt =====
-- The rectangles of `unique_rects` cover the free points of the screen and no others.
use wmii.Base.{
  ◌≡◌, refl, Bool, true, false, List, [], ◌∷◌, ◌&&◌, ◌||◌, not, arith, if◌then◌else◌, Bool-cases,
  inl, inr, ◌∙◌, sym, ap,
}
use wmii.Base.Int.{ℤ, ltb_ℤ, leb_ℤ}
use wmii.Geom.Rects.{haspoint-Has, contains-Has, intersect-Has}
use wmii.Geom.{Point, Rectangle, rect, rect_contains_p, rect_haspoint_p, rect_intersect_p}
use wmii.Geom.Unique.{rect_push, push_if, carve, carve_all, carve_each, unique_rects, covers}

apart :
    (r1 r2 : Rectangle) (p : Point)
    → rect_intersect_p r1 r2 ≡ false
    → rect_haspoint_p r2 p ≡ true
    → rect_haspoint_p r1 p ≡ false
apart r1 r2 p h k = elim (Bool-cases (rect_haspoint_p r1 p)) [
  | inl e ↦
      let t = intersect-Has r1 r2 p ((haspoint-Has r1 p).0 e) ((haspoint-Has r2 p).0 k) in cc (t, h)
  | inr e ↦ e
]

or_false : (b : Bool) → (b || false) ≡ b
or_false true = refl
or_false false = refl

-- `covers` over points that a rectangle or a list is known to hold, as a test.
abbrev has : Rectangle → Point → Bool
has r p = rect_haspoint_p r p

inside_of :
    (r r2 : Rectangle) (p : Point)
    → rect_contains_p r r2 ≡ true
    → (has r2 p && not (has r p)) ≡ false
inside_of r r2 p h = elim (Bool-cases (has r2 p)) [
  | inl e ↦
      let t = (haspoint-Has r p).1 (contains-Has r r2 h p ((haspoint-Has r2 p).0 e)) in rw (e, t)
  | inr e ↦ rw e
]

-- The three ways that a push ends.
push_case :
    (a b : Bool) (rp r : Rectangle) (vec rest : List Rectangle) (p : Point)
    → rect_contains_p rp r ≡ a
    → rect_contains_p r rp ≡ b
    → covers rest p ≡ (covers vec p || has r p)
    → covers (if a then rp ∷ vec else if b then r ∷ vec else rp ∷ rest) p
      ≡ ((has rp p || covers vec p) || has r p)
unfolding covers
push_case true b rp r vec rest p e f ih = ground (arith, inside_of rp r p e)
push_case false true rp r vec rest p e f ih = ground (arith, inside_of r rp p f)
push_case false false rp r vec rest p e f ih = ground (arith, ih)

covers-rect_push :
    (vec : List Rectangle) (r : Rectangle) (p : Point)
    → covers (rect_push vec r) p ≡ (covers vec p || has r p)
unfolding covers rect_push
covers-rect_push [] r p = or_false (has r p)
covers-rect_push (rp ∷ vec) r p =
    push_case (rect_contains_p rp r) (rect_contains_p r rp) rp r vec (rect_push vec r) p refl refl
      (covers-rect_push vec r p)

covers-push_if :
    (b : Bool) (v : List Rectangle) (r : Rectangle) (p : Point)
    → covers (push_if b v r) p ≡ (covers v p || (b && has r p))
covers-push_if true v r p = covers-rect_push v r p
covers-push_if false v r p = sym (or_false (covers v p))

-- On one axis, the part of [lo2, hi2) on either side of [lo1, hi1).
low_side :
    (lo1 lo2 hi2 x : ℤ)
    → leb_ℤ lo1 hi2 ≡ true
    → (ltb_ℤ lo2 lo1 && (leb_ℤ lo2 x && ltb_ℤ x lo1))
      ≡ ((leb_ℤ lo2 x && ltb_ℤ x hi2) && not (leb_ℤ lo1 x))
low_side lo1 lo2 hi2 x h = ground arith

high_side :
    (hi1 lo2 hi2 x : ℤ)
    → leb_ℤ lo2 hi1 ≡ true
    → (ltb_ℤ hi1 hi2 && (leb_ℤ hi1 x && ltb_ℤ x hi2))
      ≡ ((leb_ℤ lo2 x && ltb_ℤ x hi2) && not (ltb_ℤ x hi1))
high_side hi1 lo2 hi2 x h = ground arith

-- The pieces of a product of two intervals around another.
around :
    (x2 y2 a b c d : Bool)
    → (((x2 && not a) && y2)
        || ((x2 && (y2 && not c)) || (((x2 && not b) && y2) || (x2 && (y2 && not d)))))
      ≡ ((x2 && y2) && not ((a && b) && (c && d)))
around true true true true true true = refl
around x2 y2 a b c d = ground arith

regroup : (l a y : Bool) → (l && (a && y)) ≡ ((l && a) && y)
regroup true a y = refl
regroup false a y = refl

swap_in : (l a y : Bool) → (l && (a && y)) ≡ (a && (l && y))
swap_in true true y = refl
swap_in true false y = refl
swap_in false true y = refl
swap_in false false y = refl

-- The four pieces together, where the rectangles meet.
pieces : (r1 r2 : Rectangle) (p : Point) → Bool
pieces r1 r2 p =
    (ltb_ℤ r2.min_x r1.min_x && has (rect r2.min_x r2.min_y r1.min_x r2.max_y) p)
    || ((ltb_ℤ r2.min_y r1.min_y && has (rect r2.min_x r2.min_y r2.max_x r1.min_y) p)
        || ((ltb_ℤ r1.max_x r2.max_x && has (rect r1.max_x r2.min_y r2.max_x r2.max_y) p)
            || (ltb_ℤ r1.max_y r2.max_y && has (rect r2.min_x r1.max_y r2.max_x r2.max_y) p)))

record Meets (r1 r2 : Rectangle) : Type 0 where
  low_x : leb_ℤ r1.min_x r2.max_x ≡ true
  high_x : leb_ℤ r2.min_x r1.max_x ≡ true
  low_y : leb_ℤ r1.min_y r2.max_y ≡ true
  high_y : leb_ℤ r2.min_y r1.max_y ≡ true

and4 :
    (a b c d : Bool)
    → (a && (b && (c && d))) ≡ true
    → (a ≡ true) × (b ≡ true) × (c ≡ true) × (d ≡ true)
and4 a b c d h = ground arith

Meets-of : (r1 r2 : Rectangle) → rect_intersect_p r1 r2 ≡ true → Meets r1 r2
unfolding rect_intersect_p
Meets-of r1 r2 h =
    let t =
      and4 (leb_ℤ r1.min_x r2.max_x) (leb_ℤ r2.min_x r1.max_x) (leb_ℤ r1.min_y r2.max_y)
        (leb_ℤ r2.min_y r1.max_y) h in
    record { low_x = t.0; high_x = t.1; low_y = t.2; high_y = t.3 }

pieces-minus :
    (r1 r2 : Rectangle) (p : Point) → Meets r1 r2 → pieces r1 r2 p ≡ (has r2 p && not (has r1 p))
unfolding pieces rect_haspoint_p
pieces-minus r1 r2 p m =
    rw
      (
        regroup (ltb_ℤ r2.min_x r1.min_x) (leb_ℤ r2.min_x p.x && ltb_ℤ p.x r1.min_x)
            (leb_ℤ r2.min_y p.y && ltb_ℤ p.y r2.max_y),
        low_side r1.min_x r2.min_x r2.max_x p.x m.low_x,
        swap_in (ltb_ℤ r2.min_y r1.min_y) (leb_ℤ r2.min_x p.x && ltb_ℤ p.x r2.max_x)
            (leb_ℤ r2.min_y p.y && ltb_ℤ p.y r1.min_y),
        low_side r1.min_y r2.min_y r2.max_y p.y m.low_y,
        regroup (ltb_ℤ r1.max_x r2.max_x) (leb_ℤ r1.max_x p.x && ltb_ℤ p.x r2.max_x)
            (leb_ℤ r2.min_y p.y && ltb_ℤ p.y r2.max_y),
        high_side r1.max_x r2.min_x r2.max_x p.x m.high_x,
        swap_in (ltb_ℤ r1.max_y r2.max_y) (leb_ℤ r2.min_x p.x && ltb_ℤ p.x r2.max_x)
            (leb_ℤ r1.max_y p.y && ltb_ℤ p.y r2.max_y),
        high_side r1.max_y r2.min_y r2.max_y p.y m.high_y,
      )
      (around (leb_ℤ r2.min_x p.x && ltb_ℤ p.x r2.max_x) (leb_ℤ r2.min_y p.y && ltb_ℤ p.y r2.max_y)
        (leb_ℤ r1.min_x p.x) (ltb_ℤ p.x r1.max_x) (leb_ℤ r1.min_y p.y) (ltb_ℤ p.y r1.max_y))

or_assoc4 : (a b c d : Bool) → (((a || b) || c) || d) ≡ (a || (b || (c || d)))
or_assoc4 true b c d = refl
or_assoc4 false true c d = refl
or_assoc4 false false c d = refl

-- A rectangle that does not meet the obstacle loses nothing.
alone :
    (r1 r2 : Rectangle) (p : Point)
    → rect_intersect_p r1 r2 ≡ false
    → has r2 p ≡ (has r2 p && not (has r1 p))
alone r1 r2 p h = elim (Bool-cases (has r2 p)) [ inl e ↦ rw (e, apart r1 r2 p h e) | inr e ↦ rw e ]

or_last : (a b c d e : Bool) → ((((a || b) || c) || d) || e) ≡ (a || (b || (c || (d || e))))
or_last true b c d e = refl
or_last false b c d e = or_assoc4 b c d e

covers-pieces :
    (r1 r2 : Rectangle) (v2 : List Rectangle) (p : Point)
    → let a = push_if (ltb_ℤ r2.min_x r1.min_x) v2 (rect r2.min_x r2.min_y r1.min_x r2.max_y) in
      let b = push_if (ltb_ℤ r2.min_y r1.min_y) a (rect r2.min_x r2.min_y r2.max_x r1.min_y) in
      let c = push_if (ltb_ℤ r1.max_x r2.max_x) b (rect r1.max_x r2.min_y r2.max_x r2.max_y) in
      covers (push_if (ltb_ℤ r1.max_y r2.max_y) c (rect r2.min_x r1.max_y r2.max_x r2.max_y)) p
      ≡ (covers v2 p || pieces r1 r2 p)
unfolding pieces
covers-pieces r1 r2 v2 p =
    rw (covers-push_if, covers-push_if, covers-push_if, covers-push_if)
      (or_last (covers v2 p) _ _ _ _)

covers-carve :
    (r1 : Rectangle) (v2 : List Rectangle) (r2 : Rectangle) (p : Point)
    → covers (carve r1 v2 r2) p ≡ (covers v2 p || (has r2 p && not (has r1 p)))
unfolding carve
covers-carve r1 v2 r2 p = elim (Bool-cases (rect_intersect_p r1 r2)) [
  | inl e ↦ rw e (
      covers-pieces r1 r2 v2 p
      ∙ ap (λ t. covers v2 p || t) (pieces-minus r1 r2 p (Meets-of r1 r2 e)))
  | inr e ↦ rw e (covers-rect_push v2 r2 p ∙ ap (λ t. covers v2 p || t) (alone r1 r2 p e))
]

-- What a list covers outside the obstacle.
minus_or : (a b c n : Bool) → ((a || (b && n)) || (c && n)) ≡ (a || ((b || c) && n))
minus_or true b c n = refl
minus_or false true c true = refl
minus_or false true true false = refl
minus_or false true false false = refl
minus_or false false c n = refl

covers-carve_all :
    (r1 : Rectangle) (v2 v1 : List Rectangle) (p : Point)
    → covers (carve_all r1 v2 v1) p ≡ (covers v2 p || (covers v1 p && not (has r1 p)))
unfolding carve_all covers
covers-carve_all r1 v2 [] p = sym (or_false (covers v2 p))
covers-carve_all r1 v2 (r2 ∷ v1) p =
    covers-carve_all r1 (carve r1 v2 r2) v1 p
    ∙ ap (λ t. t || (covers v1 p && not (has r1 p))) (covers-carve r1 v2 r2 p)
    ∙ minus_or (covers v2 p) (has r2 p) (covers v1 p) (not (has r1 p))

not_or : (v a b : Bool) → ((v && not a) && not b) ≡ (v && not (a || b))
not_or true true b = refl
not_or true false b = refl
not_or false a b = refl

and_true : (v : Bool) → (v && not false) ≡ v
and_true true = refl
and_true false = refl

covers-carve_each :
    (v1 vec : List Rectangle) (p : Point)
    → covers (carve_each v1 vec) p ≡ (covers v1 p && not (covers vec p))
unfolding carve_each covers
covers-carve_each v1 [] p = sym (and_true (covers v1 p))
covers-carve_each v1 (r1 ∷ vec) p =
    covers-carve_each (carve_all r1 [] v1) vec p
    ∙ ap (λ t. t && not (covers vec p)) (covers-carve_all r1 [] v1 p)
    ∙ not_or (covers v1 p) (has r1 p) (covers vec p)

-- A point is covered by a rectangle that `unique_rects` returns exactly if the original rectangle
-- covers it and no obstacle does: the result is the free space, neither more nor less.
pub covers-unique_rects :
    (vec : List Rectangle) (orig : Rectangle) (p : Point)
    → covers (unique_rects vec orig) p ≡ (rect_haspoint_p orig p && not (covers vec p))
unfolding unique_rects covers
covers-unique_rects vec orig p =
    covers-carve_each (orig ∷ []) vec p ∙ ap (λ t. t && not (covers vec p)) (or_false (has orig p))
