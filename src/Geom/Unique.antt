-- ===== src/Geom/Unique.antt =====
-- cmd/wmii/float.c, `rect_push`, `unique_rects` and `max_rect`: the free space of a screen around
-- obstacles, as overlapping rectangles. A vector is the list of its rectangles.
pub mod Space
use wmii.Base.{
  ℕ, ◌≡◌, refl, Bool, true, false, List, [], ◌∷◌, ◌&&◌, ◌||◌, not, arith, if◌then◌else◌, Bool-cases,
  inl, inr, ◌∙◌, sym, ap,
}
use wmii.Base.Int.{ℤ, pos, ◌+ℤ◌, ◌-ℤ◌, ◌*ℤ◌, ◌≤ℤ◌, ◌<ℤ◌, ltb_ℤ, leb_ℤ, pos_part, neg_part}
use wmii.Geom.Rects.{haspoint-Has, contains-Has, intersect-Has}
use wmii.Geom.{
  Point, Rectangle, pt, rect, dx, dy, rect_contains_p, rect_haspoint_p, rect_intersect_p,
}

unfoldable pub rect_push : List Rectangle → Rectangle → List Rectangle
unfolding rect_contains_p
rect_push [] r = r ∷ []
rect_push (rp ∷ vec) r =
    let rest = rect_push vec r in
    if rect_contains_p rp r then rp ∷ vec else if rect_contains_p r rp then r ∷ vec else rp ∷ rest

abbrev pub push_if : Bool → List Rectangle → Rectangle → List Rectangle
push_if true v r = rect_push v r
push_if false v r = v

-- The body of the inner loop: what is left of `r2` around the obstacle `r1`, pushed on `v2`.
unfoldable pub carve : Rectangle → List Rectangle → Rectangle → List Rectangle
unfolding rect_push rect_intersect_p
carve r1 v2 r2 =
    if not (rect_intersect_p r1 r2)
    then rect_push v2 r2
    else let a = push_if (ltb_ℤ r2.min_x r1.min_x) v2 (rect r2.min_x r2.min_y r1.min_x r2.max_y) in
      let b = push_if (ltb_ℤ r2.min_y r1.min_y) a (rect r2.min_x r2.min_y r2.max_x r1.min_y) in
      let c = push_if (ltb_ℤ r1.max_x r2.max_x) b (rect r1.max_x r2.min_y r2.max_x r2.max_y) in
      push_if (ltb_ℤ r1.max_y r2.max_y) c (rect r2.min_x r1.max_y r2.max_x r2.max_y)

-- The inner loop over `v1`.
unfoldable pub carve_all : Rectangle → List Rectangle → List Rectangle → List Rectangle
unfolding carve
carve_all r1 v2 [] = v2
carve_all r1 v2 (r2 ∷ v1) = carve_all r1 (carve r1 v2 r2) v1

-- The outer loop over the obstacles.
unfoldable pub carve_each : List Rectangle → List Rectangle → List Rectangle
unfolding carve_all
carve_each v1 [] = v1
carve_each v1 (r1 ∷ vec) = carve_each (carve_all r1 [] v1) vec

unfoldable pub unique_rects : List Rectangle → Rectangle → List Rectangle
unfolding carve_each
unique_rects vec orig = carve_each (orig ∷ []) vec

abbrev pub area_of : Rectangle → ℤ
area_of r = dx r *ℤ dy r

-- `max_rect`: the first rectangle of the largest area above 0, or `ZR`.
unfoldable pub max_rect_from : Rectangle → ℤ → List Rectangle → Rectangle
max_rect_from r area [] = r
max_rect_from r area (rp ∷ vec) =
    let bigger = ltb_ℤ area (area_of rp) in
    max_rect_from (if bigger then rp else r) (if bigger then area_of rp else area) vec

abbrev pub zr : Rectangle
zr = rect (pos 0) (pos 0) (pos 0) (pos 0)

unfoldable pub max_rect : List Rectangle → Rectangle
unfolding max_rect_from
max_rect vec = max_rect_from zr (pos 0) vec

-- Whether a rectangle of the list covers the point.
unfoldable pub covers : List Rectangle → Point → Bool
unfolding rect_haspoint_p
covers [] p = false
covers (r ∷ l) p = rect_haspoint_p r p || covers l p
