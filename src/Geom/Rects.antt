-- ===== src/Geom/Rects.antt =====
-- The rectangle tests against the points that a rectangle covers.
use wmii.Base.{◌≡◌, ◌↔◌, true, arith}
use wmii.Base.Int.{ℤ, ◌+ℤ◌, ◌-ℤ◌, ◌≤ℤ◌, ◌<ℤ◌, int_laws}
use wmii.Geom.{
  Point, Rectangle, rect, max, min, rectaddpt, rectsubpt, rect_contains_p, rect_haspoint_p,
  rect_intersect_p, rect_intersection,
}

-- The points that a rectangle covers: its lower edges are inside, its upper edges are not.
pub record Has (r : Rectangle) (p : Point) : Type 0 where
  pub left : r.min_x ≤ℤ p.x
  pub right : p.x <ℤ r.max_x
  pub top : r.min_y ≤ℤ p.y
  pub bottom : p.y <ℤ r.max_y

pub haspoint-Has : (r : Rectangle) (p : Point) → (rect_haspoint_p r p ≡ true) ↔ Has r p
unfolding rect_haspoint_p
haspoint-Has r p = (
  λ h. record {
    left = ground arith;
    right = ground arith;
    top = ground arith;
    bottom = ground arith;
  },
  λ h. ground arith,
)

max-le : (a b c : ℤ) → max a b ≤ℤ c → (a ≤ℤ c) × (b ≤ℤ c)
unfolding max
max-le a b c h = ground arith

le-max : (a b c : ℤ) → a ≤ℤ c → b ≤ℤ c → max a b ≤ℤ c
unfolding max
le-max a b c h k = ground arith

lt-min : (a b c : ℤ) → c <ℤ min a b → (c <ℤ a) × (c <ℤ b)
unfolding min
lt-min a b c h = ground arith

min-lt : (a b c : ℤ) → c <ℤ a → c <ℤ b → c <ℤ min a b
unfolding min
min-lt a b c h k = ground arith

-- A point is in the intersection exactly if it is in both.
intersection-Has :
    (r r2 : Rectangle) (p : Point) → Has (rect_intersection r r2) p ↔ (Has r p × Has r2 p)
unfolding rect_intersection
intersection-Has r r2 p = (
  λ h.
      let record { left = a; right = b; top = c; bottom = d } = h in
      (
        record {
          left = (max-le r.min_x r2.min_x p.x a).0;
          right = (lt-min r.max_x r2.max_x p.x b).0;
          top = (max-le r.min_y r2.min_y p.y c).0;
          bottom = (lt-min r.max_y r2.max_y p.y d).0;
        },
        record {
          left = (max-le r.min_x r2.min_x p.x a).1;
          right = (lt-min r.max_x r2.max_x p.x b).1;
          top = (max-le r.min_y r2.min_y p.y c).1;
          bottom = (lt-min r.max_y r2.max_y p.y d).1;
        },
      ),
  λ h. record {
    left = le-max r.min_x r2.min_x p.x h.0.left h.1.left;
    right = min-lt r.max_x r2.max_x p.x h.0.right h.1.right;
    top = le-max r.min_y r2.min_y p.y h.0.top h.1.top;
    bottom = min-lt r.max_y r2.max_y p.y h.0.bottom h.1.bottom;
  },
)

pub contains-Has :
    (r r2 : Rectangle) → rect_contains_p r r2 ≡ true → (p : Point) → Has r2 p → Has r p
unfolding rect_contains_p
contains-Has r r2 h p k = record {
  left = ground arith;
  right = ground arith;
  top = ground arith;
  bottom = ground arith;
}

pub intersect-Has :
    (r r2 : Rectangle) (p : Point) → Has r p → Has r2 p → rect_intersect_p r r2 ≡ true
unfolding rect_intersect_p
intersect-Has r r2 p h k = ground arith

back : (a b : ℤ) → a +ℤ b -ℤ b ≡ a
back a b = omega int_laws

-- Moving there and back.
pub rectsubpt-rectaddpt : (r : Rectangle) (p : Point) → rectsubpt (rectaddpt r p) p ≡ r
unfolding rectsubpt rectaddpt
rectsubpt-rectaddpt r p =
    λ i. rect (back r.min_x p.x i) (back r.min_y p.y i) (back r.max_x p.x i) (back r.max_y p.y i)
