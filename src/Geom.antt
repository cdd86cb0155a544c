-- ===== src/Geom.antt =====
-- include/stuff/geom.h, lib/libstuff/geom and lib/libstuff/x11/geometry: points and rectangles.
-- An `int` is an integer: a sum that overflows is undefined in C, and X11 coordinates are 16 bits.
pub mod Rects
pub mod Hints
pub mod Sizes
pub mod Floating
pub mod Unique
pub mod Placing
pub mod Snap
use wmii.Base.{
  ℕ, ◌+◌, ◌*◌, ◌/◌, ◌%◌, ◌≡◌, refl, Bool, true, false, ◌&&◌, ◌||◌, not, ◌==◌, if◌then◌else◌, arith,
}
use wmii.Base.Int.{ℤ, pos, negsuc, ◌+ℤ◌, ◌-ℤ◌, ◌*ℤ◌, ltb_ℤ, leb_ℤ, eqb_ℤ, quot}

pub record Point : Type 0 where
  pub x : ℤ
  pub y : ℤ

pub record Rectangle : Type 0 where
  pub min_x : ℤ
  pub min_y : ℤ
  pub max_x : ℤ
  pub max_y : ℤ

-- `Pt(x, y)` and `Rect(x0, y0, x1, y1)`
abbrev pub pt : ℤ → ℤ → Point
pt x y = record { x = x; y = y }

abbrev pub rect : ℤ → ℤ → ℤ → ℤ → Rectangle
rect x0 y0 x1 y1 = record { min_x = x0; min_y = y0; max_x = x1; max_y = y1 }

-- `Dx(r)` and `Dy(r)`
abbrev pub dx : Rectangle → ℤ
dx r = r.max_x -ℤ r.min_x

abbrev pub dy : Rectangle → ℤ
dy r = r.max_y -ℤ r.min_y

-- lib/libstuff/util/max.c and min.c
unfoldable pub max : ℤ → ℤ → ℤ
max a b = if ltb_ℤ b a then a else b

unfoldable pub min : ℤ → ℤ → ℤ
min a b = if ltb_ℤ a b then a else b

unfoldable pub addpt : Point → Point → Point
addpt p q = pt (p.x +ℤ q.x) (p.y +ℤ q.y)

unfoldable pub subpt : Point → Point → Point
subpt p q = pt (p.x -ℤ q.x) (p.y -ℤ q.y)

unfoldable pub mulpt : Point → Point → Point
mulpt p q = pt (p.x *ℤ q.x) (p.y *ℤ q.y)

-- `divpt` by a point of positive coordinates, as its one caller uses it.
unfoldable pub divpt : Point → ℕ → ℕ → Point
divpt p m n = pt (quot p.x m) (quot p.y n)

unfoldable pub eqpt : Point → Point → Bool
eqpt p q = eqb_ℤ p.x q.x && eqb_ℤ p.y q.y

unfoldable pub eqrect : Rectangle → Rectangle → Bool
eqrect a b =
    eqb_ℤ a.min_x b.min_x
    && (eqb_ℤ a.max_x b.max_x && (eqb_ℤ a.min_y b.min_y && eqb_ℤ a.max_y b.max_y))

unfoldable pub insetrect : Rectangle → ℤ → Rectangle
insetrect r n = rect (r.min_x +ℤ n) (r.min_y +ℤ n) (r.max_x -ℤ n) (r.max_y -ℤ n)

unfoldable pub rectaddpt : Rectangle → Point → Rectangle
rectaddpt r p = rect (r.min_x +ℤ p.x) (r.min_y +ℤ p.y) (r.max_x +ℤ p.x) (r.max_y +ℤ p.y)

unfoldable pub rectsubpt : Rectangle → Point → Rectangle
rectsubpt r p = rect (r.min_x -ℤ p.x) (r.min_y -ℤ p.y) (r.max_x -ℤ p.x) (r.max_y -ℤ p.y)

unfoldable pub rectsetorigin : Rectangle → Point → Rectangle
rectsetorigin r p = rect p.x p.y (p.x +ℤ dx r) (p.y +ℤ dy r)

unfoldable pub rect_contains_p : Rectangle → Rectangle → Bool
rect_contains_p r r2 =
    leb_ℤ r.min_x r2.min_x
    && (leb_ℤ r2.max_x r.max_x && (leb_ℤ r.min_y r2.min_y && leb_ℤ r2.max_y r.max_y))

unfoldable pub rect_haspoint_p : Rectangle → Point → Bool
rect_haspoint_p r p =
    (leb_ℤ r.min_x p.x && ltb_ℤ p.x r.max_x) && (leb_ℤ r.min_y p.y && ltb_ℤ p.y r.max_y)

unfoldable pub rect_intersect_p : Rectangle → Rectangle → Bool
rect_intersect_p r r2 =
    leb_ℤ r.min_x r2.max_x
    && (leb_ℤ r2.min_x r.max_x && (leb_ℤ r.min_y r2.max_y && leb_ℤ r2.min_y r.max_y))

unfoldable pub rect_intersection : Rectangle → Rectangle → Rectangle
unfolding max min
rect_intersection r r2 =
    rect (max r.min_x r2.min_x) (max r.min_y r2.min_y) (min r.max_x r2.max_x) (min r.max_y r2.max_y)

-- `enum Align` as its four bits.
pub record Align : Type 0 where
  pub north : Bool
  pub east : Bool
  pub south : Bool
  pub west : Bool

unfoldable pub get_sticky : Rectangle → Rectangle → Align
get_sticky src dst =
    let east = not (eqb_ℤ src.min_x dst.min_x) && eqb_ℤ src.max_x dst.max_x in
    let south = not (eqb_ℤ src.min_y dst.min_y) && eqb_ℤ src.max_y dst.max_y in
    record { north = not south; east = east; south = south; west = not east }
