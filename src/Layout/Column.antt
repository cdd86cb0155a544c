-- ===== src/Layout/Column.antt =====
-- cmd/wmii/column.c: where a column puts its frames. A column's frames are a list from its top; the
-- source's `uint` offsets hold the same `int` values modulo 2^32. `frame_resize`, which asks a client
-- for its size, is not part of these functions' rectangles.
pub mod Fills
pub mod Resize
use mathlib.Core.Option
use wmii.Base.{
  ℕ, zero, suc, ◌+◌, ◌≡◌, refl, Bool, true, false, Option, none, some, List, [], ◌∷◌, ◌++◌, ◌&&◌,
  not, if◌then◌else◌, ◌==◌, map,
}
use wmii.Base.Int.{ℤ, pos, negsuc, ◌+ℤ◌, ◌-ℤ◌, ltb_ℤ, quot, rem}
use wmii.Geom.{Rectangle, Point, pt, rect, dx, dy, max, min, rectsetorigin}

-- A frame as the layout reads it.
pub record Frame : Type 0 where
  pub r : Rectangle
  pub colr : Rectangle
  pub collapsed : Bool

unfoldable pub column_surplus : Rectangle → List Frame → ℤ
column_surplus r [] = dy r
column_surplus r (f ∷ fs) = column_surplus r fs -ℤ dy f.r

unfoldable pub uncollapsed : List Frame → ℕ
uncollapsed [] = 0
uncollapsed (f ∷ fs) = if f.collapsed then uncollapsed fs else suc (uncollapsed fs)

-- What the loop of `column_settle` does to a frame; `n` is the number of pixels left to give out.
unfoldable pub settle_frame : Bool → Rectangle → ℤ → ℤ → ℤ → ℤ → Frame → Frame
unfolding rectsetorigin
settle_frame squeeze r surplus yoff yoffcr n f =
    let s = rectsetorigin f.r (pt r.min_x yoff) in
    let c = rectsetorigin f.colr (pt r.min_x yoffcr) in
    let grown =
      if squeeze && not f.collapsed
      then (if ltb_ℤ (pos 0) n then (s.max_y +ℤ surplus) +ℤ pos 1 else s.max_y +ℤ surplus)
      else s.max_y in
    record f { r = rect r.min_x s.min_y r.max_x grown; colr = c }

-- `n--`, which an uncollapsed frame reaches.
unfoldable pub left_over : Bool → ℤ → Frame → ℤ
left_over squeeze n f = if squeeze && not f.collapsed then n -ℤ pos 1 else n

unfoldable pub settle_from : Bool → Rectangle → ℤ → ℤ → ℤ → ℤ → List Frame → List Frame
unfolding settle_frame left_over
settle_from squeeze r surplus yoff yoffcr n [] = []
settle_from squeeze r surplus yoff yoffcr n (f ∷ fs) =
    let g = settle_frame squeeze r surplus yoff yoffcr n f in
    g ∷ settle_from squeeze r surplus g.r.max_y g.colr.max_y (left_over squeeze n f) fs

-- `column_settle` of a column at `r`; `squeeze` is `def.incmode == ISqueeze && !resizing`. With no
-- uncollapsed frame it only reports.
unfoldable pub column_settle : Bool → Rectangle → List Frame → List Frame
unfolding column_surplus uncollapsed settle_from
column_settle squeeze r fs =
    let surplus = column_surplus r fs in
    let n = uncollapsed fs in
    if n == 0 then fs else settle_from squeeze r (quot surplus n) r.min_y r.min_y (rem surplus n) fs

abbrev pub reset : Frame → Frame
reset f = record f { r = f.colr }

-- `column_frob`: the frames go back to their column rectangles, then settle.
unfoldable pub column_frob : Bool → Rectangle → List Frame → List Frame
unfolding column_settle
column_frob squeeze r fs = column_settle squeeze r (map reset fs)

-- The column rectangles of a frame and of its neighbours.
pub record Around : Type 0 where
  pub above : Option Rectangle
  pub here : Rectangle
  pub below : Option Rectangle

-- `column_resizeframe_h`: what is left of the asked rectangle, by the frame above and by the one below;
-- `minh` is `labelh(def.font)`.
unfoldable pub top_for : ℤ → Rectangle → Option Rectangle → ℤ → ℤ
unfolding max
top_for minh a none y = max y a.min_y
top_for minh a (some p) y = max y (p.min_y +ℤ minh)

unfoldable pub bottom_for : ℤ → Rectangle → Option Rectangle → ℤ → ℤ
unfolding min
bottom_for minh a none y = min y a.max_y
bottom_for minh a (some n) y = min y (n.max_y -ℤ minh)

-- A frame at an end of the column keeps its least height.
unfoldable pub first_top : ℤ → Option Rectangle → ℤ → ℤ → ℤ
unfolding min
first_top minh none top bottom = min top (bottom -ℤ minh)
first_top minh (some p) top bottom = top

unfoldable pub last_bottom : ℤ → Option Rectangle → ℤ → ℤ → ℤ
unfolding max
last_bottom minh none top bottom = max bottom (top +ℤ minh)
last_bottom minh (some n) top bottom = bottom

abbrev pub cut_below : Option Rectangle → ℤ → Option Rectangle
cut_below none y = none
cut_below (some p) y = some (record p { max_y = y })

abbrev pub cut_above : Option Rectangle → ℤ → Option Rectangle
cut_above none y = none
cut_above (some n) y = some (record n { min_y = y })

unfoldable pub column_resizeframe_h :
    ℤ → Rectangle → Option Rectangle → Option Rectangle → Rectangle → Around
unfolding top_for bottom_for first_top last_bottom
column_resizeframe_h minh a p n r =
    let y0 = top_for minh a p r.min_y in
    let y1 = bottom_for minh a n r.max_y in
    let top = first_top minh p y0 y1 in
    let bottom = last_bottom minh n top y1 in
    record {
      above = cut_below p y0;
      here = rect r.min_x top r.max_x bottom;
      below = cut_above n y1;
    }
