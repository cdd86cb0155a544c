-- ===== src/Geom/Floating.antt =====
-- cmd/wmii/float.c, `float_placeframe`: where a frame goes on the floating area.
pub mod Free
use wmii.Base.{
  ℕ, ◌≡◌, Bool, true, false, not, ◌&&◌, ◌||◌, Option, none, some, List, [], ◌∷◌, ◌==◌,
  if◌then◌else◌, get_elem?,
}
use wmii.Base.Int.{ℤ, pos, ◌+ℤ◌, ◌-ℤ◌, ◌*ℤ◌, ltb_ℤ}
use wmii.Geom.{Point, Rectangle, pt, rect, dx, dy, addpt, rectsetorigin}
use wmii.Geom.Unique.{unique_rects}
use wmii.Geom.Placing.{Screen, ownerscreen}

-- A frame of the area: its client, its rectangle and its title bar's height.
pub record Frame : Type 0 where
  pub client : ℕ
  pub r : Rectangle
  pub titlebar_dy : ℤ

-- The rectangles of the other clients' frames.
unfoldable pub obstacles : ℕ → List Frame → List Rectangle
obstacles client [] = []
obstacles client (f ∷ fs) =
    let rest = obstacles client fs in if f.client == client then rest else f.r ∷ rest

-- The screen: the frame's own, or that of the group's frame, of the selected client or of the selected
-- column; `none` is -1.
abbrev pub choose_screen :
    List Screen → Option ℕ → Option Rectangle → Option Rectangle → Option ℕ → Option ℕ
choose_screen screens (some s) group selected column = some s
choose_screen screens none (some r) selected column = ownerscreen screens r
choose_screen screens none none (some r) column = ownerscreen screens r
choose_screen screens none none none column = column

-- The least free rectangle that the frame fits into; `none` is `LONG_MAX`.
abbrev pub smaller : ℤ → Option (ℤ × Point) → Bool
smaller l none = true
smaller l (some (area, p)) = ltb_ℤ l area

abbrev pub fits : Rectangle → Rectangle → Bool
fits frame r = not (ltb_ℤ (dx r) (dx frame) || ltb_ℤ (dy r) (dy frame))

unfoldable pub least_free : Rectangle → Option (ℤ × Point) → List Rectangle → Option (ℤ × Point)
least_free frame best [] = best
least_free frame best (r ∷ rs) =
    let l = dx r *ℤ dy r in
    least_free frame (if fits frame r && smaller l best then some (l, pt r.min_x r.min_y) else best)
      rs

-- Cascade: below the title bar of the selected frame, unless that runs off the screen.
abbrev pub below_title : Option Frame → Point
below_title none = pt (pos 0) (pos 0)
below_title (some f) = pt (f.r.min_x +ℤ f.titlebar_dy) (f.r.min_y +ℤ f.titlebar_dy)

unfoldable pub cascade : Rectangle → Rectangle → Option Frame → Point
cascade screen frame sel =
    let p = below_title sel in
    if ltb_ℤ screen.max_x (p.x +ℤ dx frame) || ltb_ℤ screen.max_y (p.y +ℤ dy frame)
    then pt screen.min_x screen.min_y
    else p

abbrev pub place_at : Rectangle → Rectangle → Option Frame → Option (ℤ × Point) → Rectangle
place_at screen frame sel none = rectsetorigin frame (cascade screen frame sel)
place_at screen frame sel (some (area, p)) = rectsetorigin frame p

-- The rectangle that is searched for room: the view's on the screen, or the area's.
abbrev pub room : Rectangle → (ℕ → Rectangle) → Option ℕ → Rectangle
room area views none = area
room area views (some s) = views s

-- `max(s, 0)`
abbrev pub screen_or_first : Option ℕ → ℕ
screen_or_first none = 0
screen_or_first (some s) = s

-- `float_placeframe` behind its early return, of a frame of `client` at `frame`, on screen `s` as `choose_screen` finds it: the
-- new `f->floatr`. `frames` and `sel` are those of the area, `views` is `v->r`, `screens` the
-- rectangles of the screens.
unfoldable pub float_placeframe :
    List Frame
    → Option Frame
    → Rectangle
    → (ℕ → Rectangle)
    → (ℕ → Rectangle)
    → ℕ
    → Option ℕ
    → Rectangle
    → Rectangle
unfolding obstacles unique_rects least_free cascade rectsetorigin
float_placeframe frames sel area views screens client s frame =
    let vec = obstacles client frames in
    let free = unique_rects vec (room area views s) in
    place_at (screens (screen_or_first s)) frame sel (least_free frame none free)

-- The rectangles of a frame behind a call. A frame that fills the screen, asks for its place or is there
-- at the start goes where it last floated.
pub record Rects : Type 0 where
  pub r : Rectangle
  pub floatr : Rectangle

abbrev pub kept_or_placed : Bool → Rectangle → Rects → Rects
kept_or_placed asis placed f =
    if asis then record f { r = f.floatr } else record f { floatr = placed }
