-- ===== src/Geom/Hints.antt =====
-- `frame_rect2client` and `frame_client2rect` of cmd/wmii/frame.c: the window inside a frame's
-- decoration.
pub mod Decoration
use wmii.Base.{◌≡◌, Bool, true, false, if◌then◌else◌}
use wmii.Base.Int.{ℤ, pos, ◌+ℤ◌, ◌-ℤ◌}
use wmii.Geom.{Rectangle, rect, max}

-- What these functions read of a client, with `def.border` and `labelh(def.font)`.
pub record Decor : Type 0 where
  pub fullscreen : Bool
  pub borderless : Bool
  pub titleless : Bool
  pub border : ℤ
  pub labelh : ℤ

-- The widths that the macro `ADJ` takes off at the sides and the bottom, and at the top.
abbrev pub side : Decor → Bool → ℤ
side c floating =
    if c.fullscreen
    then pos 0
    else (if floating then (if c.borderless then pos 0 else c.border) else pos 1)

abbrev pub top : Decor → Bool → ℤ
top c floating =
    if c.fullscreen
    then pos 0
    else (if floating then (if c.titleless then pos 0 else c.labelh) else c.labelh)

-- `ADJ(+=, -=)`; a client that fills the screen returns right behind it.
unfoldable pub adjust_in : ℤ → ℤ → Rectangle → Rectangle
adjust_in s t r = rect (r.min_x +ℤ s) (r.min_y +ℤ t) (r.max_x -ℤ s) (r.max_y -ℤ s)

unfoldable pub adjust_out : ℤ → ℤ → Rectangle → Rectangle
adjust_out s t r = rect (r.min_x -ℤ s) (r.min_y -ℤ t) (r.max_x +ℤ s) (r.max_y +ℤ s)

-- A window is at least 1x1.
unfoldable pub at_least_one : Rectangle → Rectangle
unfolding max
at_least_one r = record r {
  max_x = max r.max_x (r.min_x +ℤ pos 1);
  max_y = max r.max_y (r.min_y +ℤ pos 1);
}

unfoldable pub frame_rect2client : Decor → Rectangle → Bool → Rectangle
unfolding adjust_in at_least_one
frame_rect2client c r floating =
    if c.fullscreen then r else at_least_one (adjust_in (side c floating) (top c floating) r)

unfoldable pub frame_client2rect : Decor → Rectangle → Bool → Rectangle
unfolding adjust_out
frame_client2rect c r floating =
    if c.fullscreen then r else adjust_out (side c floating) (top c floating) r
