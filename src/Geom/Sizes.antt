-- ===== src/Geom/Sizes.antt =====
-- lib/libstuff/x11/insanity/sizehint.c and gravitate.c, `frame_gethints` of cmd/wmii/frame.c, and
-- `frame_hints` and `client_grav` of cmd/wmii/client.c: the sizes and places that a client asks for.
pub mod Hinted
use wmii.Base.{
  ℕ, ◌+◌, ◌*◌, ◌/◌, ◌%◌, ◌≤◌, ◌≡◌, Bool, true, false, not, ◌&&◌, ◌||◌, Option, none, some, ◌==◌,
  if◌then◌else◌, ltb,
}
use wmii.Base.Int.{ℤ, pos, ◌+ℤ◌, ◌-ℤ◌, ◌*ℤ◌, ltb_ℤ, quot, rem, pos_part}
use wmii.Geom.{
  Point, Rectangle, Align, pt, rect, dx, dy, max, min, addpt, subpt, mulpt, divpt, eqrect,
  rectaddpt, rectsubpt, rectsetorigin,
}
use wmii.Geom.Hints.{Decor, frame_client2rect, frame_rect2client}

-- `WinHints`; the increments and the aspects are not negative.
pub record WinHints : Type 0 where
  pub least : Point
  pub most : Point
  pub base : Point
  pub baspect : Point
  pub inc_x : ℕ
  pub inc_y : ℕ
  pub aspect_min_x : ℕ
  pub aspect_min_y : ℕ
  pub aspect_max_x : ℕ
  pub aspect_max_y : ℕ
  pub grav : Point
  pub gravstatic : Bool

abbrev pub zp : Point
zp = pt (pos 0) (pos 0)

abbrev pub zr : Rectangle
zr = rect (pos 0) (pos 0) (pos 0) (pos 0)

-- The size within the least and the most, then down to a step of the increment.
unfoldable pub clamped : WinHints → Point → Point
unfolding max min
clamped h p = pt (min (max p.x h.least.x) h.most.x) (min (max p.y h.least.y) h.most.y)

unfoldable pub stepped : WinHints → Point → Point
stepped h p = pt (p.x -ℤ rem (p.x -ℤ h.base.x) h.inc_x) (p.y -ℤ rem (p.y -ℤ h.base.y) h.inc_y)

-- The aspects: `p` is the size less the aspect's base, at least one high, before the first change.
unfoldable pub aspect_y : WinHints → ℤ → ℕ → ℤ → ℤ
aspect_y h x y old =
    if ltb_ℤ (quot (x *ℤ pos h.aspect_min_y) y) (pos h.aspect_min_x)
    then h.baspect.y +ℤ quot (x *ℤ pos h.aspect_min_y) h.aspect_min_x
    else old

unfoldable pub aspect_x : WinHints → ℤ → ℕ → ℤ → ℤ
aspect_x h x y old =
    if ltb_ℤ (pos h.aspect_max_x) (quot (x *ℤ pos h.aspect_max_y) y)
    then h.baspect.x +ℤ pos (y * h.aspect_max_x / h.aspect_max_y)
    else old

-- `sizehint(h, r)` with hints.
unfoldable pub sized : WinHints → Point → Point
unfolding clamped stepped aspect_x aspect_y max
sized h size =
    let q = stepped h (clamped h size) in
    let x = q.x -ℤ h.baspect.x in
    let y = pos_part (max (q.y -ℤ h.baspect.y) (pos 1)) in
    pt (aspect_x h x y q.x) (aspect_y h x y q.y)

unfoldable pub sizehint : WinHints → Rectangle → Rectangle
unfolding sized
sizehint h r =
    let q = sized h (pt (dx r) (dy r)) in rect r.min_x r.min_y (q.x +ℤ r.min_x) (q.y +ℤ r.min_y)

unfoldable pub gravitate : Rectangle → Rectangle → Point → Rectangle
unfolding subpt mulpt divpt rectsubpt
gravitate rc rf grav =
    let d = subpt (pt (dx rf) (dy rf)) (pt (dx rc) (dy rc)) in
    rectsubpt rc (mulpt (divpt d 2 2) grav)

-- `frame_gethints` of a client in an area; `ignore` is `def.incmode == IIgnore`, and `labelh` the height
-- of a label.
unfoldable pub at_least_label : ℤ → ℕ → ℕ → ℕ → ℤ
at_least_label have want minh inc = if ltb_ℤ have (pos want) then pos (minh + want % inc) else have

unfoldable pub frame_gethints : Decor → Bool → Bool → ℕ → WinHints → WinHints
unfolding frame_client2rect at_least_label max
frame_gethints c floating ignore minh h =
    let r = frame_client2rect c zr floating in
    let fixed = not floating && ignore in
    let inc_x = if fixed then 1 else h.inc_x in
    let inc_y = if fixed then 1 else h.inc_y in
    let least_x = at_least_label h.least.x (2 * minh) minh inc_x in
    let least_y = at_least_label h.least.y minh minh inc_y in
    record h {
      inc_x = inc_x;
      inc_y = inc_y;
      least = pt (least_x +ℤ dx r) (least_y +ℤ dy r);
      most = pt (max (h.most.x +ℤ dx r) h.most.x) (max (h.most.y +ℤ dy r) h.most.y);
      base = pt (h.base.x +ℤ dx r) (h.base.y +ℤ dy r);
      baspect = pt (h.baspect.x +ℤ dx r) (h.baspect.y +ℤ dy r);
      grav = zp;
      gravstatic = false;
    }

-- Outside of the floating area a frame may not grow.
abbrev pub not_wider : ℤ → ℤ → ℤ → ℤ
not_wider old low high = if ltb_ℤ old (high -ℤ low) then low +ℤ old else high

unfoldable pub not_grown : Bool → Rectangle → Rectangle → Rectangle
not_grown floating old r = if floating then r else record r {
  max_x = not_wider (dx old) r.min_x r.max_x;
  max_y = not_wider (dy old) r.min_y r.max_y;
}

-- `frame_hints(f, r, sticky)`, for the hints that `frame_gethints` gives; `none` is nil.
unfoldable pub frame_hints : Option WinHints → Bool → Rectangle → Align → Rectangle
unfolding sizehint not_grown rectaddpt
frame_hints none floating old sticky = old
frame_hints (some h) floating old sticky =
    let r = not_grown floating old (sizehint h old) in
    let x = if sticky.east && not sticky.west then dx old -ℤ dx r else pos 0 in
    let y = if sticky.south && not sticky.north then dy old -ℤ dy r else pos 0 in
    rectaddpt r (pt x y)

-- `client_grav(c, rd)`: `floatr` is that of `c->sel`, or `none`, and `r` is `c->r`.
abbrev pub from_frame : Decor → WinHints → Rectangle → Rectangle → Rectangle
from_frame c h r cr =
    let moved = gravitate r cr h.grav in
    let sp = subpt (pt cr.min_x cr.min_y) (pt r.min_x r.min_y) in
    frame_rect2client c (if h.gravstatic then moved else rectsubpt moved sp) true

abbrev pub kept_by : Decor → WinHints → Option Rectangle → Rectangle → Rectangle → Rectangle
kept_by c h none here old = from_frame c h here old
kept_by c h (some r) here old = from_frame c h r (frame_rect2client c r true)

unfoldable pub client_grav : Decor → WinHints → Option Rectangle → Rectangle → Rectangle → Rectangle
unfolding gravitate subpt rectaddpt rectsubpt rectsetorigin eqrect frame_client2rect
    frame_rect2client
client_grav c h floatr old rd =
    let out = frame_client2rect c rd true in
    let sp = subpt (pt rd.min_x rd.min_y) (pt out.min_x out.min_y) in
    let placed = gravitate rd out h.grav in
    let asked = frame_client2rect c (if h.gravstatic then placed else rectaddpt placed sp) true in
    let here = rectsetorigin (frame_client2rect c old true) (pt old.min_x old.min_y) in
    let kept = kept_by c h floatr here old in if eqrect rd zr then kept else asked
