-- ===== src/Layout/Struts.antt =====
-- cmd/wmii/view.c, `fix_rect` and `view_update_rect`: what panels at the edges leave of each screen, and
-- where the bar of a screen goes.
pub mod Fixed
use wmii.Base.{
  ℕ, zero, suc, ◌+◌, ◌*◌, ◌≡◌, Bool, true, false, not, ◌&&◌, ◌||◌, Option, none, some, List, [],
  ◌∷◌, ◌++◌, ◌==◌, if◌then◌else◌,
}
use wmii.Base.Int.{ℤ, pos, negsuc, ◌+ℤ◌, ◌-ℤ◌, ◌*ℤ◌, ltb_ℤ, quot, pos_part}
use wmii.Geom.{Point, Rectangle, pt, rect, dx, dy, max, min, rectaddpt, rect_intersection}
use wmii.Geom.Unique.{unique_rects}
use wmii.Bar.{bar_sety, bar_setbounds}

-- `r = (D(old) - D(new)) / D(old)` divides two `int`s, so that `r > .5` asks for a quotient of one at
-- least; an edge then moves by `(q - .5) * d`, cut toward zero when it is stored.
abbrev pub quotient : ℤ → ℤ → ℕ
quotient old new = pos_part (quot (old -ℤ new) (pos_part old))

abbrev pub moved_by : ℕ → ℤ → ℤ → ℤ
moved_by zero edge d = edge
moved_by (suc q) edge d = quot ((pos 2 *ℤ edge) -ℤ (pos (2 * q + 1) *ℤ d)) 2

-- The rectangles on which the two divisions are defined are those of positive sides.
unfoldable pub fix_rect : Rectangle → Rectangle → Rectangle
unfolding rect_intersection
fix_rect old want =
    let new = rect_intersection want old in
    let qy = quotient (dy old) (dy new) in
    let qx = quotient (dx old) (dx new) in
    rect (moved_by qx new.min_x (new.min_x -ℤ old.min_x))
      (moved_by qy new.min_y (new.min_y -ℤ old.min_y))
      (moved_by qx new.max_x (pos 0 -ℤ (old.max_x -ℤ new.max_x)))
      (moved_by qy new.max_y (pos 0 -ℤ (old.max_y -ℤ new.max_y)))

-- The panels of a floating client.
pub record Strut : Type 0 where
  pub left : Rectangle
  pub right : Rectangle
  pub top : Rectangle
  pub bottom : Rectangle

-- The space that all panels take at each edge; the right and lower ones count from the far edges.
pub record Edges : Type 0 where
  pub top : ℤ
  pub left : ℤ
  pub right : ℤ
  pub bottom : ℤ

abbrev pub no_edges : Edges
no_edges = record { top = pos 0; left = pos 0; right = pos 0; bottom = pos 0 }

unfoldable pub widen_edges : Edges → Strut → Edges
unfolding max min
widen_edges e s = record {
  top = max e.top s.top.max_y;
  left = max e.left s.left.max_x;
  right = min e.right s.right.min_x;
  bottom = min e.bottom s.bottom.min_y;
}

unfoldable pub edges_from : Edges → List Strut → Edges
unfolding widen_edges
edges_from e [] = e
edges_from e (s ∷ ss) = edges_from (widen_edges e s) ss

-- The panels' rectangles on the root window `scr.rect`.
unfoldable pub panels : Rectangle → List Rectangle → List Strut → List Rectangle
unfolding rectaddpt
panels root vec [] = vec
panels root vec (s ∷ ss) =
    panels root
      (vec
        ++ (s.top
            ∷ (s.left
                ∷ (rectaddpt s.right (pt root.max_x (pos 0))
                    ∷ (rectaddpt s.bottom (pt (pos 0) root.max_y) ∷ [])))))
      ss

abbrev pub less_edges : Rectangle → Edges → Rectangle
less_edges r e =
    rect (r.min_x +ℤ e.left) (r.min_y +ℤ e.top) (r.max_x +ℤ e.right) (r.max_y +ℤ e.bottom)

-- A free rectangle near the bar's edge with room for the bar; `top` is `scrn->barpos == BTop`.
abbrev pub takes : Bool → Rectangle → Rectangle → Rectangle → Rectangle → Bool
takes top brect r sr rr =
    not (ltb_ℤ (dx sr) (quot (dx r) 2) || ltb_ℤ (dy sr) (dy brect))
    && (if top then ltb_ℤ sr.min_y rr.min_y else ltb_ℤ rr.max_y sr.max_y)

unfoldable pub bar_room :
    Bool → Rectangle → Rectangle → Rectangle → Rectangle → List Rectangle → Rectangle
unfolding rect_intersection
bar_room top brect screen r rr [] = rr
bar_room top brect screen r rr (v ∷ vs) =
    let sr = rect_intersection v screen in
    bar_room top brect screen r (if takes top brect r sr rr then sr else rr) vs

-- A screen as this function reads it.
pub record Screen : Type 0 where
  pub r : Rectangle
  pub brect : Rectangle
  pub top : Bool
  pub bar_showing : Bool

-- `v->r[s]` and the bar's rectangle.
pub record Updated : Type 0 where
  pub view : Rectangle
  pub bar : Rectangle

unfoldable pub update_screen : Rectangle → List Rectangle → Screen → Updated
unfolding fix_rect bar_room bar_sety bar_setbounds max min
update_screen inner free s =
    let r = fix_rect s.r inner in
    let rr = bar_room s.top s.brect s.r r r free in
    let bar = bar_sety s.brect (if s.top then rr.min_y else rr.max_y -ℤ dy s.brect) in
    record {
      view =
          if s.top
          then record r { min_y = max r.min_y bar.max_y }
          else record r { max_y = min r.max_y bar.min_y };
      bar = bar_setbounds s.bar_showing bar rr.min_x rr.max_x;
    }

unfoldable pub update_screens : Rectangle → List Rectangle → List Screen → List Updated
unfolding update_screen
update_screens inner free [] = []
update_screens inner free (s ∷ ss) = update_screen inner free s ∷ update_screens inner free ss

-- `view_update_rect` on the root window, for the struts of the floating frames.
unfoldable pub view_update_rect : Rectangle → List Strut → List Screen → List Updated
unfolding edges_from panels unique_rects update_screens
view_update_rect root struts screens =
    update_screens (less_edges root (edges_from no_edges struts))
      (unique_rects (panels root [] struts) root) screens
