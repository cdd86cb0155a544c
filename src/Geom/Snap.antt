-- ===== src/Geom/Snap.antt =====
-- cmd/wmii/mouse.c: how a rectangle that is moved or resized snaps to the edges of others.
pub mod Edges
use wmii.Base.{ℕ, suc, ◌≡◌, refl, Bool, true, false, List, [], ◌∷◌, ◌&&◌, ◌||◌, not, if◌then◌else◌}
use wmii.Base.Int.{ℤ, pos, negsuc, ◌+ℤ◌, ◌-ℤ◌, ltb_ℤ, leb_ℤ}
use wmii.Geom.{Point, Rectangle, Align, pt, rect}
use wmii.Geom.Placing.{abs}

abbrev pub xor : Bool → Bool → Bool
xor a b = if a then not b else b

-- `rect_morph`: the sides of the mask are moved; where two have passed each other, they are exchanged.
unfoldable pub flip_x : Rectangle → Align → Rectangle × Align
flip_x r m =
    if ltb_ℤ r.max_x r.min_x
    then (
      record r { min_x = r.max_x; max_x = r.min_x },
      record m { east = not m.east; west = not m.west },
    )
    else (r, m)

unfoldable pub flip_y : Rectangle → Align → Rectangle × Align
flip_y r m =
    if ltb_ℤ r.max_y r.min_y
    then (
      record r { min_y = r.max_y; max_y = r.min_y },
      record m { north = not m.north; south = not m.south },
    )
    else (r, m)

unfoldable pub moved_sides : Rectangle → Point → Align → Rectangle
moved_sides r d m =
    rect (if m.west then r.min_x +ℤ d.x else r.min_x) (if m.north then r.min_y +ℤ d.y else r.min_y)
      (if m.east then r.max_x +ℤ d.x else r.max_x) (if m.south then r.max_y +ℤ d.y else r.max_y)

unfoldable pub rect_morph : Rectangle → Point → Align → Rectangle × Align
unfolding moved_sides flip_x flip_y
rect_morph r d m = let t = flip_x (moved_sides r d m) m in flip_y t.0 t.1

-- One test of the macro `frob`: the distance to an edge, if it is no farther than the best.
unfoldable pub closer_edge : ℤ → ℤ → ℤ → ℤ
closer_edge x d t = if leb_ℤ (abs (t -ℤ x)) (abs d) then t -ℤ x else d

-- The two edges that a line is compared with, and whether a rectangle stands beside it.
abbrev pub low_edge : Bool → Rectangle → ℤ
low_edge true r = r.min_y
low_edge false r = r.min_x

abbrev pub high_edge : Bool → Rectangle → ℤ
high_edge true r = r.max_y
high_edge false r = r.max_x

unfoldable pub beside : Bool → Rectangle → Rectangle → Bool
beside true p r = leb_ℤ p.min_x r.max_x && leb_ℤ r.min_x p.max_x
beside false p r = leb_ℤ p.min_y r.max_y && leb_ℤ r.min_y p.max_y

-- `snap_hline` (`true`) and `snap_vline` (`false`).
unfoldable pub snap_line : Bool → List Rectangle → ℤ → Rectangle → ℤ → ℤ
unfolding closer_edge beside
snap_line h [] d r x = d
snap_line h (p ∷ rects) d r x =
    snap_line h rects
      (if beside h p r then closer_edge x (closer_edge x d (low_edge h p)) (high_edge h p) else d) r
      x

abbrev pub when : Bool → ℤ → ℤ → ℤ
when b t d = if b then t else d

-- `snap_rect`: the rectangle, the mask and the gravity.
unfoldable pub snap_rect : List Rectangle → Rectangle → Align → ℕ → Rectangle × Align × Align
unfolding snap_line rect_morph
snap_rect rects r m snap =
    let y0 = when m.north (snap_line true rects (pos (suc snap)) r r.min_y) (pos (suc snap)) in
    let y1 = when m.south (snap_line true rects y0 r r.max_y) y0 in
    let x0 = when m.east (snap_line false rects (pos (suc snap)) r r.max_x) (pos (suc snap)) in
    let x1 = when m.west (snap_line false rects x0 r r.min_x) x0 in
    let sx = leb_ℤ (abs x1) (pos snap) in
    let sy = leb_ℤ (abs y1) (pos snap) in
    let t = rect_morph r (pt (when sx x1 (pos 0)) (when sy y1 (pos 0))) m in
    let n = t.1 in
    (
      t.0,
      n,
      record {
        north = xor (not sy) n.north;
        east = xor (not sx) n.east;
        south = xor (not sy) n.south;
        west = xor (not sx) n.west;
      },
    )
