-- ===== src/Layout/Fit.antt =====
-- cmd/wmii/column.c, `column_fit`: which frames of a column are collapsed, and which go to the floating
-- area, so that the others have room. Heights are pixels, far below 2^24, so that the quotients that the
-- source takes as `float` and rounds up are those of the integers.
pub mod Counts
use wmii.Base.{
  ℕ, zero, suc, ◌+◌, ◌-◌, ◌*◌, ◌/◌, ◌≤◌, ◌<◌, ◌≡◌, Bool, true, false, not, ◌&&◌, ◌||◌, Option, none,
  some, List, [], ◌∷◌, ◌++◌, ◌==◌, if◌then◌else◌, map, ltb, leb,
}
use wmii.Base.Int.{ℤ, pos, negsuc, pos_part, neg_part, ◌+ℤ◌, ◌-ℤ◌, ltb_ℤ, eqb_ℤ, to_uint}
use wmii.Geom.{min}

pub record Frame : Type 0 where
  pub id : ℕ
  pub collapsed : Bool
  pub colr_dy : ℤ
  pub fullscreen : Bool

-- What `frame_resize(f, f->colr)` does to `f->collapsed`: a frame of a column in the default mode is
-- collapsed exactly if it is lower than two labels, unless its client is full-screen.
unfoldable pub resized : Bool → ℕ → Frame → Frame
resized coldefault labelh f =
    if f.fullscreen || not coldefault
    then f
    else record f { collapsed = ltb_ℤ f.colr_dy (pos (2 * labelh)) }

unfoldable pub count : Bool → List Frame → ℕ
count c [] = 0
count true (f ∷ fs) = if f.collapsed then suc (count true fs) else count true fs
count false (f ∷ fs) = if f.collapsed then count false fs else suc (count false fs)

-- `(a->sel ? a->sel : a->frame)->collapsed = false`
unfoldable pub show : ℕ → List Frame → List Frame
show i [] = []
show i (f ∷ fs) = if f.id == i then record f { collapsed = false } ∷ fs else f ∷ show i fs

abbrev pub sel_or_first : Option ℕ → List Frame → ℕ
sel_or_first (some i) fs = i
sel_or_first none [] = 0
sel_or_first none (f ∷ fs) = f.id

-- `n_col` and `n_uncol`.
pub record Numbers : Type 0 where
  pub n_col : ℕ
  pub n_uncol : ℕ

-- `ceil(-1.F * surplus / d)` of a negative surplus.
abbrev pub ceil_div : ℕ → ℕ → ℕ
ceil_div a d = (a + (d - 1)) / d

-- `Dy(a->r) - n_col * col_h - n_uncol * uncol_h`, and how far it is below zero.
abbrev pub surplus_of : ℤ → ℕ → ℕ → Numbers → ℤ
surplus_of height col_h uncol_h n = height -ℤ pos (n.n_col * col_h + n.n_uncol * uncol_h)

-- Collapse until there is room, but leave one frame.
abbrev pub at_most : ℕ → ℕ → ℕ
at_most i m = if leb i m then i else m

unfoldable pub collapse_some : ℤ → ℕ → ℕ → Numbers → Numbers
collapse_some height col_h uncol_h n =
    let lack = neg_part (surplus_of height col_h uncol_h n) in
    let i = at_most (ceil_div lack (uncol_h - col_h)) (n.n_uncol - 1) in
    if lack == 0 then n else record { n_col = n.n_col + i; n_uncol = n.n_uncol - i }

-- Push to the floating layer until there is room.
unfoldable pub float_some : ℤ → ℕ → ℕ → Numbers → Numbers
float_some height col_h uncol_h n =
    let lack = neg_part (surplus_of height col_h uncol_h n) in
    let i = at_most (ceil_div lack col_h) n.n_col in
    if (lack == 0) || (col_h == 0) then n else record n { n_col = n.n_col - i }

-- How many collapsed and uncollapsed frames the column has room for.
unfoldable pub fit_numbers : ℤ → ℕ → ℕ → Numbers → Numbers
unfolding collapse_some float_some
fit_numbers height col_h uncol_h n =
    float_some height col_h uncol_h (collapse_some height col_h uncol_h n)

-- The last loop, up to its first call of `area_moveto`, if it makes one: that takes the frame out of the
-- column and has the column laid out again, by `column_fit` too, before the loop goes on. So the loop
-- comes to its end with the frames as they are left, or to the call with the frames that it has passed,
-- the frame to be moved, and those that follow.
pub data Fit : Type 0 where
  fitted : List Frame → Fit
  moves : List Frame → Frame → List Frame → Fit

abbrev pub keep_frame : Frame → Fit → Fit
keep_frame f (fitted kept) = fitted (f ∷ kept)
keep_frame f (moves passed g rest) = moves (f ∷ passed) g rest

-- A frame that is or has been collapsed, when `i` of them may stay; `j` and `i` are the source's plus one,
-- so that its `j < 0` is zero here.
abbrev pub place_collapsed : Frame → List Frame → ℕ → (ℕ → Fit) → Fit
place_collapsed f fs zero go = moves [] (record f { collapsed = false }) fs
place_collapsed f fs (suc i) go = keep_frame (record f { collapsed = true }) (go i)

abbrev pub place_shown : Frame → List Frame → ℕ → ℕ → (ℕ → ℕ → Fit) → Fit
place_shown f fs zero i go = place_collapsed f fs i (go 0)
place_shown f fs (suc j) i go = keep_frame f (go j i)

-- `f == a->sel`
abbrev pub same_id : Option ℕ → ℕ → Bool
same_id none i = false
same_id (some k) i = i == k

abbrev pub is_sel : Option ℕ → Frame → Bool
is_sel sel f = same_id sel f.id

unfoldable pub fit_frames : Option ℕ → ℕ → ℕ → List Frame → Fit
fit_frames sel j i [] = fitted []
fit_frames sel j i (f ∷ fs) =
    let go = (λ (j' : ℕ) (i' : ℕ). fit_frames sel j' i' fs) in
    if is_sel sel f
    then keep_frame f (go j i)
    else if f.collapsed
    then place_collapsed f fs i (go j)
    else place_shown f fs j i go

-- With every frame collapsed, the selected or the first is shown.
abbrev pub some_shown : Option ℕ → List Frame → List Frame
some_shown sel fs = if count false fs == 0 then show (sel_or_first sel fs) fs else fs

-- `a->r.max.y += min(dy, minh - Dy(a->r))`: a column lower than its view is lengthened to `minh`.
unfoldable pub lengthened : ℤ → ℕ → ℤ → ℤ
unfolding min to_uint
lengthened view_dy minh height =
    if not (eqb_ℤ view_dy height) && ltb (to_uint height) minh
    then height +ℤ min (view_dy -ℤ height) (pos minh -ℤ height)
    else height

-- What `column_fit` comes to at the end of its last loop, or at the first call of `area_moveto` in it: the
-- frames, the height of the column, and `n_col` and `n_uncol`.
pub record Fitted : Type 0 where
  pub frames : Fit
  pub height : ℤ
  pub numbers : Numbers

-- `column_fit`, up to its first call of `area_moveto`, of a column with frames, whose height is `Dy(a->r)`; `stacked` is `a->max && !resizing`.
unfoldable pub column_fit : Bool → Bool → ℕ → ℤ → ℤ → Option ℕ → List Frame → Fitted
unfolding resized show count fit_numbers fit_frames lengthened
column_fit coldefault stacked labelh view_dy dy sel frames =
    let col_h = if stacked then 0 else labelh in
    let uncol_h = labelh + labelh + 1 in
    let fs = some_shown sel (map (resized coldefault labelh) frames) in
    let n : Numbers = record { n_col = count true fs; n_uncol = count false fs } in
    let height = lengthened view_dy (col_h * (n.n_col + n.n_uncol - 1) + uncol_h) dy in
    let m = fit_numbers height col_h uncol_h n in
    record { frames = fit_frames sel m.n_uncol m.n_col fs; height = height; numbers = m }
