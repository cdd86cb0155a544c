-- ===== src/Tests/Layout.antt =====
-- Linked lists, columns, views and stacks at concrete inputs.
use wmii.Base.{
  length, ℕ, ◌≡◌, refl, Bool, true, false, none, some, List, [], ◌∷◌, ◌<◌, ◌≤◌, ◌*◌, arith,
}
use wmii.Base.Int.{pos, ◌+ℤ◌, ◌-ℤ◌, ◌<ℤ◌}
use wmii.Geom.{Rectangle, rect}
use wmii.Layout.Links.{Links, Area, put, frame_insert, frame_remove}
use wmii.Layout.Links.Insert.{Ordered}
use wmii.Layout.Links.Order.{Stacked, frame_insert-floating, frame_remove-deletes}
use wmii.Layout.Column.{Around, column_settle, column_resizeframe_h, column_surplus, uncollapsed}
use wmii.Layout.Column.Fills.{Tiled, column_settle-Tiled}
use wmii.Layout.Column.Resize.{MeetsAbove, MeetsBelow, NotCrossed, column_resizeframe_h-Meets}
use wmii.Layout.Widths.{Columns, column_resizeframe}
use wmii.Layout.Widths.Borders.{
  MeetsLeft, MeetsRight, LowAsked, HighAsked, column_resizeframe-Meets,
}
use wmii.Layout.View.{widths, widen, view_scale}
use wmii.Layout.View.Scale.{
  EdgeToEdge, AnyWidth, WideOrNegative, second_width, view_scale-EdgeToEdge, widen-negative,
}
use wmii.Layout.Stack.{stack_info, stack_find, stack_find_nil}
use wmii.Layout.Stack.Find.{FirstOf, rev, stack_find-FirstOf}
use wmii.Layout.Mode.{Mode, column_setmode, column_getmode}
use wmii.Layout.Mode.Text.{column_setmode-getmode}
use wmii.Geom.{rect_intersection}
use wmii.Layout.Fit.{fitted, count, fit_frames, column_fit}
use wmii.Layout.Fit.Counts.{
  KeepsSelected, Counts, selected, others, fit_frames-Counts, column_fit-one_more,
}
use wmii.Layout.Struts.{fix_rect}
use wmii.Layout.Struts.Fixed.{fix_rect-intersection}

abbrev nil : Links
nil j = none

-- Frames 1 and 2 in this order; 2 is on top where the area floats.
abbrev area : Bool → Area
area floating = record {
  floating = floating;
  frame = some 1;
  stack = some 2;
  anext = put nil 1 (some 2);
  aprev = put nil 2 (some 1);
  snext = put nil 2 (some 1);
  sprev = put nil 1 (some 2);
}

frame_insert-floating_example :
    Ordered (frame_insert (area true) 3 (some 1)) (1 ∷ 3 ∷ 2 ∷ [])
    × Stacked (frame_insert (area true) 3 (some 1)) (3 ∷ 2 ∷ 1 ∷ [])
unfolding put
frame_insert-floating_example =
    frame_insert-floating (area true) 3 1 [] (2 ∷ []) (2 ∷ 1 ∷ []) refl ((refl, tt), (tt, tt))
      (refl, (refl, tt)) (refl, refl, (refl, refl, refl)) ((refl, tt), (tt, tt)) (refl, (refl, tt))
      (refl, refl, (refl, refl, refl)) (refl, refl, refl)

frame_remove-deletes_example :
    Ordered (frame_remove (area true) 1) (2 ∷ [])
    × ((area true).floating ≡ true → Stacked (frame_remove (area true) 1) (2 ∷ []))
unfolding put
frame_remove-deletes_example =
    frame_remove-deletes (area true) 1 [] (2 ∷ []) (2 ∷ []) [] ((refl, tt), (tt, tt))
      (refl, refl, (refl, refl, refl)) ((refl, tt), (tt, tt))
      (λ h. (refl, refl, (refl, refl, refl)))

abbrev box : ℕ → ℕ → ℕ → ℕ → Rectangle
box a b c d = rect (pos a) (pos b) (pos c) (pos d)

abbrev frames : List wmii.Layout.Column.Frame
frames =
    record { r = box 0 0 9 10; colr = box 0 0 9 10; collapsed = false }
    ∷ record { r = box 0 0 9 3; colr = box 0 0 9 3; collapsed = true }
    ∷ record { r = box 0 0 9 20; colr = box 0 0 9 20; collapsed = false }
    ∷ []

column_settle-Tiled_example :
    Tiled (box 5 5 25 105) (pos 5) (pos 105) (column_settle true (box 5 5 25 105) frames)
unfolding uncollapsed column_surplus ◌-ℤ◌
column_settle-Tiled_example =
    column_settle-Tiled (box 5 5 25 105) frames (omega arith) (omega arith)

abbrev asked : Around
asked =
    column_resizeframe_h (pos 15) (box 0 0 9 100) (some (box 0 0 9 40)) (some (box 0 60 9 100))
      (box 0 2 9 90)

column_resizeframe_h-Meets_example :
    MeetsAbove (pos 15) (box 0 0 9 100) (some (box 0 0 9 40)) (box 0 2 9 90) asked
    × MeetsBelow (pos 15) (box 0 0 9 100) (some (box 0 60 9 100)) (box 0 2 9 90) asked
    × NotCrossed (pos 15) (some (box 0 0 9 40)) (some (box 0 60 9 100)) (box 0 2 9 90) asked
column_resizeframe_h-Meets_example =
    column_resizeframe_h-Meets (pos 15) (box 0 0 9 100) (some (box 0 0 9 40))
      (some (box 0 60 9 100)) (box 0 2 9 90)

abbrev columns : List Rectangle
columns = box 0 0 10 50 ∷ box 10 0 40 50 ∷ []

view_scale-EdgeToEdge_example :
    let cols = view_scale (λ x w. x +ℤ w) 15 (box 0 0 80 50) (box 0 0 0 0) (pos 80) columns in
    (length cols ≡ 2)
    × (2 * 15 ≤ 80
        → EdgeToEdge (WideOrNegative 15) (pos 0 +ℤ pos 0) ((pos 0 +ℤ pos 0) +ℤ pos 80) cols)
    × (80 < 2 * 15 → EdgeToEdge AnyWidth (pos 0 +ℤ pos 0) (pos 0 +ℤ pos 80) cols)
unfolding widths ◌+ℤ◌ ◌-ℤ◌
view_scale-EdgeToEdge_example =
    view_scale-EdgeToEdge (λ x w. x +ℤ w) 15 80 (box 0 0 80 50) (box 0 0 0 0) columns refl
      (omega arith) (omega arith)

widen-negative_example :
    (second_width (widen 100 (pos 0) (pos 990) (box 0 0 10 9 ∷ box 10 0 20 9 ∷ box 20 0 990 9 ∷ []))
      ≡ (pos 20 -ℤ pos 0) -ℤ pos 100)
    × (second_width
          (widen 100 (pos 0) (pos 990) (box 0 0 10 9 ∷ box 10 0 20 9 ∷ box 20 0 990 9 ∷ []))
        <ℤ pos 0)
unfolding ◌-ℤ◌
widen-negative_example =
    widen-negative 100 (pos 0) (pos 990) (box 0 0 10 9) (box 10 0 20 9) (box 20 0 990 9) []
      (omega arith) (omega arith) (omega arith) (omega arith)

abbrev stacked : ℕ → Bool → wmii.Layout.Stack.Frame
stacked id collapsed = record {
  id = id;
  colr = box 0 0 9 20;
  collapsed = collapsed;
  nofocus = false;
}

stack_find-FirstOf_example :
    FirstOf true
      (stacked 1 true ∷ [])
      (stack_find true true (stacked 1 true ∷ []) (stacked 2 false ∷ []))
    × FirstOf true
        (stacked 2 false ∷ [])
        (stack_find true false (stacked 1 true ∷ []) (stacked 2 false ∷ []))
    × FirstOf true
        (rev true (stacked 3 false ∷ stacked 4 true ∷ []) [])
        (stack_find_nil true true (stacked 3 false ∷ stacked 4 true ∷ []))
    × FirstOf true
        (stacked 3 false ∷ stacked 4 true ∷ [])
        (stack_find_nil true false (stacked 3 false ∷ stacked 4 true ∷ []))
stack_find-FirstOf_example =
    stack_find-FirstOf true (stacked 1 true ∷ []) (stacked 2 false ∷ [])
      (stacked 3 false ∷ stacked 4 true ∷ [])

abbrev stack_max : Mode
stack_max = record { stack = true; max = true }

column_setmode-getmode_example :
    column_setmode 4 (record { stack = false; max = false }) (column_getmode stack_max)
    ≡ some (stack_max, true)
column_setmode-getmode_example =
    column_setmode-getmode stack_max (record { stack = false; max = false })

abbrev bordered : Columns
bordered = column_resizeframe (pos 10) (box 0 0 90 9) (some (box 0 0 40 9)) none (box 2 0 85 9)

column_resizeframe-Meets_example :
    MeetsLeft (box 0 0 90 9) (some (box 0 0 40 9)) bordered
    × MeetsRight (box 0 0 90 9) none bordered
    × LowAsked (pos 10) (box 0 0 90 9) (some (box 0 0 40 9)) none (box 2 0 85 9) bordered
    × HighAsked (pos 10) (box 0 0 90 9) (some (box 0 0 40 9)) none (box 2 0 85 9) bordered
    × wmii.Layout.Widths.Borders.NotCrossed
        (pos 10)
        (box 0 0 90 9)
        (some (box 0 0 40 9))
        none
        (box 2 0 85 9)
        bordered
column_resizeframe-Meets_example =
    column_resizeframe-Meets (pos 10) (box 0 0 90 9) (some (box 0 0 40 9)) none (box 2 0 85 9)

-- Three frames of which the first is selected, in a column with room for two.
abbrev three : List wmii.Layout.Fit.Frame
three =
    record { id = 1; collapsed = false; colr_dy = pos 40; fullscreen = false }
    ∷ (record { id = 2; collapsed = false; colr_dy = pos 40; fullscreen = false }
        ∷ (record { id = 3; collapsed = false; colr_dy = pos 40; fullscreen = false } ∷ []))

fit_frames-Counts_example :
    Counts
      (some 1)
      2
      1
      (count false (selected (some 1) three))
      (count true (selected (some 1) three))
      (count false (others (some 1) three))
      (count true (others (some 1) three))
      3
      (fit_frames (some 1) 2 1 three)
    × KeepsSelected (some 1) (selected (some 1) three) (fit_frames (some 1) 2 1 three)
fit_frames-Counts_example = fit_frames-Counts (some 1) 2 1 three

-- Labels 10 high, and a column of 45: there is room for one frame, and two that are collapsed.
column_fit-one_more_example :
    (kept : List wmii.Layout.Fit.Frame) × ((column_fit true false 10
        (pos 45)
        (pos 45)
        (some 1)
        three).frames
      ≡ fitted kept)
    × (count false kept ≡ 2)
unfolding column_fit ◌-ℤ◌
column_fit-one_more_example =
    column_fit-one_more true false 10 (pos 45) (pos 45) (some 1) three refl (omega arith)
      (omega arith)

fix_rect-intersection_example :
    fix_rect (rect (pos 0) (pos 0) (pos 100) (pos 100)) (rect (pos 0) (pos 95) (pos 100) (pos 100))
    ≡ rect_intersection
        (rect (pos 0) (pos 95) (pos 100) (pos 100))
        (rect (pos 0) (pos 0) (pos 100) (pos 100))
unfolding rect_intersection ◌-ℤ◌
fix_rect-intersection_example =
    fix_rect-intersection (rect (pos 0) (pos 0) (pos 100) (pos 100))
      (rect (pos 0) (pos 95) (pos 100) (pos 100)) (omega arith) (omega arith) (omega arith)
      (omega arith)
