-- ===== src/Layout/Widths.antt =====
-- `column_resizeframe` of cmd/wmii/column.c: the borders between a column and its neighbours, and the
-- view's padding where it has none. The frame's own height goes to `column_resizeframe_h`.
pub mod Borders
use wmii.Base.{Option, none, some}
use wmii.Base.Int.{ℤ, pos, ◌+ℤ◌, ◌-ℤ◌}
use wmii.Geom.{Rectangle, max, min}

-- `a->r.min.x` and `a->r.max.x`, the neighbours' rectangles, and the padding's sides where they are set.
pub record Columns : Type 0 where
  pub low : ℤ
  pub high : ℤ
  pub left : Option Rectangle
  pub right : Option Rectangle
  pub pad_left : Option ℤ
  pub pad_right : Option ℤ

-- The tests of `al`: the left edge, and the right edge with it.
unfoldable pub low_for : ℤ → Rectangle → Option Rectangle → Rectangle → ℤ
unfolding max
low_for minw v none r = max r.min_x v.min_x
low_for minw v (some l) r = max r.min_x (l.min_x +ℤ minw)

unfoldable pub high_with : ℤ → Option Rectangle → ℤ → ℤ → ℤ
unfolding max
high_with minw none low high = max high (low +ℤ minw)
high_with minw (some l) low high = high

-- The tests of `ar`.
unfoldable pub high_for : ℤ → Rectangle → Option Rectangle → ℤ → ℤ
unfolding min
high_for minw v none high = min high v.max_x
high_for minw v (some a) high = min high (a.max_x -ℤ minw)

unfoldable pub low_with : ℤ → Option Rectangle → ℤ → ℤ → ℤ
unfolding min
low_with minw none low high = min low (high -ℤ minw)
low_with minw (some a) low high = low

abbrev pub ends_at : Option Rectangle → ℤ → Option Rectangle
ends_at none x = none
ends_at (some l) x = some (record l { max_x = x })

abbrev pub starts_at : Option Rectangle → ℤ → Option Rectangle
starts_at none x = none
starts_at (some a) x = some (record a { min_x = x })

abbrev pub padding : Option Rectangle → ℤ → ℤ → Option ℤ
padding none x edge = some (x -ℤ edge)
padding (some a) x edge = none

-- In a view at `v` on the column's screen; `minw` is `column_minwidth()`.
unfoldable pub column_resizeframe :
    ℤ → Rectangle → Option Rectangle → Option Rectangle → Rectangle → Columns
unfolding low_for high_with high_for low_with
column_resizeframe minw v al ar r =
    let x0 = low_for minw v al r in
    let x1 = high_for minw v ar (high_with minw al x0 r.max_x) in
    let low = low_with minw ar x0 x1 in
    record {
      low = low;
      high = x1;
      left = ends_at al low;
      right = starts_at ar x1;
      pad_left = padding al low v.min_x;
      pad_right = padding ar x1 v.max_x;
    }
