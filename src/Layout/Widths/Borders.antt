-- ===== src/Layout/Widths/Borders.antt =====
-- `column_resizeframe` moves the borders between a column and its neighbours.
use wmii.Base.{◌≡◌, ◌⊎◌, inl, inr, refl, if_both, Option, none, some}
use wmii.Base.Int.{ℤ, ◌+ℤ◌, ◌-ℤ◌, ◌≤ℤ◌, ◌<ℤ◌, ltb_ℤ, int_laws}
use wmii.Geom.{Rectangle, max, min}
use wmii.Layout.Column.Resize.{
  IsLarger, IsSmaller, max-IsLarger, min-IsSmaller, ge-max, max-min, top_high,
}
use wmii.Layout.Widths.{Columns, low_for, high_with, high_for, low_with, column_resizeframe}

-- The column's least left edge: beside a neighbour, `minw` from its start; else that of the view.
abbrev pub first_low : ℤ → Rectangle → Option Rectangle → ℤ
first_low minw v none = v.min_x
first_low minw v (some l) = l.min_x +ℤ minw

abbrev pub last_high : ℤ → Rectangle → Option Rectangle → ℤ
last_high minw v none = v.max_x
last_high minw v (some a) = a.max_x -ℤ minw

-- The left neighbour ends where the column starts and keeps its own start; without one the view's
-- padding reaches to the column.
abbrev pub MeetsLeft : Rectangle → Option Rectangle → Columns → Type 0
MeetsLeft v none w = (w.left ≡ none) × (w.pad_left ≡ some (w.low -ℤ v.min_x))
MeetsLeft v (some l) w =
    (q : Rectangle) × (w.left ≡ some q)
    × (q.max_x ≡ w.low)
    × (q.min_x ≡ l.min_x)
    × (w.pad_left ≡ none)

abbrev pub MeetsRight : Rectangle → Option Rectangle → Columns → Type 0
MeetsRight v none w = (w.right ≡ none) × (w.pad_right ≡ some (w.high -ℤ v.max_x))
MeetsRight v (some a) w =
    (q : Rectangle) × (w.right ≡ some q)
    × (q.min_x ≡ w.high)
    × (q.max_x ≡ a.max_x)
    × (w.pad_right ≡ none)

-- The left edge is the asked one, or the least that it may be; of a last column it may stand before, so
-- that the column is just `minw` wide.
abbrev pub LowAsked :
    ℤ → Rectangle → Option Rectangle → Option Rectangle → Rectangle → Columns → Type 0
LowAsked minw v al none r w =
    (minw ≤ℤ (w.high -ℤ w.low))
    × (IsLarger w.low r.min_x (first_low minw v al) ⊎ ((w.high -ℤ w.low) ≤ℤ minw))
LowAsked minw v al (some a) r w = IsLarger w.low r.min_x (first_low minw v al)

-- The right edge is the asked one, or the last that it may be. Of a first column it may stand behind the
-- asked one, and then the column is `minw` wide, counted from where the left edge was put at first.
abbrev pub HighAsked :
    ℤ → Rectangle → Option Rectangle → Option Rectangle → Rectangle → Columns → Type 0
HighAsked minw v none ar r w =
    (x : ℤ) × IsSmaller w.high x (last_high minw v ar)
    × IsLarger x r.max_x (max r.min_x v.min_x +ℤ minw)
HighAsked minw v (some l) ar r w = IsSmaller w.high r.max_x (last_high minw v ar)

-- Between two neighbours the width is not negative, unless there is a reason.
abbrev pub NotCrossed :
    ℤ → Rectangle → Option Rectangle → Option Rectangle → Rectangle → Columns → Type 0
NotCrossed minw v al none r w = minw ≤ℤ (w.high -ℤ w.low)
NotCrossed minw v none (some a) r w =
    (minw ≤ℤ (w.high -ℤ w.low)) ⊎ (w.high ≡ last_high minw v (some a))
NotCrossed minw v (some l) (some a) r w =
    (w.low ≤ℤ w.high)
    ⊎ ((r.max_x <ℤ r.min_x)
        ⊎ ((r.max_x <ℤ (l.min_x +ℤ minw))
            ⊎ (((a.max_x -ℤ minw) <ℤ r.min_x) ⊎ ((a.max_x -ℤ minw) <ℤ (l.min_x +ℤ minw)))))

left_meets :
    (minw : ℤ) (v : Rectangle) (al ar : Option Rectangle) (r : Rectangle)
    → MeetsLeft v al (column_resizeframe minw v al ar r)
unfolding column_resizeframe
left_meets minw v none ar r = (refl, refl)
left_meets minw v (some l) ar r =
    let w = column_resizeframe minw v (some l) ar r in
    (record l { max_x = w.low }, refl, refl, refl, refl)

right_meets :
    (minw : ℤ) (v : Rectangle) (al ar : Option Rectangle) (r : Rectangle)
    → MeetsRight v ar (column_resizeframe minw v al ar r)
unfolding column_resizeframe
right_meets minw v al none r = (refl, refl)
right_meets minw v al (some a) r =
    let w = column_resizeframe minw v al (some a) r in
    (record a { min_x = w.high }, refl, refl, refl, refl)

low_for-IsLarger :
    (minw : ℤ) (v : Rectangle) (al : Option Rectangle) (r : Rectangle)
    → IsLarger (low_for minw v al r) r.min_x (first_low minw v al)
unfolding low_for
low_for-IsLarger minw v none r = max-IsLarger r.min_x v.min_x
low_for-IsLarger minw v (some l) r = max-IsLarger r.min_x (l.min_x +ℤ minw)

high_for-IsSmaller :
    (minw : ℤ) (v : Rectangle) (ar : Option Rectangle) (x : ℤ)
    → IsSmaller (high_for minw v ar x) x (last_high minw v ar)
unfolding high_for
high_for-IsSmaller minw v none x = min-IsSmaller x v.max_x
high_for-IsSmaller minw v (some a) x = min-IsSmaller x (a.max_x -ℤ minw)

low_asked :
    (minw : ℤ) (v : Rectangle) (al ar : Option Rectangle) (r : Rectangle)
    → LowAsked minw v al ar r (column_resizeframe minw v al ar r)
unfolding column_resizeframe low_with min
low_asked minw v al none r =
    let w = column_resizeframe minw v al none r in
    let x0 = low_for minw v al r in
    (
      top_high x0 w.high minw,
      if_both (λ x. IsLarger x r.min_x (first_low minw v al) ⊎ ((w.high -ℤ x) ≤ℤ minw))
          (ltb_ℤ x0 (w.high -ℤ minw)) (inl (low_for-IsLarger minw v al r)) (inr (omega int_laws)),
    )
low_asked minw v al (some a) r = low_for-IsLarger minw v al r

high_asked :
    (minw : ℤ) (v : Rectangle) (al ar : Option Rectangle) (r : Rectangle)
    → HighAsked minw v al ar r (column_resizeframe minw v al ar r)
unfolding column_resizeframe high_with low_for
high_asked minw v none ar r =
    let x = max r.max_x (max r.min_x v.min_x +ℤ minw) in
    (x, high_for-IsSmaller minw v ar x, max-IsLarger r.max_x (max r.min_x v.min_x +ℤ minw))
high_asked minw v (some l) ar r = high_for-IsSmaller minw v ar r.max_x

first_wide :
    (minw x y b : ℤ) → (minw ≤ℤ (min (max y (x +ℤ minw)) b -ℤ x)) ⊎ (min (max y (x +ℤ minw)) b ≡ b)
unfolding min
first_wide minw x y b =
    if_both (λ z. (minw ≤ℤ (z -ℤ x)) ⊎ (z ≡ b)) (ltb_ℤ (max y (x +ℤ minw)) b)
      (inl (let h = (ge-max y (x +ℤ minw)).0 in omega (int_laws, h))) (inr refl)

not_crossed :
    (minw : ℤ) (v : Rectangle) (al ar : Option Rectangle) (r : Rectangle)
    → NotCrossed minw v al ar r (column_resizeframe minw v al ar r)
unfolding column_resizeframe low_for low_with high_with high_for
not_crossed minw v al none r =
    let w = column_resizeframe minw v al none r in top_high (low_for minw v al r) w.high minw
not_crossed minw v none (some a) r = first_wide minw (max r.min_x v.min_x) r.max_x (a.max_x -ℤ minw)
not_crossed minw v (some l) (some a) r = max-min r.min_x (l.min_x +ℤ minw) r.max_x (a.max_x -ℤ minw)

-- `column_resizeframe` lets the column on the left end where the column starts and that on the right
-- start where it ends, and keeps their far edges; where a side has no column the view's padding reaches
-- to the column. The left edge is the asked one, or the least that it may be: `minw` from the left
-- column's start, or the view's edge; but a last column is at least `minw` wide, and may start before for
-- that. The right edge is the asked one, or the last that it may be: `minw` before the right column's
-- end, or the view's edge; of a first column it is put at least `minw` from the left edge before that.
-- A first column beside another is at least `minw` wide, or ends `minw` before the end of that. Between
-- two columns the width is not negative, unless the asked rectangle is upside down, ends less than `minw`
-- behind the left column's start or starts less than `minw` before the right one's end, or these two are
-- less than twice `minw` apart.
pub column_resizeframe-Meets :
    (minw : ℤ) (v : Rectangle) (al ar : Option Rectangle) (r : Rectangle)
    → MeetsLeft v al (column_resizeframe minw v al ar r)
      × MeetsRight v ar (column_resizeframe minw v al ar r)
      × LowAsked minw v al ar r (column_resizeframe minw v al ar r)
      × HighAsked minw v al ar r (column_resizeframe minw v al ar r)
      × NotCrossed minw v al ar r (column_resizeframe minw v al ar r)
column_resizeframe-Meets minw v al ar r = (
  left_meets minw v al ar r,
  right_meets minw v al ar r,
  low_asked minw v al ar r,
  high_asked minw v al ar r,
  not_crossed minw v al ar r,
)
