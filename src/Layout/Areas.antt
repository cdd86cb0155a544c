-- ===== src/Layout/Areas.antt =====
-- cmd/wmii/area.c: the columns of a screen, the width of a new one, and which frame and area are
-- selected; and `view_create`'s list of views in cmd/wmii/view.c.
pub mod Selected
use Prim.Native.Nat.{Ordering}
use wmii.Base.{
  ℕ, zero, suc, ◌+◌, ◌-◌, ◌*◌, ◌/◌, ◌≡◌, Bool, true, false, not, ◌&&◌, ◌||◌, Option, none, some,
  List, [], ◌∷◌, ◌++◌, ◌==◌, if◌then◌else◌, ltb,
}
use wmii.Base.Int.{ℤ, pos, ◌+ℤ◌, ◌-ℤ◌, ltb_ℤ, quot}
use wmii.Base.Str.{CString, strcmp}
use wmii.Geom.{Rectangle, dx, min}
use wmii.Layout.Stack.{Frame, Place}

-- `area_idx` of a column of the screen; the floating area has -1. A column that is not there would be
-- searched for past the end.
unfoldable pub index_from : ℕ → ℕ → List ℕ → Option ℕ
index_from i a [] = none
index_from i a (c ∷ cs) = let rest = index_from (i + 1) a cs in if c == a then some i else rest

unfoldable pub area_idx : ℕ → List ℕ → Option ℕ
unfolding index_from
area_idx a columns = index_from 1 a columns

-- The first loop of `area_setsel`: down past collapsed frames, and the second: up past them.
unfoldable pub slide_down : List Frame → Frame → List Frame → Place
slide_down above f [] = record { above = above; frame = f; below = [] }
slide_down above f (g ∷ below) =
    let rest = slide_down (f ∷ above) g below in
    if f.collapsed then rest else record { above = above; frame = f; below = g ∷ below }

unfoldable pub slide_up : List Frame → Frame → List Frame → Place
slide_up [] f below = record { above = []; frame = f; below = below }
slide_up (g ∷ above) f below =
    let rest = slide_up above g (f ∷ below) in
    if f.collapsed then rest else record { above = g ∷ above; frame = f; below = below }

abbrev pub slide_up_from : Place → Place
slide_up_from p = slide_up p.above p.frame p.below

-- The frame that `area_setsel` selects or focuses.
unfoldable pub area_setsel : List Frame → Frame → List Frame → Place
unfolding slide_down slide_up
area_setsel above f below = slide_up_from (slide_down above f below)

-- `area_create` of a column: the least width for one more column, and the width that it gets.
-- `asked` is the argument, and `ruled` is what `view_newcolwidth` returns; 0 is for none.
unfoldable pub column_width : ℕ → ℕ → ℕ → ℕ → ℕ → Option ℕ
column_width dx_screen minwidth numcols asked ruled =
    let chosen =
      if asked == 0 then (if ruled == 0 then dx_screen / (numcols + 1) else ruled) else asked in
    let width = if ltb chosen minwidth then minwidth else chosen in
    if ltb dx_screen (numcols * minwidth + minwidth) then none else some width

-- What a padding gives up where the least width of all columns, `minwidth`, is not there: `i` is the
-- lack, and `i / 2` is cut toward zero. The right padding grows by what is left of it.
unfoldable pub less_padding : ℕ → Rectangle → Rectangle → Rectangle
unfolding min
less_padding minwidth pad r =
    let i = (pos minwidth -ℤ dx pad) -ℤ dx r in
    let j = min (quot i 2) pad.min_x in
    if ltb_ℤ (pos 0) i && not (dx_is_zero (dx pad))
    then record pad { min_x = pad.min_x -ℤ j; max_x = pad.max_x +ℤ (i -ℤ j) }
    else pad
  where
    dx_is_zero : ℤ → Bool
    dx_is_zero d = not (ltb_ℤ d (pos 0)) && not (ltb_ℤ (pos 0) d)

-- The columns with a new one behind `after`, or first.
unfoldable pub insert_column : ℕ → Option ℕ → List ℕ → List ℕ
insert_column a none cs = a ∷ cs
insert_column a (some p) [] = []
insert_column a (some p) (c ∷ cs) =
    let rest = insert_column a (some p) cs in if c == p then c ∷ (a ∷ cs) else c ∷ rest

-- `area_destroy` of a column: the columns that are left, and the one to focus, which is the one before
-- it or else the one behind it.
pub record Destroyed : Type 0 where
  pub columns : List ℕ
  pub newfocus : Option ℕ

abbrev pub head_of : List ℕ → Option ℕ
head_of [] = none
head_of (c ∷ cs) = some c

abbrev pub or_prev : Option ℕ → Option ℕ → Option ℕ
or_prev none next = next
or_prev (some p) next = some p

abbrev pub keep_column : ℕ → Destroyed → Destroyed
keep_column c d = record d { columns = c ∷ d.columns }

unfoldable pub destroy_from : ℕ → Option ℕ → List ℕ → Destroyed
destroy_from a prev [] = record { columns = []; newfocus = none }
destroy_from a prev (c ∷ cs) =
    let rest = keep_column c (destroy_from a (some c) cs) in
    if c == a then record { columns = cs; newfocus = or_prev prev (head_of cs) } else rest

unfoldable pub area_destroy : ℕ → List ℕ → Destroyed
unfolding destroy_from
area_destroy a cs = destroy_from a none cs

-- What `area_focus` changes of a view.
pub record View : Type 0 where
  pub sel : ℕ
  pub selcol : ℕ
  pub selscreen : ℕ
  pub oldsel : Option ℕ
  pub revert : Option ℕ

-- An area that is focused, with its place; `floats` tells of the area that was selected.
pub record Area : Type 0 where
  pub id : ℕ
  pub floating : Bool
  pub screen : ℕ
  pub idx : ℕ

abbrev pub differs : Bool → Bool → Bool
differs true b = not b
differs false b = b

-- `area_focus(a)` where no full-screen client is in the way: `covered` is `view_fullscreen_p`.
unfoldable pub area_focus : Bool → Bool → Area → View → View
area_focus covered floats a v = if not a.floating && covered then v else record {
  sel = a.id;
  selcol = if a.floating then v.selcol else a.idx;
  selscreen = if a.floating then v.selscreen else a.screen;
  oldsel = if a.id == v.sel then v.oldsel else none;
  revert = if differs a.floating floats then some v.sel else v.revert;
}

-- The loop of `view_create`: the view of the name, or where a new one goes in the list.
pub data Viewed : Type 0 where
  existing : Viewed
  created : List CString → Viewed

abbrev pub behind_view : CString → Viewed → Viewed
behind_view v existing = existing
behind_view v (created l) = created (v ∷ l)

abbrev pub by_order : Ordering → CString → CString → List CString → Viewed → Viewed
by_order Ordering.eq name v vs rest = existing
by_order Ordering.gt name v vs rest = created (name ∷ (v ∷ vs))
by_order Ordering.lt name v vs rest = behind_view v rest

unfoldable pub view_create : CString → List CString → Viewed
unfolding strcmp
view_create name [] = created (name ∷ [])
view_create name (v ∷ vs) = by_order (strcmp v name) name v vs (view_create name vs)
