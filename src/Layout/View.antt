-- ===== src/Layout/View.antt =====
-- cmd/wmii/view.c: how a view shares its width among its columns, and the sorted list of views.
pub mod Scale
use wmii.Base.{
  ℕ, zero, suc, ◌+◌, ◌*◌, ◌-◌, ◌≡◌, refl, Bool, true, false, Option, none, some, List, [], ◌∷◌,
  ◌++◌, ◌&&◌, not, if◌then◌else◌, ◌==◌, map, ltb, leb, length,
}
use wmii.Base.Int.{ℤ, pos, negsuc, ◌+ℤ◌, ◌-ℤ◌, ltb_ℤ, eqb_ℤ, to_uint}
use wmii.Geom.{Rectangle, dx}

unfoldable pub widths : List Rectangle → ℤ
widths [] = pos 0
widths (a ∷ l) = dx a +ℤ widths l

-- The first loop of `view_scale`; `stretch xoff w` is the `float` expression `xoff + w * scale`, stored
-- in an `int`. The last column ends at `right`.
unfoldable pub spread : (ℤ → ℤ → ℤ) → ℤ → ℤ → List Rectangle → List Rectangle
spread stretch xoff right [] = []
spread stretch xoff right (a ∷ []) = record a { min_x = xoff; max_x = right } ∷ []
spread stretch xoff right (a ∷ (b ∷ l)) =
    record a { min_x = xoff; max_x = stretch xoff (dx a) }
    ∷ spread stretch (stretch xoff (dx a)) right (b ∷ l)

-- The second loop: `Dx(a->r) < minwidth` compares an `int` with an `uint`, so as `uint`s.
unfoldable pub widened : ℕ → ℤ → Rectangle → ℤ
unfolding to_uint
widened minwidth xoff a =
    if ltb (to_uint (a.max_x -ℤ xoff)) minwidth then xoff +ℤ pos minwidth else a.max_x

unfoldable pub widen : ℕ → ℤ → ℤ → List Rectangle → List Rectangle
unfolding widened
widen minwidth xoff right [] = []
widen minwidth xoff right (a ∷ []) = record a { min_x = xoff; max_x = right } ∷ []
widen minwidth xoff right (a ∷ (b ∷ l)) =
    record a { min_x = xoff; max_x = widened minwidth xoff a }
    ∷ widen minwidth (widened minwidth xoff a) right (b ∷ l)

-- `view_scale` of the columns of a screen at `r`, padded by `pad`; `numcol * minwidth > width` compares
-- `uint`s too.
unfoldable pub view_scale :
    (ℤ → ℤ → ℤ) → ℕ → Rectangle → Rectangle → ℤ → List Rectangle → List Rectangle
unfolding widths spread widen to_uint
view_scale stretch minwidth r pad width cols =
    let minx = r.min_x +ℤ pad.min_x in
    let once = spread stretch minx (r.min_x +ℤ width) cols in
    if eqb_ℤ (widths cols) (pos 0)
    then cols
    else (if ltb (to_uint width) (to_uint (pos (length cols * minwidth)))
        then once
        else widen minwidth minx (minx +ℤ width) once)

-- `view_findarea` without `create`: `--idx > 0` counts the columns that are passed.
unfoldable pub view_findarea {ℓ} : {A : Type ℓ} → List A → ℤ → Option A
view_findarea [] idx = none
view_findarea (a ∷ l) idx =
    let rest = view_findarea l (idx -ℤ pos 1) in
    if ltb_ℤ (pos 0) (idx -ℤ pos 1) then rest else some a
