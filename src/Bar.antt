-- ===== src/Bar.antt =====
-- cmd/wmii/bar.c: the sorted list of the bars of one side of a screen, and where the bar's window is.
pub mod Sorted
use Prim.Native.Nat.{Ordering}
use wmii.Base.{
  ℕ, suc, ◌+◌, ◌≡◌, refl, Bool, true, false, Option, none, some, List, [], ◌∷◌, ◌==◌, if◌then◌else◌,
}
use wmii.Base.Int.{ℤ, ◌+ℤ◌, ◌-ℤ◌}
use wmii.Base.Str.{CString, strcmp}
use wmii.Geom.{Rectangle, rect, dy}

-- A bar as the list reads it.
pub record Bar : Type 0 where
  pub id : ℕ
  pub name : CString

-- `!strcmp(...)` and `strcmp(...) < 0`
abbrev pub by_equal {ℓ} : {A : Type ℓ} → Ordering → A → A → A
by_equal Ordering.eq a b = a
by_equal Ordering.lt a b = b
by_equal Ordering.gt a b = b

abbrev pub by_order {ℓ} : {A : Type ℓ} → Ordering → A → A → A
by_order Ordering.lt a b = a
by_order Ordering.eq a b = b
by_order Ordering.gt a b = b

unfoldable pub bar_find : List Bar → CString → Option Bar
bar_find [] name = none
bar_find (b ∷ l) name = let rest = bar_find l name in by_equal (strcmp b.name name) (some b) rest

-- The new bar goes before the first one whose name is not less.
unfoldable pub bar_place : Bar → CString → List Bar → List Bar
bar_place new name [] = new ∷ []
bar_place new name (b ∷ l) =
    let rest = bar_place new name l in by_order (strcmp b.name name) (b ∷ rest) (new ∷ (b ∷ l))

-- The bars, the next id and the bar that is returned.
pub record Bars : Type 0 where
  pub bars : List Bar
  pub next_id : ℕ
  pub made : Bar

-- What `bar_create` does with the bar that `bar_find` returns; `stored` is what the `name` array keeps of
-- a name, by `utflcpy`.
unfoldable pub create_from : (CString → CString) → List Bar → ℕ → CString → Option Bar → Bars
unfolding bar_place
create_from stored l id name (some b) = record { bars = l; next_id = id; made = b }
create_from stored l id name none =
    let b : Bar = record { id = id; name = stored name } in
    record { bars = bar_place b name l; next_id = id + 1; made = b }

unfoldable pub bar_create : (CString → CString) → List Bar → ℕ → CString → Bars
unfolding bar_find create_from
bar_create stored l id name = create_from stored l id name (bar_find l name)

-- `bar_destroy`; a bar that is not listed is a read through nil.
unfoldable pub bar_destroy : List Bar → Bar → Option (List Bar)
bar_destroy [] b = none
bar_destroy (c ∷ l) b =
    let rest = bar_destroy l b in
    if c.id == b.id then some l else elim rest [ none ↦ none | some t ↦ some (c ∷ t) ]

-- `bar_resize` of the screen's rectangle, `labelh(def.font)` high on the first screen, and `bar_sety`.
unfoldable pub bar_resize : Bool → ℤ → Rectangle → Rectangle
bar_resize true h r = record r { min_y = r.max_y -ℤ h }
bar_resize false h r = record r { min_y = r.max_y }

unfoldable pub bar_sety : Rectangle → ℤ → Rectangle
bar_sety r y = record r { min_y = y; max_y = y +ℤ dy r }

unfoldable pub bar_setbounds : Bool → Rectangle → ℤ → ℤ → Rectangle
bar_setbounds true r left right = record r { min_x = left; max_x = right }
bar_setbounds false r left right = r
