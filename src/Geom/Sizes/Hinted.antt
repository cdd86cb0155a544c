-- ===== src/Geom/Sizes/Hinted.antt =====
-- `frame_hints` never lets a column's frame grow, and keeps the edges that do not move.
use wmii.Base.{
  ◌≡◌, refl, Bool, true, false, not, ◌&&◌, Option, none, some, arith, Bool-cases, if◌then◌else◌,
  inl, inr,
}
use wmii.Base.Int.{ℤ, pos, ◌+ℤ◌, ◌-ℤ◌, ◌≤ℤ◌, ltb_ℤ, int_laws, eq_of_parts, -ℤ_parts}
use wmii.Geom.{Rectangle, Align, dx, dy}
use wmii.Geom.Sizes.{WinHints, not_wider, not_grown, sizehint, frame_hints}

not_wider-le : (old low high : ℤ) → (not_wider old low high -ℤ low) ≤ℤ old
not_wider-le old low high = elim (Bool-cases (ltb_ℤ old (high -ℤ low))) [
  | inl e ↦ rw e (omega int_laws)
  | inr e ↦ rw e (ground (arith, -ℤ_parts high low))
]

-- One axis: from `low` to `high`, shifted by what was lost of `low` to `edge` if `far`.
abbrev shift : Bool → ℤ → ℤ → ℤ → ℤ
shift far low edge high = if far then (edge -ℤ low) -ℤ (high -ℤ low) else pos 0

shift_far : (low edge high : ℤ) → (high +ℤ shift true low edge high) ≡ edge
shift_far low edge high = eq_of_parts (high +ℤ shift true low edge high) edge (omega int_laws)

shift_none : (low edge high : ℤ) → (low +ℤ shift false low edge high) ≡ low
shift_none low edge high = eq_of_parts (low +ℤ shift false low edge high) low (omega int_laws)

-- A shift keeps the width.
shift-width : (x low high old : ℤ) → (high -ℤ low) ≤ℤ old → ((high +ℤ x) -ℤ (low +ℤ x)) ≤ℤ old
shift-width x low high old h = omega int_laws

-- What `frame_hints` may do on one axis.
abbrev pub Keeps : Bool → Bool → ℤ → ℤ → ℤ → ℤ → Type 0
Keeps floating far low edge low' edge' =
    (floating ≡ false → (edge' -ℤ low') ≤ℤ (edge -ℤ low))
    × (far ≡ true → edge' ≡ edge)
    × (far ≡ false → low' ≡ low)

axis-Keeps :
    (floating far : Bool) (low edge high : ℤ)
    → (floating ≡ false → (high -ℤ low) ≤ℤ (edge -ℤ low))
    → Keeps floating far low edge (low +ℤ shift far low edge high) (high +ℤ shift far low edge high)
axis-Keeps floating true low edge high h = (
  λ e. shift-width (shift true low edge high) low high (edge -ℤ low) (h e),
  λ e. shift_far low edge high,
  λ e. cc,
)
axis-Keeps floating false low edge high h = (
  λ e. shift-width (shift false low edge high) low high (edge -ℤ low) (h e),
  λ e. cc,
  λ e. shift_none low edge high,
)

-- `frame_hints` lets no frame of a column grow; of the edges, it keeps the left and the upper one, or
-- where only the right or the lower one is to stay it keeps that.
pub frame_hints-Keeps :
    (hints : Option WinHints) (floating : Bool) (old : Rectangle) (sticky : Align)
    → let r = frame_hints hints floating old sticky in
      Keeps floating (sticky.east && not sticky.west) old.min_x old.max_x r.min_x r.max_x
      × Keeps floating (sticky.south && not sticky.north) old.min_y old.max_y r.min_y r.max_y
unfolding frame_hints not_grown
frame_hints-Keeps none floating old sticky =
    (((λ e. omega arith), (λ e. refl), (λ e. refl)), ((λ e. omega arith), (λ e. refl), (λ e. refl)))
frame_hints-Keeps (some h) true old sticky =
    let r = sizehint h old in
    (
      axis-Keeps true (sticky.east && not sticky.west) old.min_x old.max_x r.max_x (λ e. cc),
      axis-Keeps true (sticky.south && not sticky.north) old.min_y old.max_y r.max_y (λ e. cc),
    )
frame_hints-Keeps (some h) false old sticky =
    let r = sizehint h old in
    let x = not_wider (dx old) old.min_x r.max_x in
    let y = not_wider (dy old) old.min_y r.max_y in
    (
      axis-Keeps false (sticky.east && not sticky.west) old.min_x old.max_x x
          (λ e. not_wider-le (dx old) old.min_x r.max_x),
      axis-Keeps false (sticky.south && not sticky.north) old.min_y old.max_y y
          (λ e. not_wider-le (dy old) old.min_y r.max_y),
    )
