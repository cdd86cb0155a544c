-- ===== src/Geom/Placing/Constrain/Axes.antt =====
-- How `constrain` moves a rectangle along each axis.
use wmii.Base.{◌≡◌, Bool, true, ◌⊎◌, inl, inr, ◌&&◌, arith}
use wmii.Base.Int.{ℤ, pos, ◌-ℤ◌, ◌+ℤ◌, ◌≤ℤ◌, leb_ℤ, int_laws, -ℤ_parts, eq_of_parts}
use wmii.Geom.{Rectangle, dx, dy, max, min, rect_intersection, rectaddpt}
use wmii.Geom.Placing.{move_to}

min-cases : (a b : ℤ) → ((min a b ≡ a) × (a ≤ℤ b)) ⊎ ((min a b ≡ b) × (b ≤ℤ a))
unfolding min
min-cases a b = ground arith

max-cases : (a b : ℤ) → ((max a b ≡ a) × (b ≤ℤ a)) ⊎ ((max a b ≡ b) × (a ≤ℤ b))
unfolding max
max-cases a b = ground arith

-- One axis of the last lines of `constrain`.
shift : ℤ → ℤ → ℤ → ℤ → ℤ
unfolding max min
shift a b lo hi = pos 0 -ℤ min (b -ℤ lo) (pos 0) -ℤ max (a -ℤ hi) (pos 0)

-- A segment that touches the range keeps its place and one that does not is moved until it touches.
shift-touches :
    (a b lo hi : ℤ)
    → a ≤ℤ b
    → lo ≤ℤ hi
    → (lo ≤ℤ (b +ℤ shift a b lo hi)) × ((a +ℤ shift a b lo hi) ≤ℤ hi)
unfolding shift
shift-touches a b lo hi p q = elim (min-cases (b -ℤ lo) (pos 0)) [
  | inl (e, h) ↦ elim (max-cases (a -ℤ hi) (pos 0)) [
    | inl (f, k) ↦ rw (e, f) (omega int_laws, omega int_laws)
    | inr (f, k) ↦ rw (e, f) (omega int_laws, omega int_laws)
  ]
  | inr (e, h) ↦ elim (max-cases (a -ℤ hi) (pos 0)) [
    | inl (f, k) ↦ rw (e, f) (omega int_laws, omega int_laws)
    | inr (f, k) ↦ rw (e, f) (omega int_laws, omega int_laws)
  ]
]

moved_size : (a b d : ℤ) → (b +ℤ d) -ℤ (a +ℤ d) ≡ b -ℤ a
moved_size a b d = eq_of_parts ((b +ℤ d) -ℤ (a +ℤ d)) (b -ℤ a) (omega int_laws)

-- The rectangle's sides are in order.
abbrev pub Ordered : Rectangle → Type 0
Ordered r = (r.min_x ≤ℤ r.max_x) × (r.min_y ≤ℤ r.max_y)

-- The rectangles share a point of their edges at least.
abbrev pub Touches : Rectangle → Rectangle → Type 0
Touches r s =
    (r.min_x ≤ℤ s.max_x) × (s.min_x ≤ℤ r.max_x) × (r.min_y ≤ℤ s.max_y) × (s.min_y ≤ℤ r.max_y)

abbrev pub meets : Rectangle → Rectangle → Bool
meets r s = leb_ℤ (pos 0) (dx (rect_intersection r s)) && leb_ℤ (pos 0) (dy (rect_intersection r s))

reach :
    (u v a b c d : ℤ)
    → (v ≤ℤ u → (a ≤ℤ d) × (c ≤ℤ b))
    → (a ≤ℤ d → c ≤ℤ b → v ≤ℤ u)
    → (leb_ℤ (pos 0) (u -ℤ v) ≡ true → (a ≤ℤ d) × (c ≤ℤ b))
      × (a ≤ℤ d → c ≤ℤ b → leb_ℤ (pos 0) (u -ℤ v) ≡ true)
reach u v a b c d f g = (
  λ m. f (ground (arith, -ℤ_parts u v)),
  λ x y. (let t = g x y in ground (arith, t, -ℤ_parts u v)),
)

side-meets :
    (a b c d : ℤ)
    → a ≤ℤ b
    → c ≤ℤ d
    → (leb_ℤ (pos 0) (min b d -ℤ max a c) ≡ true → (a ≤ℤ d) × (c ≤ℤ b))
      × (a ≤ℤ d → c ≤ℤ b → leb_ℤ (pos 0) (min b d -ℤ max a c) ≡ true)
side-meets a b c d p q = elim (min-cases b d) [
  | inl (e, h) ↦ elim (max-cases a c) [
    | inl (f, k) ↦
        rw (e, f)
          (reach b a a b c d (λ m. (omega int_laws, omega int_laws)) (λ m n. omega int_laws))
    | inr (f, k) ↦
        rw (e, f)
          (reach b c a b c d (λ m. (omega int_laws, omega int_laws)) (λ m n. omega int_laws))
  ]
  | inr (e, h) ↦ elim (max-cases a c) [
    | inl (f, k) ↦
        rw (e, f)
          (reach d a a b c d (λ m. (omega int_laws, omega int_laws)) (λ m n. omega int_laws))
    | inr (f, k) ↦
        rw (e, f)
          (reach d c a b c d (λ m. (omega int_laws, omega int_laws)) (λ m n. omega int_laws))
  ]
]

pub and_split : (a b : Bool) → (a && b) ≡ true → (a ≡ true) × (b ≡ true)
and_split a b h = (ground arith, ground arith)

pub and_left : (a b : Bool) → (a && b) ≡ true → a ≡ true
and_left a b h = ground arith

pub meets-Touches : (r s : Rectangle) → Ordered r → Ordered s → meets r s ≡ true → Touches r s
unfolding rect_intersection
meets-Touches r s (p, q) (u, v) h =
    let t =
      and_split (leb_ℤ (pos 0) (dx (rect_intersection r s)))
        (leb_ℤ (pos 0) (dy (rect_intersection r s))) h in
    let x = (side-meets r.min_x r.max_x s.min_x s.max_x p u).0 t.0 in
    let y = (side-meets r.min_y r.max_y s.min_y s.max_y q v).0 t.1 in (x.0, x.1, y.0, y.1)

pub Touches-meets : (r s : Rectangle) → Ordered r → Ordered s → Touches r s → meets r s ≡ true
unfolding rect_intersection
Touches-meets r s (p, q) (u, v) (a, b, c, d) =
    let x = (side-meets r.min_x r.max_x s.min_x s.max_x p u).1 a b in
    let y = (side-meets r.min_y r.max_y s.min_y s.max_y q v).1 c d in ground (arith, x, y)

pub move_to-Touches : (r s : Rectangle) → Ordered r → Ordered s → Touches (move_to r s) s
unfolding move_to rectaddpt shift
move_to-Touches r s (p, q) (u, v) =
    let x = shift-touches r.min_x r.max_x s.min_x s.max_x p u in
    let y = shift-touches r.min_y r.max_y s.min_y s.max_y q v in (x.1, x.0, y.1, y.0)

pub move_to-size : (r s : Rectangle) → (dx (move_to r s) ≡ dx r) × (dy (move_to r s) ≡ dy r)
unfolding move_to rectaddpt shift
move_to-size r s = (
  moved_size r.min_x r.max_x (shift r.min_x r.max_x s.min_x s.max_x),
  moved_size r.min_y r.max_y (shift r.min_y r.max_y s.min_y s.max_y),
)
