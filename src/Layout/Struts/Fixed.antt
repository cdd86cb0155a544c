-- ===== src/Layout/Struts/Fixed.antt =====
-- `fix_rect` does not do what its comment says.
use native.Mathlib.Nat.{div-lt_iff_lt-mul}
use wmii.Base.{ℕ, ◌-◌, ◌/◌, ◌<◌, ◌≡◌, refl, ap, ◌∙◌, arith}
use wmii.Base.Int.{ℤ, pos, negsuc, ◌-ℤ◌, ◌≤ℤ◌, ◌<ℤ◌, quot, pos_part, int_laws, eq_of_parts}
use wmii.Geom.{Rectangle, dx, dy, rect_intersection}
use wmii.Layout.Struts.{quotient, fix_rect}

small_div : (n a : ℕ) → n < a → n / a ≡ 0
small_div n a h =
    let below : n / a < 1 =
      (div-lt_iff_lt-mul {k = a} {x = n} {y = 1} (omega arith)).1 (omega arith) in
    omega (arith, below)

-- A length that is smaller, but not empty, is not smaller by the whole.
quotient_zero : (old new : ℤ) → pos 0 <ℤ new → new ≤ℤ old → quotient old new ≡ 0
unfolding quot
quotient_zero (pos a) (pos b) h k =
    let same : (pos a -ℤ pos b) ≡ pos (a - b) =
      eq_of_parts (pos a -ℤ pos b) (pos (a - b)) (omega int_laws) in
    ap (λ d. pos_part (quot d a)) same ∙ small_div (a - b) a (omega arith)
quotient_zero (pos a) (negsuc b) h k = absurd (omega arith)
quotient_zero (negsuc a) (pos b) h k = absurd (omega arith)
quotient_zero (negsuc a) (negsuc b) h k = absurd (omega arith)

-- Where the wanted rectangle and the old one share a part of positive sides, no larger than the old one,
-- `fix_rect` returns that part, however small it is: its limit of a half has no effect.
pub fix_rect-intersection :
    (old want : Rectangle)
    → let new = rect_intersection want old in
      pos 0 <ℤ dx new
      → pos 0 <ℤ dy new
      → dx new ≤ℤ dx old
      → dy new ≤ℤ dy old
      → fix_rect old want ≡ new
unfolding fix_rect
fix_rect-intersection old want h k l m =
    let new = rect_intersection want old in
    let x = quotient_zero (dx old) (dx new) h l in
    let y = quotient_zero (dy old) (dy new) k m in rw (x, y) refl
