-- ===== src/Command/Grow/Undo.antt =====
-- Growing or nudging by an amount and by its negative is undone.
use wmii.Base.{◌≡◌}
use wmii.Base.Int.{ℤ, pos, ◌+ℤ◌, ◌-ℤ◌, int_laws, eq_of_parts}
use wmii.Geom.{Rectangle}
use wmii.Command.Areas.{Amount}
use wmii.Command.Grow.{
  Direction, left, right, up, down, Ratio, grow_by, move_corner, msg_grow, msg_nudge,
}

-- The amount `-n` for `n`, as a message writes it.
abbrev pub opposite : Amount → Amount
opposite a = record { x = pos 0 -ℤ a.x; y = pos 0 -ℤ a.y }

add_back : (m a : ℤ) → ((m +ℤ a) +ℤ (pos 0 -ℤ a)) ≡ m
add_back m a = eq_of_parts ((m +ℤ a) +ℤ (pos 0 -ℤ a)) m (omega int_laws)

sub_back : (m a : ℤ) → ((m -ℤ a) -ℤ (pos 0 -ℤ a)) ≡ m
sub_back m a = eq_of_parts ((m -ℤ a) -ℤ (pos 0 -ℤ a)) m (omega int_laws)

add_zero : (m : ℤ) → ((m +ℤ pos 0) +ℤ pos 0) ≡ m
add_zero m = eq_of_parts ((m +ℤ pos 0) +ℤ pos 0) m (omega int_laws)

sub_zero : (m : ℤ) → ((m -ℤ pos 0) -ℤ pos 0) ≡ m
sub_zero m = eq_of_parts ((m -ℤ pos 0) -ℤ pos 0) m (omega int_laws)

swap_back : (m a : ℤ) → ((m +ℤ (pos 0 -ℤ a)) +ℤ (pos 0 -ℤ (pos 0 -ℤ a))) ≡ m
swap_back m a = eq_of_parts ((m +ℤ (pos 0 -ℤ a)) +ℤ (pos 0 -ℤ (pos 0 -ℤ a))) m (omega int_laws)

abbrev no_ratio : Ratio
no_ratio = record { min_x = 0; min_y = 0 }

-- A client with no aspect.
msg_grow-opposite :
    (d : Direction) (a : Amount) (r : Rectangle)
    → msg_grow no_ratio d (opposite a) (msg_grow no_ratio d a r) ≡ r
unfolding msg_grow grow_by move_corner
msg_grow-opposite left a r = cc (sub_back r.min_x a.x, sub_zero r.min_y)
msg_grow-opposite up a r = cc (sub_back r.min_y a.y, sub_zero r.min_x)
msg_grow-opposite right a r = cc (add_back r.max_x a.x, add_zero r.max_y)
msg_grow-opposite down a r = cc (add_back r.max_y a.y, add_zero r.max_x)

msg_nudge-opposite :
    (d : Direction) (a : Amount) (r : Rectangle) → msg_nudge d (opposite a) (msg_nudge d a r) ≡ r
unfolding msg_nudge
msg_nudge-opposite left a r =
    cc (swap_back r.min_x a.x, swap_back r.max_x a.x, add_zero r.min_y, add_zero r.max_y)
msg_nudge-opposite right a r =
    cc (add_back r.min_x a.x, add_back r.max_x a.x, add_zero r.min_y, add_zero r.max_y)
msg_nudge-opposite up a r =
    cc (add_zero r.min_x, add_zero r.max_x, swap_back r.min_y a.y, swap_back r.max_y a.y)
msg_nudge-opposite down a r =
    cc (add_zero r.min_x, add_zero r.max_x, add_back r.min_y a.y, add_back r.max_y a.y)
