-- ===== src/Geom/Hints/Decoration.antt =====
-- A window's rectangle and its frame's.
use wmii.Base.{◌≡◌, refl, Bool, true, false, inl, inr, if◌then◌else◌, arith, ap, ◌∙◌, Bool-cases}
use wmii.Base.Int.{ℤ, pos, ◌+ℤ◌, ◌-ℤ◌, ◌≤ℤ◌, eq_of_parts, int_laws}
use wmii.Geom.{Rectangle, max}
use wmii.Geom.Hints.{
  Decor, side, top, adjust_in, adjust_out, at_least_one, frame_rect2client, frame_client2rect,
}

out-in : (a s : ℤ) → (a -ℤ s) +ℤ s ≡ a
out-in a s = eq_of_parts ((a -ℤ s) +ℤ s) a (omega int_laws)

in-out : (a s : ℤ) → (a +ℤ s) -ℤ s ≡ a
in-out a s = eq_of_parts ((a +ℤ s) -ℤ s) a (omega int_laws)

adjust_in-out : (s t : ℤ) (r : Rectangle) → adjust_in s t (adjust_out s t r) ≡ r
unfolding adjust_in adjust_out
adjust_in-out s t r =
    rw (out-in r.min_x s, out-in r.min_y t, in-out r.max_x s, in-out r.max_y s) refl

max-right : (a b : ℤ) → b ≤ℤ a → max a b ≡ a
unfolding max
max-right a b h = ground arith

at_least_one_id :
    (r : Rectangle)
    → (r.min_x +ℤ pos 1) ≤ℤ r.max_x
    → (r.min_y +ℤ pos 1) ≤ℤ r.max_y
    → at_least_one r ≡ r
unfolding at_least_one
at_least_one_id r h k =
    rw (max-right r.max_x (r.min_x +ℤ pos 1) h, max-right r.max_y (r.min_y +ℤ pos 1) k) refl

rect2client_if :
    (c : Decor) (r : Rectangle) (floating : Bool)
    → (c.fullscreen ≡ true → frame_rect2client c r floating ≡ r)
      × (c.fullscreen ≡ false
          → frame_rect2client c r floating
            ≡ at_least_one (adjust_in (side c floating) (top c floating) r))
unfolding frame_rect2client
rect2client_if c r floating =
    let q = at_least_one (adjust_in (side c floating) (top c floating) r) in
    (λ e. ap (λ b. if b then r else q) e, λ e. ap (λ b. if b then r else q) e)

client2rect_if :
    (c : Decor) (r : Rectangle) (floating : Bool)
    → (c.fullscreen ≡ true → frame_client2rect c r floating ≡ r)
      × (c.fullscreen ≡ false
          → frame_client2rect c r floating ≡ adjust_out (side c floating) (top c floating) r)
unfolding frame_client2rect
client2rect_if c r floating =
    let q = adjust_out (side c floating) (top c floating) r in
    (λ e. ap (λ b. if b then r else q) e, λ e. ap (λ b. if b then r else q) e)

-- The window inside the frame around a window of at least 1x1 is the window, whether it floats and
-- whatever its decoration.
frame_rect2client-client2rect :
    (c : Decor) (r : Rectangle) (floating : Bool)
    → (r.min_x +ℤ pos 1) ≤ℤ r.max_x
    → (r.min_y +ℤ pos 1) ≤ℤ r.max_y
    → frame_rect2client c (frame_client2rect c r floating) floating ≡ r
frame_rect2client-client2rect c r floating h k =
    let q = frame_client2rect c r floating in
    let s = side c floating in
    let t = top c floating in
    elim (Bool-cases c.fullscreen) [
      | inl e ↦ (rect2client_if c q floating).0 e ∙ (client2rect_if c r floating).0 e
      | inr e ↦
          (rect2client_if c q floating).1 e
          ∙ (ap (λ u. at_least_one (adjust_in s t u)) ((client2rect_if c r floating).1 e)
              ∙ (ap at_least_one (adjust_in-out s t r) ∙ at_least_one_id r h k))
    ]
