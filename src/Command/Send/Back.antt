-- ===== src/Command/Send/Back.antt =====
-- Sending a frame down its column brings back one that was sent up.
use wmii.Base.{◌≡◌, true, false, Option, some, List, ◌∷◌, ◌==◌, ℕ, arith}
use wmii.Layout.Stack.{Frame, can_focus, first_of, stack_find}
use wmii.Command.Send.{
  Area, Placed, rearranged, find_vertical, past_above, past_below, msg_sendframe,
}

own_id : (i : ℕ) → (i == i) ≡ true
own_id i = ground arith

-- A frame that can be focused is found in its own column.
find_below :
    (a : Area) (above : List Frame) (f g : Frame) (below : List Frame) (across : Option ℕ)
    → g.nofocus ≡ false
    → find_vertical false
        (record { area = a; above = above; frame = f; below = g ∷ below })
        false
        across
      ≡ some a.id
unfolding find_vertical stack_find first_of can_focus
find_below a above f g below across e = ground (arith, e)

-- Where the frame above can be focused and is sent past, `msg_sendframe` down undoes `msg_sendframe` up.
msg_sendframe-back :
    (sel : ℕ → Option ℕ) (a : Area) (above : List Frame) (f g : Frame) (below : List Frame)
    (across across' : Option ℕ)
    → g.nofocus ≡ false
    → let p : Placed = record { area = a; above = g ∷ above; frame = f; below = below } in
      let q : Placed = record { area = a; above = above; frame = f; below = g ∷ below } in
      (msg_sendframe sel p true across false ≡ rearranged q)
      × (msg_sendframe sel q false across' false ≡ rearranged p)
unfolding msg_sendframe find_vertical stack_find first_of can_focus past_above past_below
msg_sendframe-back sel a above f g below across across' e = (ground (arith, e), ground (arith, e))
