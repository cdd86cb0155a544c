-- ===== src/Geom/Floating/Free.antt =====
-- `float_placeframe` puts a frame on free space where there is room for it.
use wmii.Base.{
  ℕ, ◌≡◌, sym, ap, ◌∙◌, subst, Bool, true, false, not, ◌&&◌, ◌||◌, Option, none, some, List, [],
  ◌∷◌, if◌then◌else◌, if_both, arith, Bool-cases, ◌⊎◌, inl, inr,
}
use wmii.Base.Int.{ℤ, ◌+ℤ◌, ◌-ℤ◌, ◌*ℤ◌, ltb_ℤ, leb_ℤ, -ℤ_parts, +ℤ_parts}
use wmii.Geom.{Point, Rectangle, pt, dx, dy, rect_haspoint_p, rectsetorigin}
use wmii.Geom.Unique.{covers, unique_rects}
use wmii.Geom.Unique.Space.{covers-unique_rects}
use wmii.Geom.Floating.{
  Frame, obstacles, smaller, fits, least_free, place_at, room, screen_or_first, float_placeframe,
}

-- Some rectangle of the list has room for the frame.
abbrev pub HasRoom : Rectangle → List Rectangle → Type 0
HasRoom frame [] = ⊥
HasRoom frame (r ∷ rs) = (fits frame r ≡ true) ⊎ HasRoom frame rs

-- The best so far lies in the free space.
module _ (frame : Rectangle) (free : List Rectangle) where
  abbrev Inside : Point → Type 0
  Inside p = (q : Point) → rect_haspoint_p (rectsetorigin frame p) q ≡ true → covers free q ≡ true

  abbrev BestInside : Option (ℤ × Point) → Type 0
  BestInside none = Unit
  BestInside (some (l, p)) = Inside p

axis-inside :
    (low high w x : ℤ)
    → ltb_ℤ (high -ℤ low) w ≡ false
    → ltb_ℤ x (low +ℤ w) ≡ true
    → ltb_ℤ x high ≡ true
axis-inside low high w x h k = ground (arith, -ℤ_parts high low, +ℤ_parts low w)

-- A conjunction whose second and fourth parts are weakened.
weaken :
    (a b c d b' d' : Bool)
    → (b ≡ true → b' ≡ true)
    → (d ≡ true → d' ≡ true)
    → ((a && b) && (c && d)) ≡ true
    → ((a && b') && (c && d')) ≡ true
weaken a b c d b' d' f g h = ground arith

neither : (a b : Bool) → not (a || b) ≡ true → (a ≡ false) × (b ≡ false)
neither a b h = ground arith

-- The frame at the corner of a rectangle that it fits into.
fits-inside :
    (frame r : Rectangle) (q : Point)
    → fits frame r ≡ true
    → rect_haspoint_p (rectsetorigin frame (pt r.min_x r.min_y)) q ≡ true
    → rect_haspoint_p r q ≡ true
unfolding rect_haspoint_p rectsetorigin
fits-inside frame r q h k =
    let (wide, high) = neither (ltb_ℤ (dx r) (dx frame)) (ltb_ℤ (dy r) (dy frame)) h in
    weaken (leb_ℤ r.min_x q.x) (ltb_ℤ q.x (r.min_x +ℤ dx frame)) (leb_ℤ r.min_y q.y)
      (ltb_ℤ q.y (r.min_y +ℤ dy frame)) (ltb_ℤ q.x r.max_x) (ltb_ℤ q.y r.max_y)
      (axis-inside r.min_x r.max_x (dx frame) q.x wide)
      (axis-inside r.min_y r.max_y (dy frame) q.y high) k

or_right : (a b : Bool) → b ≡ true → (a || b) ≡ true
or_right a b h = ground arith

-- The loop keeps a place that lies in free space, and finds one where there is room.
module _ (frame : Rectangle) (all : List Rectangle) where
  abbrev Within : List Rectangle → Type 0
  Within rs = (q : Point) → covers rs q ≡ true → covers all q ≡ true

  step-Inside :
      (r : Rectangle) (rs : List Rectangle)
      → Within (r ∷ rs)
      → fits frame r ≡ true
      → Inside frame all (pt r.min_x r.min_y)
  unfolding covers
  step-Inside r rs w h q k = w q (ap (λ b. b || covers rs q) (fits-inside frame r q h k))

  Within-tail : (r : Rectangle) (rs : List Rectangle) → Within (r ∷ rs) → Within rs
  unfolding covers
  Within-tail r rs w q h = w q (or_right (rect_haspoint_p r q) (covers rs q) h)

  least_free-inside :
      (rs : List Rectangle) (best : Option (ℤ × Point))
      → Within rs
      → BestInside frame all best
      → BestInside frame all (least_free frame best rs)
  unfolding least_free
  least_free-inside [] best w h = h
  least_free-inside (r ∷ rs) best w h =
      let l = dx r *ℤ dy r in
      elim (Bool-cases (fits frame r)) [
        | inl e ↦
            least_free-inside rs
              (if fits frame r && smaller l best then some (l, pt r.min_x r.min_y) else best)
              (Within-tail r rs w)
              (if_both (BestInside frame all) (fits frame r && smaller l best)
                {x = some (l, pt r.min_x r.min_y)} {y = best} (step-Inside r rs w e) h)
        | inr e ↦
            least_free-inside rs
              (if fits frame r && smaller l best then some (l, pt r.min_x r.min_y) else best)
              (Within-tail r rs w)
              (subst
                (λ b.
                  BestInside frame all
                    (if b && smaller l best then some (l, pt r.min_x r.min_y) else best))
                (sym e) h)
      ]

-- A best that has been found stays found.
abbrev IsFound : Option (ℤ × Point) → Type 0
IsFound none = ⊥
IsFound (some p) = Unit

IsFound-step :
    (b : Bool) (l : ℤ) (p : Point) (best : Option (ℤ × Point))
    → IsFound best
    → IsFound (if b && smaller l best then some (l, p) else best)
IsFound-step b l p none h = absurd h
IsFound-step b l p (some r) h = if_both IsFound (b && smaller l (some r)) tt tt

least_free-stays :
    (frame : Rectangle) (rs : List Rectangle) (best : Option (ℤ × Point))
    → IsFound best
    → IsFound (least_free frame best rs)
unfolding least_free
least_free-stays frame [] best h = h
least_free-stays frame (r ∷ rs) best h =
    least_free-stays frame rs
      (if fits frame r && smaller (dx r *ℤ dy r) best
        then some (dx r *ℤ dy r, pt r.min_x r.min_y)
        else best)
      (IsFound-step (fits frame r) (dx r *ℤ dy r) (pt r.min_x r.min_y) best h)

IsFound-first :
    (b : Bool) (l : ℤ) (p : Point) (best : Option (ℤ × Point))
    → b ≡ true
    → IsFound (if b && smaller l best then some (l, p) else best)
IsFound-first true l p none e = tt
IsFound-first true l p (some r) e = IsFound-step true l p (some r) tt
IsFound-first false l p best e = cc

least_free-IsFound :
    (frame : Rectangle) (rs : List Rectangle) (best : Option (ℤ × Point))
    → HasRoom frame rs
    → IsFound (least_free frame best rs)
unfolding least_free
least_free-IsFound frame [] best h = absurd h
least_free-IsFound frame (r ∷ rs) best (inl e) =
    least_free-stays frame rs
      (if fits frame r && smaller (dx r *ℤ dy r) best
        then some (dx r *ℤ dy r, pt r.min_x r.min_y)
        else best)
      (IsFound-first (fits frame r) (dx r *ℤ dy r) (pt r.min_x r.min_y) best e)
least_free-IsFound frame (r ∷ rs) best (inr h) =
    least_free-IsFound frame rs
      (if fits frame r && smaller (dx r *ℤ dy r) best
        then some (dx r *ℤ dy r, pt r.min_x r.min_y)
        else best)
      h

both_parts : (a b : Bool) → (a && not b) ≡ true → (a ≡ true) × (b ≡ false)
both_parts a b h = ground arith

place-inside :
    (screen frame : Rectangle) (sel : Option Frame) (best : Option (ℤ × Point))
    (all : List Rectangle) (q : Point)
    → IsFound best
    → BestInside frame all best
    → rect_haspoint_p (place_at screen frame sel best) q ≡ true
    → covers all q ≡ true
place-inside screen frame sel none all q f h k = absurd f
place-inside screen frame sel (some (l, p)) all q f h k = h q k

-- Where a free rectangle has room for the frame, every point of the place that `float_placeframe` gives
-- it lies in the view's rectangle on the chosen screen, or in the area's, and in no frame of another
-- client.
pub float_placeframe-free :
    (frames : List Frame) (sel : Option Frame) (area : Rectangle) (views screens : ℕ → Rectangle)
    (client : ℕ) (s : Option ℕ) (frame : Rectangle) (q : Point)
    → HasRoom frame (unique_rects (obstacles client frames) (room area views s))
    → rect_haspoint_p (float_placeframe frames sel area views screens client s frame) q ≡ true
    → (rect_haspoint_p (room area views s) q ≡ true) × (covers (obstacles client frames) q ≡ false)
unfolding float_placeframe
float_placeframe-free frames sel area views screens client s frame q h k =
    let vec = obstacles client frames in
    let r = room area views s in
    let free = unique_rects vec r in
    let best = least_free frame none free in
    both_parts (rect_haspoint_p r q) (covers vec q) (
      sym (covers-unique_rects vec r q)
      ∙ place-inside (screens (screen_or_first s)) frame sel best free q
          (least_free-IsFound frame free none h)
          (least_free-inside frame free free none (λ p e. e) tt) k)
