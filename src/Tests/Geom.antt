-- ===== src/Tests/Geom.antt =====
-- Placement on screens at concrete inputs.
use wmii.Base.{
  ℕ, ◌≡◌, ◌⊎◌, refl, Bool, true, false, not, ◌&&◌, none, some, List, [], ◌∷◌, get_elem?, arith,
}
use wmii.Base.Int.{pos, ◌+ℤ◌, ◌-ℤ◌}
use wmii.Geom.{
  Point, Rectangle, Align, pt, rect, dx, dy, rect_intersection, rect_haspoint_p, insetrect,
}
use wmii.Geom.Unique.{unique_rects, covers}
use wmii.Geom.Unique.Space.{covers-unique_rects}
use wmii.Geom.Placing.{
  Screen, NoneShows, ownerscreen, Dir, east, findthing, is_candidate, distance, constrain, abs,
}
use wmii.Geom.Placing.Nearest.{NoCandidate, findthing-nearest}
use wmii.Geom.Placing.Constrain.{OnScreen, constrain-OnScreen}
use wmii.Geom.Floating.{obstacles, float_placeframe}
use wmii.Geom.Floating.Free.{float_placeframe-free}
use wmii.Geom.Sizes.{frame_hints}
use wmii.Geom.Sizes.Hinted.{Keeps, frame_hints-Keeps}
use wmii.Base.{inl}
use wmii.Base.Int.{◌*ℤ◌}

abbrev box : ℕ → ℕ → ℕ → ℕ → Rectangle
box a b c d = rect (pos a) (pos b) (pos c) (pos d)

covers-unique_rects_example :
    covers (unique_rects (box 2 2 4 4 ∷ []) (box 0 0 9 9)) (pt (pos 3) (pos 1)) ≡ (
      rect_haspoint_p (box 0 0 9 9) (pt (pos 3) (pos 1))
      && not (covers (box 2 2 4 4 ∷ []) (pt (pos 3) (pos 1))))
covers-unique_rects_example =
    covers-unique_rects (box 2 2 4 4 ∷ []) (box 0 0 9 9) (pt (pos 3) (pos 1))

abbrev screens : List Screen
screens =
    record { showing = true; r = box 0 0 100 100 }
    ∷ record { showing = true; r = box 100 0 200 100 }
    ∷ []

abbrev window : Rectangle
window = box 90 10 150 40

findthing-nearest_example :
    ((findthing window east (box 300 0 400 50 ∷ []) false ≡ none)
      × NoCandidate east window (box 300 0 400 50 ∷ []))
    ⊎ ((k : ℕ) × (q : Rectangle) × ((wrap : Bool)
          → findthing window east (box 300 0 400 50 ∷ []) wrap ≡ some k)
        × (get_elem? (box 300 0 400 50 ∷ []) k ≡ some q)
        × (is_candidate east window q ≡ true)
        × wmii.Geom.Placing.Nearest.NoneNearer east window
            (distance east window q)
            (box 300 0 400 50 ∷ []))
findthing-nearest_example = findthing-nearest east window (box 300 0 400 50 ∷ [])

constrain-OnScreen_example :
    ((q : Rectangle) × (constrain screens (box 300 10 350 40) (pos 5) ≡ some q)
      × (dx q ≡ dx (box 300 10 350 40))
      × (dy q ≡ dy (box 300 10 350 40))
      × OnScreen (box 300 10 350 40) (pos 5) screens q)
    ⊎ ((constrain screens (box 300 10 350 40) (pos 5) ≡ none) × NoneShows screens)
unfolding insetrect ◌+ℤ◌ ◌-ℤ◌
constrain-OnScreen_example =
    constrain-OnScreen (box 300 10 350 40) (pos 5) screens (omega arith, omega arith)
      ((omega arith, omega arith), ((omega arith, omega arith), tt))

-- A frame in the corner of a screen, and one of 50x50 to place.
abbrev placed : List wmii.Geom.Floating.Frame
placed = record { client = 1; r = box 0 0 50 100; titlebar_dy = pos 10 } ∷ []

float_placeframe-free_example :
    (rect_haspoint_p (box 0 0 100 100) (pt (pos 60) (pos 10)) ≡ true)
    × (covers (obstacles 2 placed) (pt (pos 60) (pos 10)) ≡ false)
unfolding float_placeframe unique_rects obstacles ◌+ℤ◌ ◌-ℤ◌ ◌*ℤ◌ rect_haspoint_p
float_placeframe-free_example =
    float_placeframe-free placed none (box 0 0 100 100) (λ s. box 0 0 100 100)
      (λ s. box 0 0 100 100) 2 (some 0) (box 0 0 50 50) (pt (pos 60) (pos 10)) (inl refl) refl

frame_hints-Keeps_example :
    let sticky : Align = record { north = true; east = true; south = false; west = false } in
    let r = frame_hints none false window sticky in
    Keeps false true window.min_x window.max_x r.min_x r.max_x
    × Keeps false false window.min_y window.max_y r.min_y r.max_y
frame_hints-Keeps_example =
    frame_hints-Keeps none false window
      (record { north = true; east = true; south = false; west = false })
