-- ===== src/Layout/Stack/Totals.antt =====
-- What `stack_info` adds up.
use wmii.Base.{
  ◌+◌, ◌≡◌, true, false, none, some, List, [], ◌∷◌, inl, inr, if◌then◌else◌, arith, ap, sym, ◌∙◌,
  Bool-cases, subst, length,
}
use wmii.Base.Int.{ℤ, pos, ◌+ℤ◌, int_laws, eq_of_parts}
use wmii.Geom.{dy}
use wmii.Layout.Stack.{Frame, Place, Run, slide, run_on, info_at, moved_info, stack_info}

-- The frames that are not collapsed up to the first one that is.
abbrev pub shown : List Frame → List Frame
shown [] = []
shown (f ∷ l) = if f.collapsed then [] else f ∷ shown l

abbrev pub total : List Frame → ℤ
total [] = pos 0
total (f ∷ l) = dy f.colr +ℤ total l

abbrev next_run : Run → Frame → Run
next_run s f = record { last = f; nframe = s.nframe + 1; height = s.height +ℤ dy f.colr }

run_on-collapsed :
    (s : Run) (f : Frame) (l : List Frame) → f.collapsed ≡ true → run_on s (f ∷ l) ≡ s
unfolding run_on
run_on-collapsed s f l e = ap (λ b. if b then s else run_on (next_run s f) l) e

run_on-shown :
    (s : Run) (f : Frame) (l : List Frame)
    → f.collapsed ≡ false
    → run_on s (f ∷ l) ≡ run_on (next_run s f) l
unfolding run_on
run_on-shown s f l e = ap (λ b. if b then s else run_on (next_run s f) l) e

shown-collapsed : (f : Frame) (l : List Frame) → f.collapsed ≡ true → shown (f ∷ l) ≡ []
shown-collapsed f l e = ap (λ b. if b then [] else f ∷ shown l) e

shown-shown : (f : Frame) (l : List Frame) → f.collapsed ≡ false → shown (f ∷ l) ≡ f ∷ shown l
shown-shown f l e = ap (λ b. if b then [] else f ∷ shown l) e

-- A run adds the frames of a list to what it has.
abbrev Adds : Run → List Frame → Run → Type 0
Adds s l t = (t.height ≡ s.height +ℤ total l) × (t.nframe ≡ s.nframe + length l)

run_on-total : (s : Run) (l : List Frame) → Adds s (shown l) (run_on s l)
unfolding run_on
run_on-total s [] = (eq_of_parts s.height (s.height +ℤ pos 0) (omega int_laws), omega arith)
run_on-total s (f ∷ l) = elim (Bool-cases f.collapsed) [
  | inl e ↦
      subst (λ t. Adds s (shown (f ∷ l)) t) (sym (run_on-collapsed s f l e))
        (subst (λ t. Adds s t s) (sym (shown-collapsed f l e))
          (eq_of_parts s.height (s.height +ℤ pos 0) (omega int_laws), omega arith))
  | inr e ↦
      (let (a, b) = run_on-total (next_run s f) l in
        subst (λ t. Adds s (shown (f ∷ l)) t) (sym (run_on-shown s f l e))
          (subst (λ t. Adds s t (run_on (next_run s f) l)) (sym (shown-shown f l e))
            (
              a
                  ∙ eq_of_parts ((s.height +ℤ dy f.colr) +ℤ total (shown l))
                      (s.height +ℤ (dy f.colr +ℤ total (shown l))) (omega int_laws),
              omega (arith, b),
            )))
]

-- The sum and the number of the frames of the stack around a frame.
info_at-total :
    (f : Frame) (p : Place) (start : ℤ)
    → ((info_at f p start).dy_sum
        ≡ (start +ℤ total (shown (p.frame ∷ p.above))) +ℤ total (shown p.below))
      × ((info_at f p start).nframe ≡ length (shown (p.frame ∷ p.above)) + length (shown p.below))
unfolding info_at
info_at-total f p start =
    let s : Run = record { last = f; nframe = 0; height = start } in
    let up = run_on-total s (p.frame ∷ p.above) in
    let t : Run = record {
      last = f;
      nframe = (run_on s (p.frame ∷ p.above)).nframe;
      height = (run_on s (p.frame ∷ p.above)).height;
    } in
    let down = run_on-total t p.below in
    (down.0 ∙ ap (λ h. h +ℤ total (shown p.below)) up.0, omega (arith, down.1, up.1))

stack_info-here :
    (above : List Frame) (f : Frame) (below : List Frame)
    → f.collapsed ≡ false
    → stack_info above f below
      ≡ info_at f (record { above = above; frame = f; below = below }) (pos 0)
unfolding stack_info
stack_info-here above f below e =
    let here : Place = record { above = above; frame = f; below = below } in
    ap (λ b. if b then moved_info f here (slide above f below) else info_at f here (pos 0)) e

-- For a frame that is not collapsed, `stack_info` gives the height and the number of the frames of its
-- stack, each of them once.
stack_info-total :
    (above : List Frame) (f : Frame) (below : List Frame)
    → f.collapsed ≡ false
    → ((stack_info above f below).dy_sum
        ≡ (pos 0 +ℤ total (shown (f ∷ above))) +ℤ total (shown below))
      × ((stack_info above f below).nframe ≡ length (shown (f ∷ above)) + length (shown below))
stack_info-total above f below e =
    let here : Place = record { above = above; frame = f; below = below } in
    subst
      (λ t.
        (t.dy_sum ≡ (pos 0 +ℤ total (shown (f ∷ above))) +ℤ total (shown below))
        × (t.nframe ≡ length (shown (f ∷ above)) + length (shown below)))
      (sym (stack_info-here above f below e)) (info_at-total f here (pos 0))

slide-here :
    (above : List Frame) (g : Frame) (below : List Frame)
    → g.collapsed ≡ false
    → slide above g below ≡ some (record { above = above; frame = g; below = below })
unfolding slide
slide-here above g [] h =
    let p : Place = record { above = above; frame = g; below = [] } in
    ap (λ b. if b then none else some p) h
slide-here above g (k ∷ below) h =
    let p : Place = record { above = above; frame = g; below = k ∷ below } in
    ap (λ b. if b then slide (g ∷ above) k below else some p) h

slide-next :
    (above : List Frame) (f g : Frame) (below : List Frame)
    → f.collapsed ≡ true
    → g.collapsed ≡ false
    → slide above f (g ∷ below) ≡ some (record { above = f ∷ above; frame = g; below = below })
unfolding slide
slide-next above f g below e h =
    let p : Place = record { above = above; frame = f; below = g ∷ below } in
    ap (λ b. if b then slide (f ∷ above) g below else some p) e ∙ slide-here (f ∷ above) g below h

stack_info-next :
    (above : List Frame) (f g : Frame) (below : List Frame)
    → f.collapsed ≡ true
    → g.collapsed ≡ false
    → stack_info above f (g ∷ below)
      ≡ info_at f (record { above = f ∷ above; frame = g; below = below }) (pos 0 +ℤ dy g.colr)
unfolding stack_info moved_info
stack_info-next above f g below e h =
    let here : Place = record { above = above; frame = f; below = g ∷ below } in
    let m = slide above f (g ∷ below) in
    ap (λ b. if b then moved_info f here m else info_at f here (pos 0)) e
    ∙ ap (moved_info f here) (slide-next above f g below e h)

-- For a collapsed frame with one that is not collapsed right below it, `stack_info` counts the
-- height of that one twice, though it counts it as one frame of the stack.
stack_info-counts_twice :
    (above : List Frame) (f g : Frame) (below : List Frame)
    → f.collapsed ≡ true
    → g.collapsed ≡ false
    → ((stack_info above f (g ∷ below)).dy_sum ≡ (dy g.colr +ℤ dy g.colr) +ℤ total (shown below))
      × ((stack_info above f (g ∷ below)).nframe ≡ 1 + length (shown below))
stack_info-counts_twice above f g below e h =
    let there : Place = record { above = f ∷ above; frame = g; below = below } in
    let (a, b) = info_at-total f there (pos 0 +ℤ dy g.colr) in
    let s : shown (g ∷ (f ∷ above)) ≡ g ∷ [] =
      shown-shown g (f ∷ above) h ∙ ap (◌∷◌ g) (shown-collapsed f above e) in
    let k : (pos 0 +ℤ dy g.colr) +ℤ total (g ∷ []) ≡ dy g.colr +ℤ dy g.colr =
      eq_of_parts ((pos 0 +ℤ dy g.colr) +ℤ (dy g.colr +ℤ pos 0)) (dy g.colr +ℤ dy g.colr)
        (omega int_laws) in
    subst
      (λ t.
        (t.dy_sum ≡ (dy g.colr +ℤ dy g.colr) +ℤ total (shown below))
        × (t.nframe ≡ 1 + length (shown below)))
      (sym (stack_info-next above f g below e h))
      (
        a ∙ ap (λ l. l +ℤ total (shown below)) (ap (λ l. (pos 0 +ℤ dy g.colr) +ℤ total l) s ∙ k),
        b ∙ ap (λ l. length l + length (shown below)) s,
      )
