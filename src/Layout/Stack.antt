-- ===== src/Layout/Stack.antt =====
-- cmd/wmii/stack.c: the stack that a frame of a column is in. A column is seen from one of its frames:
-- the frames above it, the nearest first, and those below it.
pub mod Totals
pub mod Find
use wmii.Base.{
  ℕ, zero, suc, ◌+◌, ◌≡◌, refl, Bool, true, false, Option, none, some, List, [], ◌∷◌, ◌++◌, ◌&&◌,
  ◌||◌, not, if◌then◌else◌,
}
use wmii.Base.Int.{ℤ, pos, ◌+ℤ◌}
use wmii.Geom.{Rectangle, dy}

pub record Frame : Type 0 where
  pub id : ℕ
  pub colr : Rectangle
  pub collapsed : Bool
  pub nofocus : Bool

-- A frame and those around it.
pub record Place : Type 0 where
  pub above : List Frame
  pub frame : Frame
  pub below : List Frame

-- The first frame from `f` down that is not collapsed.
unfoldable pub slide : List Frame → Frame → List Frame → Option Place
slide above f [] =
    if f.collapsed then none else some (record { above = above; frame = f; below = [] })
slide above f (g ∷ below) =
    let rest = slide (f ∷ above) g below in
    if f.collapsed then rest else some (record { above = above; frame = f; below = g ∷ below })

-- What a loop of `stack_info` keeps: the frame it last passed, their number and their height.
pub record Run : Type 0 where
  pub last : Frame
  pub nframe : ℕ
  pub height : ℤ

unfoldable pub run_on : Run → List Frame → Run
run_on s [] = s
run_on s (f ∷ l) =
    let rest =
      run_on (record { last = f; nframe = s.nframe + 1; height = s.height +ℤ dy f.colr }) l in
    if f.collapsed then s else rest

pub record Info : Type 0 where
  pub first : Frame
  pub last : Frame
  pub dy_sum : ℤ
  pub nframe : ℕ

-- The two loops of `stack_info` from the frame that it has moved to, with the height so far. `first` is
-- never nil behind the first loop.
unfoldable pub info_at : Frame → Place → ℤ → Info
unfolding run_on
info_at f p start =
    let up = run_on (record { last = f; nframe = 0; height = start }) (p.frame ∷ p.above) in
    let down = run_on (record { last = f; nframe = up.nframe; height = up.height }) p.below in
    record { first = up.last; last = down.last; dy_sum = down.height; nframe = down.nframe }

-- A collapsed frame is left for the first one below it that is not; its height is put in here too.
unfoldable pub moved_info : Frame → Place → Option Place → Info
unfolding info_at
moved_info f here none = info_at f here (pos 0)
moved_info f here (some p) = info_at f p (pos 0 +ℤ dy p.frame.colr)

unfoldable pub stack_info : List Frame → Frame → List Frame → Info
unfolding slide info_at moved_info
stack_info above f below =
    let here : Place = record { above = above; frame = f; below = below } in
    let moved = slide above f below in
    if f.collapsed then moved_info f here moved else info_at f here (pos 0)

-- The loops of `stack_count`.
unfoldable pub collapsed_run : List Frame → ℕ
collapsed_run [] = 0
collapsed_run (f ∷ l) = let rest = collapsed_run l in if f.collapsed then suc rest else 0

-- The count, and what is stored through `mp`.
unfoldable pub stack_count : List Frame → List Frame → ℕ × ℕ
unfolding collapsed_run
stack_count above below = let m = suc (collapsed_run above) in (m + collapsed_run below, m)

-- `predicate` of `stack_find`
unfoldable pub can_focus : Bool → Frame → Bool
can_focus stack f = not ((f.collapsed && stack) || f.nofocus)

unfoldable pub first_of : Bool → List Frame → Option Frame
unfolding can_focus
first_of stack [] = none
first_of stack (f ∷ l) = let rest = first_of stack l in if can_focus stack f then some f else rest

-- The loop of the case `North` with no frame: the last frame that can be focused.
unfoldable pub last_from : Bool → Option Frame → List Frame → Option Frame
unfolding can_focus
last_from stack best [] = best
last_from stack best (f ∷ l) = last_from stack (if can_focus stack f then some f else best) l

-- `stack_find` from a frame, and with none in a column of `frames`; `north` is the direction.
unfoldable pub stack_find : Bool → Bool → List Frame → List Frame → Option Frame
unfolding first_of
stack_find stack true above below = first_of stack above
stack_find stack false above below = first_of stack below

unfoldable pub stack_find_nil : Bool → Bool → List Frame → Option Frame
unfolding first_of last_from
stack_find_nil stack true frames = last_from stack none frames
stack_find_nil stack false frames = first_of stack frames
