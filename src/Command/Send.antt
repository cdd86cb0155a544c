-- ===== src/Command/Send.antt =====
-- cmd/wmii/message.c, `msg_sendframe`, `sendarea`, `msg_sendclient` and `msg_selectarea`, and
-- cmd/wmii/stack.c, `find` up or down: what a send, swap or select message comes to. The answer is what
-- is moved, swapped or focused, which the area and frame functions then carry out.
pub mod Back
use wmii.Base.{
  ℕ, zero, suc, ◌+◌, ◌≡◌, Bool, true, false, not, ◌&&◌, ◌||◌, Option, none, some, List, [], ◌∷◌,
  ◌==◌, if◌then◌else◌, length,
}
use wmii.Layout.Stack.{Frame, stack_find, stack_find_nil}
use wmii.Command.Areas.{Result, found, bad_value, bad_read, nth}

-- The words that these handlers tell apart; any other word names an area.
pub data Sym : Type 0 where
  up down left right toggle tilde client other : Sym

-- An area: its `id`, and the column to its left and right on its screen.
pub record Area : Type 0 where
  pub id : ℕ
  pub floating : Bool
  pub prev : Option ℕ
  pub next : Option ℕ

-- A frame in its column or in the floating area.
pub record Placed : Type 0 where
  pub area : Area
  pub above : List Frame
  pub frame : Frame
  pub below : List Frame

-- `find(&a, &f, dir, ...)` up or down from a frame: the area of the next frame that can be focused.
-- `across` is what `area_find` returns above or below the column.
abbrev pub or_across : Area → Option ℕ → Option Frame → Option ℕ
or_across a across (some f) = some a.id
or_across a across none = if a.floating then some a.id else across

unfoldable pub find_vertical : Bool → Placed → Bool → Option ℕ → Option ℕ
unfolding stack_find
find_vertical stack p north across =
    or_across p.area across (stack_find stack north p.above p.below)

-- What a message comes to.
pub data Answer : Type 0 where
  bad : Answer
  read_nil : Answer
  moved : ℕ → Answer
  swapped : ℕ → Answer
  rearranged : Placed → Answer
  swapped_frames : ℕ → ℕ → Answer
  new_column : Bool → Answer

-- `sendarea(f, to, swap)`, for the selected frame of each area.
unfoldable pub sendarea : (ℕ → Option ℕ) → Option ℕ → Bool → Answer
sendarea sel none swap = bad
sendarea sel (some a) false = moved a
sendarea sel (some a) true = elim (sel a) [ none ↦ bad | some f ↦ swapped f ]

-- The frame above or below: it changes clients with the frame, or the frame goes past it.
unfoldable pub past_above : Placed → Bool → List Frame → Answer
past_above p swap [] = bad
past_above p true (g ∷ above) = swapped_frames p.frame.id g.id
past_above p false (g ∷ above) = rearranged (record p { above = above; below = g ∷ p.below })

unfoldable pub past_below : Placed → Bool → List Frame → Answer
past_below p swap [] = bad
past_below p true (g ∷ below) = swapped_frames p.frame.id g.id
past_below p false (g ∷ below) = rearranged (record p { above = g ∷ p.above; below = below })

abbrev pub in_column : Placed → Bool → Bool → Answer
in_column p true swap = past_above p swap p.above
in_column p false swap = past_below p swap p.below

-- `msg_sendframe(f, sym, swap)`; `north` is `sym == LUP`.
abbrev pub send_found : (ℕ → Option ℕ) → Placed → Bool → Bool → Option ℕ → Answer
send_found sel p north swap none = bad
send_found sel p north swap (some a) =
    if a == p.area.id then in_column p north swap else sendarea sel (some a) swap

unfoldable pub msg_sendframe : (ℕ → Option ℕ) → Placed → Bool → Option ℕ → Bool → Answer
unfolding find_vertical sendarea past_above past_below
msg_sendframe sel p north across swap =
    send_found sel p north swap (find_vertical false p north across)

-- The view, as `msg_sendclient` reads it: the floating area, the column that a toggle leads back to
-- (`view_findarea` with `create`), what `strarea` finds for the word, what `area_find` finds beside the
-- area without wrapping, and above or below it.
pub record Around : Type 0 where
  pub floating : ℕ
  pub back : Option ℕ
  pub named : Result ℕ
  pub beside : Bool → Option ℕ
  pub across : Bool → Option ℕ

-- The area that the switch sets `to` to.
pub data Target : Type 0 where
  refused : Target
  unreadable : Target
  towards : Option ℕ → Target

abbrev pub named_target : Result ℕ → Target
named_target (found a) = towards (some a)
named_target bad_value = refused
named_target bad_read = unreadable

unfoldable pub target : Around → Area → Sym → Target
target v a left = if a.floating then refused else towards a.prev
target v a right = if a.floating then refused else towards a.next
target v a toggle = if a.floating then towards v.back else towards (some v.floating)
target v a tilde = if a.floating then refused else towards (some v.floating)
target v a up = named_target v.named
target v a down = named_target v.named
target v a client = named_target v.named
target v a other = named_target v.named

-- With no area there: a frame that is alone in its column goes to what `find` finds beside it, which is
-- an error for a word without a direction; another gets a new column, to the left of all for `left`.
abbrev pub is_left : Sym → Bool
is_left left = true
is_left s = false

abbrev pub alone : Placed → Bool
alone p = (length p.above == 0) && (length p.below == 0)

abbrev pub beside_of : Around → Sym → Option ℕ
beside_of v left = v.beside true
beside_of v right = v.beside false
beside_of v s = none

unfoldable pub send_to : (ℕ → Option ℕ) → Around → Placed → Sym → Bool → Target → Answer
unfolding sendarea
send_to sel v p s swap refused = bad
send_to sel v p s swap unreadable = read_nil
send_to sel v p s swap (towards (some a)) = sendarea sel (some a) swap
send_to sel v p s true (towards none) = sendarea sel none true
send_to sel v p s false (towards none) =
    if alone p then sendarea sel (beside_of v s) false else new_column (is_left s)

-- `msg_sendclient(v, m, swap)`, from the client's frame and the word on.
unfoldable pub msg_sendclient : (ℕ → Option ℕ) → Around → Placed → Sym → Bool → Answer
unfolding msg_sendframe target send_to
msg_sendclient sel v p up swap = msg_sendframe sel p true (v.across true) swap
msg_sendclient sel v p down swap = msg_sendframe sel p false (v.across false) swap
msg_sendclient sel v p s swap = send_to sel v p s swap (target v p.area s)

-- `msg_selectarea`: what is focused.
pub data Focus : Type 0 where
  no_focus : Focus
  no_read : Focus
  area : ℕ → Focus
  frame : ℕ → Focus
  by_direction : Sym → Focus

-- `LTOGGLE`: the floating area, or back to `v->revert` or the first column.
unfoldable pub toggle_area : ℕ → Area → Option ℕ → ℕ → ℕ
toggle_area floating a none first = if a.floating then first else floating
toggle_area floating a (some revert) first =
    if a.floating then (if revert == a.id then first else revert) else floating

-- A frame's number counts from one; the loop's `--i` leaves zero where it stops at a frame.
abbrev pub frame_or_none : Option ℕ → Focus
frame_or_none none = no_focus
frame_or_none (some f) = frame f

abbrev pub numbered_frame : List ℕ → Option (Option ℕ) → ℕ → Focus
numbered_frame frames none a = area a
numbered_frame frames (some none) a = no_focus
numbered_frame frames (some (some i)) a = frame_or_none (nth frames i)

-- The area that the word names, whose frames are `frames`, and the number behind it: `none` for no word,
-- `some none` for one that is no number.
unfoldable pub select_named : (ℕ → Bool) → (ℕ → List ℕ) → Option (Option ℕ) → Result ℕ → Focus
unfolding nth
select_named floats frames number bad_value = no_focus
select_named floats frames number bad_read = no_read
select_named floats frames number (found a) =
    if floats a then no_focus else numbered_frame (frames a) number a

unfoldable pub msg_selectarea :
    ℕ → Area → Option ℕ → ℕ → (ℕ → Bool) → (ℕ → List ℕ) → Option (Option ℕ) → Result ℕ → Sym → Focus
unfolding toggle_area select_named
msg_selectarea floating a revert first floats frames number named toggle =
    area (toggle_area floating a revert first)
msg_selectarea floating a revert first floats frames number named tilde = area floating
msg_selectarea floating a revert first floats frames number named up = by_direction up
msg_selectarea floating a revert first floats frames number named down = by_direction down
msg_selectarea floating a revert first floats frames number named left = by_direction left
msg_selectarea floating a revert first floats frames number named right = by_direction right
msg_selectarea floating a revert first floats frames number named client = by_direction client
msg_selectarea floating a revert first floats frames number named other =
    select_named floats frames number named
