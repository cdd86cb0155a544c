-- ===== src/Geom/Placing.antt =====
-- cmd/wmii/screen.c and `constrain` of cmd/wmii/frame.c: which screen a rectangle is on, what stands
-- in a direction from it, and how it is kept on a screen.
pub mod Owner
pub mod Nearest
pub mod Constrain
use mathlib.Core.Option
use wmii.Base.{
  ℕ, zero, suc, ◌+◌, ◌≡◌, refl, Bool, true, false, Option, none, some, List, [], ◌∷◌, ◌&&◌, ◌||◌,
  not, if◌then◌else◌,
}
use wmii.Base.Int.{ℤ, pos, negsuc, ◌+ℤ◌, ◌-ℤ◌, ◌*ℤ◌, ltb_ℤ, leb_ℤ, eqb_ℤ}
use wmii.Geom.{
  Point, Rectangle, pt, rect, dx, dy, max, min, rect_intersection, insetrect, rectaddpt,
}

-- A screen as these functions read it.
pub record Screen : Type 0 where
  pub showing : Bool
  pub r : Rectangle

-- No screen of `screens` shows.
abbrev pub NoneShows : List Screen → Type 0
NoneShows [] = Unit {0}
NoneShows (scr ∷ l) = (scr.showing ≡ false) × NoneShows l

-- `area`: a product of two negative sides counts as negative.
unfoldable pub area : Rectangle → ℤ
area r =
    (dx r *ℤ dy r) *ℤ (if ltb_ℤ (dx r) (pos 0) && ltb_ℤ (dy r) (pos 0) then negsuc 0 else pos 1)

-- `best < 0 || a > besta`
unfoldable pub beats : ℤ → Option (ℕ × ℤ) → Bool
beats a none = true
beats a (some (i, besta)) = ltb_ℤ besta a

-- The loop of `ownerscreen`; the state is `best` and `besta`.
unfoldable pub owner_from : Rectangle → List Screen → ℕ → Option (ℕ × ℤ) → Option (ℕ × ℤ)
unfolding area rect_intersection beats
owner_from r [] s best = best
owner_from r (scr ∷ rest) s best =
    let a = area (rect_intersection r scr.r) in
    owner_from r rest (s + 1) (if scr.showing && beats a best then some (s, a) else best)

unfoldable pub ownerscreen : List Screen → Rectangle → Option ℕ
unfolding owner_from
ownerscreen screens r = Option.map (λ t. t.0) (owner_from r screens 0 none)

pub data Dir : Type 0 where
  north south east west : Dir

-- `leastthing`: the key of a rectangle, and the line that the result stands on.
abbrev pub key_of : Dir → Rectangle → ℤ
key_of south r = r.min_y
key_of north r = pos 0 -ℤ r.max_y
key_of east r = r.min_x
key_of west r = pos 0 -ℤ r.max_x

-- The least key behind the first; the source's `best` is not set for an empty vector.
unfoldable pub least : Dir → ℤ → List Rectangle → ℤ
least d best [] = best
least d best (r ∷ rs) = least d (if ltb_ℤ (key_of d r) best then key_of d r else best) rs

unfoldable pub leastthing : Rectangle → Dir → List Rectangle → Rectangle
unfolding least
leastthing rt d [] = rt
leastthing rt d (r ∷ rs) =
    let best = least d (key_of d r) rs in
    elim d [
      | south ↦ record rt { min_y = best; max_y = best }
      | north ↦ record rt { min_y = pos 0 -ℤ best; max_y = pos 0 -ℤ best }
      | east ↦ record rt { min_x = best; max_x = best }
      | west ↦ record rt { min_x = pos 0 -ℤ best; max_x = pos 0 -ℤ best }
    ]

-- The names that the macro `frob` of `findthing` is given: `min.x`, `max.x`, `LT` and `D##y`.
abbrev pub near : Dir → Rectangle → ℤ
near west r = r.min_x
near east r = r.max_x
near north r = r.min_y
near south r = r.max_y

abbrev pub far : Dir → Rectangle → ℤ
far west r = r.max_x
far east r = r.min_x
far north r = r.max_y
far south r = r.min_y

abbrev pub before : Dir → ℤ → ℤ → Bool
before west a b = ltb_ℤ a b
before north a b = ltb_ℤ a b
before east a b = ltb_ℤ b a
before south a b = ltb_ℤ b a

abbrev pub across : Dir → Rectangle → ℤ
across west r = dy r
across east r = dy r
across north r = dx r
across south r = dx r

abbrev pub abs : ℤ → ℤ
abs a = if ltb_ℤ a (pos 0) then pos 0 -ℤ a else a

unfoldable pub is_candidate : Dir → Rectangle → Rectangle → Bool
unfolding rect_intersection
is_candidate d rt r =
    ltb_ℤ (pos 0) (across d (rect_intersection rt r)) && before d (near d r) (near d rt)

abbrev pub distance : Dir → Rectangle → Rectangle → ℤ
distance d rt r = abs (far d r -ℤ near d rt)

-- Whether a candidate replaces the best one so far: it is nearer, or as near with more in common.
unfoldable pub improves : Dir → Rectangle → Rectangle → Option (ℕ × Rectangle) → Bool
unfolding rect_intersection
improves d rt r none = true
improves d rt r (some (i, bestr)) =
    let n = distance d rt r -ℤ distance d rt bestr in
    (eqb_ℤ n (pos 0)
      && ltb_ℤ (across d (rect_intersection rt bestr)) (across d (rect_intersection rt r)))
    || ltb_ℤ n (pos 0)

-- The loop of `findthing`; the state is the index of `best`, and `bestr`.
unfoldable pub find_from :
    Dir → Rectangle → List Rectangle → ℕ → Option (ℕ × Rectangle) → Option (ℕ × Rectangle)
unfolding is_candidate improves
find_from d rt [] i best = best
find_from d rt (r ∷ rs) i best =
    find_from d rt rs (i + 1)
      (if is_candidate d rt r && improves d rt r best then some (i, r) else best)

-- What `findthing` returns for the best thing: with none found and `wrap`, it searches again from the
-- line of the things that stand farthest on the other side.
unfoldable pub or_wrapped :
    Rectangle → Dir → List Rectangle → Bool → Option (ℕ × Rectangle) → Option ℕ
unfolding find_from leastthing
or_wrapped rt d vec wrap (some (i, r)) = some i
or_wrapped rt d vec true none = Option.map (λ t. t.0) (find_from d (leastthing rt d vec) vec 0 none)
or_wrapped rt d vec false none = none

-- The index in `vec` of the thing found.
unfoldable pub findthing : Rectangle → Dir → List Rectangle → Bool → Option ℕ
unfolding find_from or_wrapped
findthing rt d vec wrap = or_wrapped rt d vec wrap (find_from d rt vec 0 none)

-- `constrain`: what the loop finds, and the screen that the rectangle is moved to.
pub data Search : Type 0 where
  visible : Search
  nearest : Option (Screen × ℤ) → Search

-- `!sbest || n > best`
unfoldable pub closer : ℤ → Option (Screen × ℤ) → Bool
closer n none = true
closer n (some (s, m)) = ltb_ℤ m n

-- How near the rectangle is to a screen: `n` of `constrain`.
unfoldable pub nearness : Rectangle → ℤ
unfolding max min
nearness isect =
    if leb_ℤ (dx isect) (pos 0) && leb_ℤ (dy isect) (pos 0)
    then max (dx isect) (dy isect)
    else min (dx isect) (dy isect)

-- `sbest` and `best` behind a screen that the loop does not return at.
unfoldable pub better_of : Rectangle → Screen → Option (Screen × ℤ) → Option (Screen × ℤ)
unfolding nearness closer
better_of isect s best =
    if s.showing && closer (nearness isect) best then some (s, nearness isect) else best

-- Whether the loop returns at a screen: it shows, and the rectangle reaches into its inset.
unfoldable pub in_view : Rectangle → ℤ → Screen → Bool
unfolding rect_intersection insetrect
in_view r inset s =
    let isect = rect_intersection r (insetrect s.r inset) in
    s.showing && (leb_ℤ (pos 0) (dx isect) && leb_ℤ (pos 0) (dy isect))

unfoldable pub nearest_from : Rectangle → ℤ → List Screen → Option (Screen × ℤ) → Search
unfolding rect_intersection insetrect better_of in_view
nearest_from r inset [] best = nearest best
nearest_from r inset (s ∷ rest) best =
    let isect = rect_intersection r (insetrect s.r inset) in
    let go = nearest_from r inset rest (better_of isect s best) in
    if in_view r inset s then visible else go

-- The last lines of `constrain`.
unfoldable pub move_to : Rectangle → Rectangle → Rectangle
unfolding rectaddpt max min
move_to r isect = rectaddpt r (
    pt (pos 0 -ℤ min (r.max_x -ℤ isect.min_x) (pos 0) -ℤ max (r.min_x -ℤ isect.max_x) (pos 0))
      (pos 0 -ℤ min (r.max_y -ℤ isect.min_y) (pos 0) -ℤ max (r.min_y -ℤ isect.max_y) (pos 0)))

-- What `constrain` returns for what its loop finds. `none` is a read through a nil `sbest`, where no
-- screen shows.
unfoldable pub settled : Rectangle → ℤ → Search → Option Rectangle
unfolding move_to insetrect
settled r inset visible = some r
settled r inset (nearest none) = none
settled r inset (nearest (some (s, n))) = some (move_to r (insetrect s.r inset))

-- `inset` is at least 0 here: the height of the last screen's bar is put in for a negative one.
unfoldable pub constrain : List Screen → Rectangle → ℤ → Option Rectangle
unfolding nearest_from settled
constrain screens r inset = settled r inset (nearest_from r inset screens none)
