-- ===== src/Command/Grow.antt =====
-- cmd/wmii/message.c: `getsym`, `getdirection`, `setdef`, `gettoggle`, `msg_grow` and `msg_nudge`. The
-- rectangle that the last two ask for goes to `float_resizeframe` or `column_resizeframe`.
pub mod Undo
use wmii.Base.{
  ℕ, ◌≡◌, Bool, true, false, Option, none, some, List, [], ◌∷◌, ◌==◌, if◌then◌else◌, get_elem?,
}
use wmii.Base.Int.{ℤ, pos, negsuc, ◌+ℤ◌, ◌-ℤ◌, ◌*ℤ◌, ltb_ℤ, quot}
use wmii.Base.Str.{CString, codes, streq}
use wmii.Geom.{Point, Rectangle, pt, rectaddpt}
use wmii.Message.Search.{Runes, Sought, found, missing, out_of_fuel, bsearch, lsearch}
use wmii.Message.Search.Tables.{symtab, toggletab}
use wmii.Command.Areas.{Amount}

pub data Direction : Type 0 where
  left right up down : Direction

module _ (lib : Runes) where
  -- The index of a word in `symtab`.
  unfoldable pub getsym : Option CString → Sought
  unfolding bsearch
  getsym s = bsearch lib s symtab

  -- `LLEFT` and the others are the places of their words.
  abbrev pub direction_named : Option CString → Option Direction
  direction_named none = none
  direction_named (some s) =
      if streq s (codes "left")
      then some left
      else if streq s (codes "right")
      then some right
      else if streq s (codes "up")
      then some up
      else if streq s (codes "down")
      then some down
      else none

  abbrev pub word_at_index : Sought → Option CString
  word_at_index (found i) = get_elem? symtab i
  word_at_index missing = none
  word_at_index out_of_fuel = none

  -- `getdirection`; an error Ebadusage is `none`.
  unfoldable pub getdirection : Option CString → Option Direction
  unfolding getsym
  getdirection s = direction_named (word_at_index (getsym s))

  -- `setdef(ptr, s, tab, ntab)`: what `*ptr` is set to; an error Ebadvalue is `missing`.
  unfoldable pub setdef : Option CString → List CString → Sought
  unfolding bsearch
  setdef s tab = bsearch lib s tab

-- `gettoggle`; an error Ebadvalue is `none`.
unfoldable pub gettoggle : Option CString → Option ℕ
unfolding lsearch
gettoggle s = lsearch s toggletab

-- The client's aspect, and its increment.
pub record Ratio : Type 0 where
  pub min_x : ℕ
  pub min_y : ℕ

-- The amount before the message's word: the title bar's height, or the increment where that is more.
abbrev pub at_least : ℤ → ℤ → ℤ
at_least a inc = if ltb_ℤ a inc then inc else a

unfoldable pub grow_unit : ℤ → Point → Amount
grow_unit titlebar inc = record { x = at_least titlebar inc.x; y = at_least titlebar inc.y }

-- The other coordinate follows the aspect, if there is one.
abbrev pub scaled : ℤ → ℕ → ℕ → ℤ
scaled a num den = if den == 0 then pos 0 else quot (a *ℤ pos num) den

unfoldable pub grow_by : Ratio → Direction → Amount → Point
grow_by h left a = pt a.x (scaled a.x h.min_y h.min_x)
grow_by h right a = pt a.x (scaled a.x h.min_y h.min_x)
grow_by h up a = pt (scaled a.y h.min_x h.min_y) a.y
grow_by h down a = pt (scaled a.y h.min_x h.min_y) a.y

-- `msg_grow`: the corner above moves for left and up, the corner below for right and down.
unfoldable pub move_corner : Direction → Point → Rectangle → Rectangle
move_corner left p r = record r { min_x = r.min_x -ℤ p.x; min_y = r.min_y -ℤ p.y }
move_corner up p r = record r { min_x = r.min_x -ℤ p.x; min_y = r.min_y -ℤ p.y }
move_corner right p r = record r { max_x = r.max_x +ℤ p.x; max_y = r.max_y +ℤ p.y }
move_corner down p r = record r { max_x = r.max_x +ℤ p.x; max_y = r.max_y +ℤ p.y }

unfoldable pub msg_grow : Ratio → Direction → Amount → Rectangle → Rectangle
unfolding grow_by move_corner
msg_grow h d a r = move_corner d (grow_by h d a) r

-- `msg_nudge`
unfoldable pub msg_nudge : Direction → Amount → Rectangle → Rectangle
unfolding rectaddpt
msg_nudge left a r = rectaddpt r (pt (pos 0 -ℤ a.x) (pos 0))
msg_nudge right a r = rectaddpt r (pt a.x (pos 0))
msg_nudge up a r = rectaddpt r (pt (pos 0) (pos 0 -ℤ a.y))
msg_nudge down a r = rectaddpt r (pt (pos 0) a.y)
