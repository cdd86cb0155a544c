-- ===== src/Menu.antt =====
-- cmd/menu/caret.c: the text of the menu's input and its caret. The text is the bytes up to
-- `input.end`; pointers into it are indices.
pub mod Caret
pub mod Items
pub mod History
use wmii.Base.{
  ℕ, zero, suc, ◌+◌, ◌-◌, ◌*◌, ◌≡◌, refl, Bool, true, false, Option, none, some, List, [], ◌∷◌,
  ◌++◌, ◌==◌, ltb, if◌then◌else◌, length, take, drop,
}
use wmii.Base.Int.{ℤ, pos, negsuc, ltb_ℤ}
use wmii.Base.Str.{CString}

pub record Input : Type 0 where
  pub text : CString
  pub at : ℕ
  pub at_end : Option ℕ
  pub size : ℕ

-- `max(0, min(len, start))`
unfoldable pub clamp : ℕ → ℤ → ℕ
clamp len (negsuc n) = 0
clamp len (pos n) = if ltb len n then len else n

-- `max(start, end)` for an `end` that is not negative.
unfoldable pub end_of : ℕ → ℤ → Option ℕ
end_of start (negsuc n) = none
end_of start (pos n) = if ltb n start then some start else some n

unfoldable pub caret_set : Input → ℤ → ℤ → Input
unfolding clamp end_of
caret_set i start end =
    let s = clamp (length i.text) start in record i { at = s; at_end = end_of s end }

-- `caret_delete` up to `p`, which is `input.pos_end`, or what `caret_find` returns.
unfoldable pub delete_to : Input → ℕ → Input
delete_to i p =
    if p == length i.text
    then record i { text = take i.at i.text; at_end = none }
    else (if ltb p i.at
        then record i { text = take p i.text ++ drop i.at i.text; at = p; at_end = none }
        else record i { text = take i.at i.text ++ drop p i.text; at_end = none })

-- `found` is what `caret_find(dir, type)` returns.
unfoldable pub caret_delete : Input → ℕ → Input
unfolding delete_to
caret_delete i found = elim i.at_end [ some p ↦ delete_to i p | none ↦ delete_to i found ]

-- `while(input.size < need) input.size <<= 2;` with `fuel` rounds left.
unfoldable pub enlarge : ℕ → ℕ → ℕ → ℕ
enlarge zero size need = size
enlarge (suc fuel) size need =
    let rest = enlarge fuel (size * 4) need in if ltb size need then rest else size

-- `caret_insert` of a string that is not nil. `need` rounds are enough, since a size is at least 1.
unfoldable pub start_from : Input → Bool → Input
unfolding caret_delete
start_from i true = record i { text = []; at = 0 }
start_from i false = elim i.at_end [ some p ↦ caret_delete i p | none ↦ i ]

unfoldable pub caret_insert : Input → CString → Bool → Input
unfolding start_from enlarge
caret_insert i s clear =
    let j = start_from i clear in
    let need = length j.text + length s + 1 in
    record j {
      text = take j.at j.text ++ (s ++ drop j.at j.text);
      at = j.at + length s;
      at_end = none;
      size = enlarge need (if j.size == 0 then 1 else j.size) need;
    }
