-- ===== src/Menu/Items.antt =====
-- cmd/menu/main.c, `filter_list` and `update_filter`: the items that match what is typed. The ring
-- that the items are linked into is a list from the item that is returned on.
pub mod Ranked
use wmii.Base.{
  ℕ, zero, suc, ◌-◌, Bool, true, false, Option, none, some, List, [], ◌∷◌, ◌++◌, ◌==◌, ltb,
  if◌then◌else◌, length, take, drop,
}
use wmii.Base.Str.{CString}
use wmii.Menu.{Input}

pub record Item : Type 0 where
  pub string : CString
  pub retstring : CString

-- `exact`, `start` and `substr`: the items that `ip` was chosen to link behind each.
pub record Linked : Type 0 where
  pub exact : List Item
  pub start : List Item
  pub substr : List Item

-- `ip`, for the offset at which the filter was found.
abbrev pub link_item : Option ℕ → ℕ → Item → Linked → Linked
link_item none len i g = g
link_item (some zero) len i g =
    if length i.string == len
    then record g { exact = g.exact ++ (i ∷ []) }
    else record g { start = g.start ++ (i ∷ []) }
link_item (some (suc k)) len i g = record g { substr = g.substr ++ (i ∷ []) }

-- `find(string, filter)`, which is strstr or strcasestr: the offset of what it returns.
module _ (find : CString → CString → Option ℕ) where
  unfoldable pub group_from : List Item → CString → Linked → Linked
  group_from [] filter g = g
  group_from (i ∷ is) filter g =
      group_from is filter (link_item (find i.string filter) (length filter) i g)

  -- The three groups are linked one behind the other.
  unfoldable pub filter_list : List Item → CString → List Item
  unfolding group_from
  filter_list items filter =
      let g = group_from items filter (record { exact = []; start = []; substr = [] }) in
      g.exact ++ (g.start ++ g.substr)

  -- `input.string + min(input.filter_start, input.pos - input.string)`, up to the caret.
  unfoldable pub filter_text : ℕ → Input → CString
  filter_text filter_start i =
      let from = if ltb filter_start i.at then filter_start else i.at in
      take (i.at - from) (drop from i.text)

  -- `match.first` and `match.start` behind `update_filter`; `match.sel` is nil.
  unfoldable pub update_filter : List Item → ℕ → Input → List Item
  unfolding filter_list filter_text
  update_filter all filter_start i = filter_list all (filter_text filter_start i)
