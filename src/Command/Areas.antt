-- ===== src/Command/Areas.antt =====
-- cmd/wmii/message.c, `strarea`, `strclient`, `getframe` and `getamt`, and cmd/wmii/area.c, `afmt` and
-- `area_idx`: how messages name areas, clients and frames, and how areas are printed.
pub mod Named
pub mod Safe
use mathlib.Core.List.{reverse}
use wmii.Base.{
  ℕ, zero, suc, ◌+◌, ◌-◌, ◌*◌, ◌≡◌, Bool, true, false, not, ◌&&◌, ◌||◌, Option, none, some, List,
  [], ◌∷◌, ◌++◌, ◌==◌, if◌then◌else◌, length, get_elem?, take, ltb,
}
use wmii.Base.Int.{ℤ, pos, negsuc, ◌*ℤ◌}
use wmii.Base.Str.{CString, codes, streq}
use wmii.Util.Number.{Strtol, getulong, getlong, strend}

-- What a look-up comes to: an error that is raised with `error(Ebadvalue)`, or a read through nil or
-- outside of `v->areas`, of which the source has no check.
pub data Result {ℓ} (A : Type ℓ) : Type ℓ where
  found : A → Result A
  bad_value : Result A
  bad_read : Result A

abbrev pub or_bad {ℓ} : {A : Type ℓ} → Option A → Result A
or_bad none = bad_value
or_bad (some a) = found a

abbrev pub then_found {ℓ κ} : {A : Type ℓ} {B : Type κ} → Result A → (A → Result B) → Result B
then_found (found a) k = k a
then_found bad_value k = bad_value
then_found bad_read k = bad_read

-- A view's areas: the columns of each screen from the left, and the floating area.
pub record View {ℓ} (A : Type ℓ) : Type ℓ where
  pub areas : List (List A)
  pub floating : A
  pub sel : A
  pub selscreen : ℕ

-- `strchr(area, ':')`: the bytes before it and those behind it.
abbrev pub cons_fst : ℕ → Option (CString × CString) → Option (CString × CString)
cons_fst c none = none
cons_fst c (some (t, u)) = some (c ∷ t, u)

unfoldable pub split_colon : CString → Option (CString × CString)
split_colon [] = none
split_colon (c ∷ s) =
    let rest = cons_fst c (split_colon s) in if c == b':' then some ([], s) else rest

module _ {ℓ} {A : Type ℓ} where
  -- `if(i-- == 1) break;` along the list.
  unfoldable pub nth : List A → ℕ → Option A
  nth [] i = none
  nth (a ∷ l) i = let rest = nth l (i - 1) in if i == 1 then some a else rest

  -- A negative number counts from the last column, which is found through `a->next`.
  abbrev pub from_last : List A → ℕ → Result A
  from_last [] i = bad_read
  from_last (a ∷ l) i = or_bad (nth (reverse (a ∷ l)) i)

  unfoldable pub column_at : List A → ℤ → Result A
  unfolding nth
  column_at l (pos zero) = bad_value
  column_at l (pos (suc n)) = or_bad (nth l (suc n))
  column_at l (negsuc n) = from_last l (suc n)

  abbrev pub on_screen : Option (List A) → ℤ → Result A
  on_screen none i = bad_read
  on_screen (some l) i = column_at l i

  abbrev pub numbered : View A → ℕ → Option ℤ → Result A
  numbered v scrn none = bad_value
  numbered v scrn (some i) = on_screen (get_elem? v.areas scrn) i

module _ {ℓ} {A : Type ℓ} (lib : Strtol) where
  -- `strarea` once the screen is known. Its `scrn < 0` is never true, since `scrn` is unsigned.
  unfoldable pub area_on : View A → ℕ → CString → Result A
  unfolding column_at getlong
  area_on v scrn area =
      if streq area (codes "sel")
      then (if scrn == v.selscreen then found v.sel else bad_value)
      else if streq area (codes "~")
      then found v.floating
      else numbered v scrn (getlong lib (some area))

  abbrev pub screen_number : View A → CString → Option ℕ
  screen_number v screen =
      if streq screen (codes "sel") then some v.selscreen else getulong lib (some screen)

  abbrev pub with_screen : View A → Option ℕ → CString → Result A
  with_screen v none area = bad_value
  with_screen v (some scrn) area = area_on v scrn area

  abbrev pub by_colon : View A → ℕ → CString → Option (CString × CString) → Result A
  by_colon v scrn area (some (screen, rest)) = with_screen v (screen_number v screen) rest
  by_colon v scrn area none = if streq area (codes "sel") then found v.sel else area_on v scrn area

  -- `strarea(v, scrn, area)`
  unfoldable pub strarea : View A → ℕ → Option CString → Result A
  unfolding split_colon area_on getulong
  strarea v scrn none = bad_value
  strarea v scrn (some area) = by_colon v scrn area (split_colon area)

-- `win2client(w)` along the list of clients, for their windows.
unfoldable pub win2client {ℓ} : {C : Type ℓ} → (C → ℕ) → ℕ → List C → Option C
win2client xid w [] = none
win2client xid w (c ∷ cs) = let rest = win2client xid w cs in if xid c == w then some c else rest

-- The frames of an area.
pub record Frames {ℓ} (F : Type ℓ) : Type ℓ where
  pub frames : List F
  pub sel : Option F

-- The clients, with their windows, the selected client of the view and their frames on it.
pub record Clients {ℓ} (C F : Type ℓ) : Type ℓ where
  pub clients : List C
  pub xid : C → ℕ
  pub selclient : Option C
  pub viewframe : C → Option F

module _ {ℓ} {C F : Type ℓ} (lib : Strtol) (cs : Clients C F) where
  abbrev pub by_window : Option ℕ → Result C
  by_window none = bad_value
  by_window (some w) = or_bad (win2client cs.xid w cs.clients)

  -- `strclient(v, s)`
  unfoldable pub strclient : Option CString → Result C
  unfolding win2client getulong
  strclient none = bad_value
  strclient (some s) =
      if streq s (codes "sel") then or_bad cs.selclient else by_window (getulong lib (some s))

  abbrev pub frame_number : Frames F → Option ℕ → Result F
  frame_number a none = bad_value
  frame_number a (some l) = or_bad (nth a.frames l)

  -- The frame of an area: `--l == 0` counts from one, and a zero wraps around and finds none.
  abbrev pub frame_in : CString → Frames F → Result F
  frame_in s a =
      if streq s (codes "sel") then or_bad a.sel else frame_number a (getulong lib (some s))

  -- `getframe(v, scrn, m)`, from the words that `msg_getword(m, Ebadvalue)` returns.
  unfoldable pub getframe :
      {A : Type ℓ} → (A → Frames F) → View A → ℕ → Option CString → Option CString → Result F
  unfolding strclient strarea nth
  getframe of v scrn none second = bad_value
  getframe of v scrn (some s) none = bad_value
  getframe of v scrn (some s) (some t) =
      if streq s (codes "client")
      then then_found (strclient (some t)) (λ c. or_bad (cs.viewframe c))
      else then_found (strarea lib v scrn (some s)) (λ a. frame_in t (of a))

-- `getamt(m, &amt)`: the multiple of `amt`, or of a pixel for a number that ends in "px".
pub record Amount : Type 0 where
  pub x : ℤ
  pub y : ℤ

module _ (lib : Strtol) where
  abbrev pub times : Amount → Option ℤ → Option Amount
  times amt none = none
  times amt (some l) = some (record { x = amt.x *ℤ l; y = amt.y *ℤ l })

  -- `none` where `msg_getlong` raises an error.
  unfoldable pub getamt : Option CString → Amount → Option Amount
  unfolding strend getlong
  getamt none amt = some amt
  getamt (some s) amt =
      if streq (strend s 2) (codes "px")
      then times (record { x = pos 1; y = pos 1 }) (getlong lib (some (take (length s - 2) s)))
      else times amt (getlong lib (some s))

-- `area_idx`: the place of a column on its screen, from one; the floating area has none.
pub data Place : Type 0 where
  in_floating : Place
  in_column : ℕ → ℕ → Place

-- `afmt` of an area, for the library's "%d"; `sharp` is `f->flags & FmtSharp`. The arguments of `in_column`
-- are the screen and the index.
unfoldable pub afmt : (ℕ → CString) → Bool → Place → CString
afmt print sharp in_floating = codes "~"
afmt print sharp (in_column screen idx) =
    if ltb 0 screen || sharp then print screen ++ (b':' ∷ print idx) else print idx
