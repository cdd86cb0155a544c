-- ===== src/Command/Areas/Safe.antt =====
-- When `strarea` reads neither through nil nor outside of `v->areas`.
use mathlib.Core.List.{reverse}
use wmii.Base.{
  if_both, ℕ, zero, suc, ◌<◌, ◌≤◌, ◌≡◌, ◌≢◌, refl, ap, Bool, true, false, Option, none, some, List,
  [], ◌∷◌, ◌==◌, length, get_elem?, arith,
}
use wmii.Base.Int.{ℤ, pos, negsuc}
use wmii.Base.Str.{CString, codes, streq}
use wmii.Util.Number.{Strtol, getlong}
use wmii.Command.Areas.{
  Result, found, bad_value, bad_read, or_bad, View, split_colon, nth, column_at, on_screen,
  numbered, area_on, screen_number, with_screen, by_colon, strarea,
}

abbrev is_read {ℓ} : {A : Type ℓ} → Result A → Bool
is_read (found a) = false
is_read bad_value = false
is_read bad_read = true

-- Every screen of the view has a column.
abbrev pub Filled {ℓ} : {A : Type ℓ} → List (List A) → Type 0
Filled [] = Unit
Filled (l ∷ ls) = (1 ≤ length l) × Filled ls

-- The screen that a name holds is one of them.
abbrev pub NamesScreen {ℓ} :
    {A : Type ℓ} → Strtol → View A → ℕ → Option (CString × CString) → Type 0
NamesScreen lib v scrn none = scrn < length v.areas
NamesScreen lib v scrn (some (screen, rest)) =
    (n : ℕ) → screen_number lib v screen ≡ some n → n < length v.areas

module _ {ℓ} {A : Type ℓ} where
  or_bad-safe : (o : Option A) → is_read (or_bad o) ≡ false
  or_bad-safe none = refl
  or_bad-safe (some a) = refl

  column_at-safe : (l : List A) (i : ℤ) → 1 ≤ length l → is_read (column_at l i) ≡ false
  unfolding column_at
  column_at-safe l (pos zero) h = refl
  column_at-safe l (pos (suc n)) h = or_bad-safe (nth l (suc n))
  column_at-safe [] (negsuc n) h = absurd (omega arith)
  column_at-safe (a ∷ l) (negsuc n) h = or_bad-safe (nth (reverse (a ∷ l)) (suc n))

  on_screen-safe :
      (ls : List (List A)) (scrn : ℕ) (i : ℤ)
      → Filled ls
      → scrn < length ls
      → is_read (on_screen (get_elem? ls scrn) i) ≡ false
  on_screen-safe [] scrn i f h = absurd (omega arith)
  on_screen-safe (l ∷ ls) zero i (f, fs) h = column_at-safe l i f
  on_screen-safe (l ∷ ls) (suc scrn) i (f, fs) h = on_screen-safe ls scrn i fs (omega arith)

  numbered-safe :
      (v : View A) (scrn : ℕ) (o : Option ℤ)
      → Filled v.areas
      → scrn < length v.areas
      → is_read (numbered v scrn o) ≡ false
  numbered-safe v scrn none f h = refl
  numbered-safe v scrn (some i) f h = on_screen-safe v.areas scrn i f h

module _ {ℓ} {A : Type ℓ} (lib : Strtol) (v : View A) (f : Filled v.areas) where
  area_on-safe :
      (scrn : ℕ) (area : CString)
      → scrn < length v.areas
      → is_read (area_on lib v scrn area) ≡ false
  unfolding area_on
  area_on-safe scrn area h =
      let rest = numbered v scrn (getlong lib (some area)) in
      let Unread : Result A → Type 0 = λ r. is_read r ≡ false in
      if_both Unread (streq area (codes "sel"))
        (if_both Unread (scrn == v.selscreen) {x = found v.sel} {y = bad_value} refl refl)
        (if_both Unread (streq area (codes "~")) {x = found v.floating} {y = rest} refl
          (numbered-safe v scrn (getlong lib (some area)) f h))

  with_screen-safe :
      (o : Option ℕ) (area : CString)
      → ((n : ℕ) → o ≡ some n → n < length v.areas)
      → is_read (with_screen lib v o area) ≡ false
  with_screen-safe none area h = refl
  with_screen-safe (some n) area h = area_on-safe n area (h n refl)

  by_colon-safe :
      (scrn : ℕ) (area : CString) (o : Option (CString × CString))
      → NamesScreen lib v scrn o
      → is_read (by_colon lib v scrn area o) ≡ false
  by_colon-safe scrn area none h =
      if_both (λ (r : Result A). is_read r ≡ false) (streq area (codes "sel")) {x = found v.sel}
        {y = area_on lib v scrn area} refl (area_on-safe scrn area h)
  by_colon-safe scrn area (some (screen, rest)) h =
      with_screen-safe (screen_number lib v screen) rest h

is_not_read {ℓ} : {A : Type ℓ} (r : Result A) → is_read r ≡ false → r ≢ bad_read
is_not_read r h e = cc (ap is_read e)

-- Where every screen has a column, and the screen that a name holds, or the given one where it holds
-- none, is one of the view's, `strarea` reads neither through nil nor outside of its array of screens.
pub strarea-safe {ℓ} :
    {A : Type ℓ} (lib : Strtol) (v : View A) (scrn : ℕ) (area : CString)
    → Filled v.areas
    → NamesScreen lib v scrn (split_colon area)
    → strarea lib v scrn (some area) ≢ bad_read
unfolding strarea
strarea-safe lib v scrn area f h =
    is_not_read (by_colon lib v scrn area (split_colon area))
      (by_colon-safe lib v f scrn area (split_colon area) h)
