-- ===== src/Message/Search.antt =====
-- cmd/wmii/message.c, `_bsearch`, `_lsearch` and the symbol tables. A table is the list of its
-- strings.
pub mod Sound
pub mod Tables
pub mod Known
use Prim.Native.Nat.{Ordering, compare}
use wmii.Base.{
  ℕ, zero, suc, ◌+◌, ◌-◌, ◌/◌, ◌<◌, Bool, true, false, Option, none, some, List, [], ◌∷◌, ◌++◌,
  ◌||◌, ◌==◌, if◌then◌else◌, get_or, length, ltb,
}
use wmii.Base.Str.{CString, strcmp, streq}

-- What a search comes to: an index, or -1. A loop that has used up its fuel has come to nothing.
pub data Sought : Type 0 where
  found : ℕ → Sought
  missing out_of_fuel : Sought

-- The loop of `_bsearch` on `tab[i .. i+n)`, for the folded text `to`; `rec` is the next round.
-- `m` is n / 2, and `m == 0` is passed on.
unfoldable pub after_gt : (ℕ → ℕ → Sought) → ℕ → ℕ → ℕ → Bool → Sought
after_gt rec i n m true = rec i m
after_gt rec i n m false = rec (i + m) (n - m)

unfoldable pub narrow : (ℕ → ℕ → Sought) → ℕ → ℕ → ℕ → Ordering → Sought
unfolding after_gt
narrow rec i n m Ordering.eq = found (i + m)
narrow rec i n m Ordering.lt = rec i m
narrow rec i n m Ordering.gt = after_gt rec i n m (m == 0)

unfoldable pub probe : CString → List CString → (ℕ → ℕ → Sought) → ℕ → ℕ → Bool → Sought
unfolding narrow strcmp
probe to tab rec i n true = missing
probe to tab rec i n false = narrow rec i n (n / 2) (strcmp to (get_or tab (i + n / 2) []))

unfoldable pub bsearch_loop : ℕ → CString → List CString → ℕ → ℕ → Sought
unfolding probe
bsearch_loop zero to tab i n = out_of_fuel
bsearch_loop (suc fuel) to tab i n = probe to tab (bsearch_loop fuel to tab) i n (n == 0)

-- The library's rune functions: `chartorune` gives the rune and the bytes that it takes.
pub record Runes : Type 0 where
  pub chartorune : CString → ℕ × ℕ
  pub tolowerrune : ℕ → ℕ
  pub runetochar : ℕ → CString

module _ (lib : Runes) where
  open lib use {chartorune, tolowerrune, runetochar}

  -- `end - buffer`: 8092 bytes, less a rune and the NUL.
  abbrev pub room : ℕ
  room = 8087

  abbrev pub skip : ℕ → CString → CString
  skip zero s = s
  skip (suc n) [] = []
  skip (suc n) (c ∷ s) = skip n s

  -- The loop that folds `from` into the buffer; `to` is what has been written.
  unfoldable pub fold : ℕ → CString → CString → CString
  fold zero to from = to
  fold (suc fuel) to [] = to
  fold (suc fuel) to (c ∷ s) =
      let (r, n) = chartorune (c ∷ s) in
      let to' = if r == 0x80 then to else to ++ runetochar (tolowerrune r) in
      let rest = fold fuel to' (skip n (c ∷ s)) in if ltb (length to) room then rest else to

  unfoldable pub bsearch : Option CString → List CString → Sought
  unfolding fold bsearch_loop
  bsearch none tab = missing
  bsearch (some from) tab =
      bsearch_loop (suc (length tab)) (fold (suc (length from)) [] from) tab 0 (length tab)

-- `_lsearch`: the first index whose string is `from`; an error is `none`.
unfoldable pub lsearch_from : CString → List CString → ℕ → Option ℕ
lsearch_from from [] i = none
lsearch_from from (t ∷ tab) i = if streq from t then some i else lsearch_from from tab (i + 1)

unfoldable pub lsearch : Option CString → List CString → Option ℕ
unfolding lsearch_from
lsearch none tab = none
lsearch (some from) tab = lsearch_from from tab 0
