-- ===== src/Util/Strcasestr.antt =====
-- lib/libstuff/util/strcasestr.c: a text in another, whatever the case of the letters.
pub mod First
use wmii.Base.{
  ℕ, zero, suc, ◌-◌, Bool, true, false, ◌&&◌, ◌||◌, Option, none, some, List, [], ◌∷◌, ◌==◌,
  if◌then◌else◌, length,
}
use wmii.Base.Str.{CString}

-- The C library's tolower, and strncasecmp of two texts being 0.
pub record Lib : Type 0 where
  pub tolower : ℕ → ℕ
  pub same_start : CString → CString → ℕ → Bool

abbrev pub next_offset : Option ℕ → Option ℕ
next_offset none = none
next_offset (some n) = some (suc n)

module _ (lib : Lib) where
  open lib use {tolower, same_start}

  -- The loop, for `src` of the first byte `c` and the rest `src`: the offset of what it returns.
  unfoldable pub find_from : CString → ℕ → CString → Option ℕ
  find_from [] c src = none
  find_from (d ∷ dst) c src =
      let rest = next_offset (find_from dst c src) in
      if (tolower c == tolower d) && ((length src == 0) || same_start dst src (length src))
      then some 0
      else rest

  unfoldable pub strcasestr : CString → CString → Option ℕ
  unfolding find_from
  strcasestr dst [] = some 0
  strcasestr dst (c ∷ src) = find_from dst c src
