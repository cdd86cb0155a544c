-- ===== src/Tests/Command.antt =====
-- The words and areas of messages at concrete inputs.
use wmii.Base.{ℕ, ◌≡◌, ◌≢◌, refl, false, ◌||◌, ◌==◌, ◌+◌, ◌-◌, some, List, [], ◌∷◌, arith, inl}
use wmii.Base.Int.{ℤ, pos}
use wmii.Base.Str.{CString, codes, strcmp}
use wmii.Util.Number.{Strtol, getulong, getlong}
use wmii.Command.Words.{Scanner, getwords}
use wmii.Command.Words.Line.{Ascii, Words, line, getwords-line}
use wmii.Command.Areas.{View, found, bad_read, split_colon, in_column, afmt, strarea}
use wmii.Command.Areas.Named.{Prints, strarea-afmt}
use wmii.Command.Areas.Safe.{strarea-safe}

abbrev first_rune : CString → ℕ × ℕ
first_rune [] = (0, 1)
first_rune (c ∷ s) = (c, 1)

abbrev ascii : Scanner
ascii = record { chartorune = first_rune; isspacerune = λ c. (c == 32) || (c == 10) }

ascii-Ascii : Ascii ascii
ascii-Ascii = record { one = λ c s h. refl; blank = refl; backslash = refl }

abbrev two_words : List CString
two_words = codes "#a" ∷ (codes "b" ∷ [])

two_words-Words : Words ascii two_words
two_words-Words = (
  (
    record { ascii = omega arith; visible = refl; not_nul = refl },
    (record { ascii = omega arith; visible = refl; not_nul = refl }, tt),
  ),
  omega arith,
  ((record { ascii = omega arith; visible = refl; not_nul = refl }, tt), omega arith, tt),
)

getwords-line_example : getwords ascii 3 (line two_words) ≡ two_words
getwords-line_example = getwords-line ascii ascii-Ascii 3 two_words two_words-Words (omega arith)

-- Numbers of one digit.
abbrev digit_text : ℕ → CString
digit_text n = (48 + n) ∷ []

abbrev digit_value : CString → ℕ → ℕ × CString
digit_value [] b = (0, [])
digit_value (c ∷ s) b = (c - 48, s)

abbrev signed_value : CString → ℕ → ℤ × CString
signed_value s b = (pos (digit_value s b).0, (digit_value s b).1)

abbrev digits : Strtol
digits = record { strtoul = digit_value; strtol = signed_value }

digits-Prints_one : Prints digits digit_text 1
unfolding getlong getulong split_colon strcmp
digits-Prints_one = record {
  long = refl;
  ulong = refl;
  no_colon = refl;
  not_sel = refl;
  not_tilde = refl;
}

digits-Prints_two : Prints digits digit_text 2
unfolding getlong getulong split_colon strcmp
digits-Prints_two = record {
  long = refl;
  ulong = refl;
  no_colon = refl;
  not_sel = refl;
  not_tilde = refl;
}

-- Two screens, with the areas 10, and 20 and 21.
abbrev two_screens : View ℕ
two_screens = record {
  areas = (10 ∷ []) ∷ ((20 ∷ (21 ∷ [])) ∷ []);
  floating = 0;
  sel = 10;
  selscreen = 0;
}

strarea-afmt_example :
    strarea digits two_screens 0 (some (afmt digit_text false (in_column 1 2))) ≡ found 21
strarea-afmt_example =
    strarea-afmt digits digit_text two_screens false 0 (in_column 1 2) 21
      (digits-Prints_one, digits-Prints_two) (20 ∷ (21 ∷ []), refl, omega arith, refl) (inl refl)

strarea-safe_example : strarea digits two_screens 0 (some (codes "1:2")) ≢ bad_read
unfolding split_colon getulong strcmp
strarea-safe_example =
    strarea-safe digits two_screens 0 (codes "1:2") (omega arith, (omega arith, tt))
      (λ n h. ground arith)
