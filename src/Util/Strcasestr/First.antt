-- ===== src/Util/Strcasestr/First.antt =====
-- `strcasestr` as a search in lower case.
use wmii.Base.{
  ℕ, ◌≡◌, refl, sym, ap, ◌∙◌, Bool, true, false, ◌&&◌, ◌||◌, Option, none, some, [], ◌∷◌, ◌==◌,
  if◌then◌else◌, length, map, arith,
}
use wmii.Base.Str.{CString}
use wmii.Util.Strcasestr.{Lib, find_from, strcasestr, next_offset}

-- Whether a text starts with another one, or holds it.
unfoldable pub starts_with : CString → CString → Bool
starts_with [] s = true
starts_with (c ∷ t) [] = false
starts_with (c ∷ t) (d ∷ s) = (c == d) && starts_with t s

unfoldable pub occurs : CString → CString → Bool
unfolding starts_with
occurs t [] = starts_with t []
occurs t (c ∷ s) = starts_with t (c ∷ s) || occurs t s

-- The first place of a text in another one.
unfoldable pub first_at : CString → CString → Option ℕ
unfolding starts_with
first_at t [] = if starts_with t [] then some 0 else none
first_at t (c ∷ s) = if starts_with t (c ∷ s) then some 0 else next_offset (first_at t s)

-- `find`, where `fold` is how the bytes are compared: as they are, or in lower case.
abbrev pub FindsFirst : (ℕ → ℕ) → (CString → CString → Option ℕ) → Type 0
FindsFirst fold find = (s t : CString) → find s t ≡ first_at (map fold t) (map fold s)

-- strncasecmp over the whole of the second text.
abbrev pub Compares : Lib → Type 0
Compares lib =
    (s t : CString)
    → lib.same_start s t (length t) ≡ starts_with (map lib.tolower t) (map lib.tolower s)

none_or_same :
    (lib : Lib) (s t : CString)
    → Compares lib
    → ((length t == 0) || lib.same_start s t (length t))
      ≡ starts_with (map lib.tolower t) (map lib.tolower s)
unfolding starts_with
none_or_same lib s [] h = refl
none_or_same lib s (c ∷ t) h = ground (arith, h s (c ∷ t))

first_at-nil : (s : CString) → first_at [] s ≡ some 0
unfolding first_at starts_with
first_at-nil [] = refl
first_at-nil (c ∷ s) = refl

find_from-first_at :
    (lib : Lib) (s : CString) (c : ℕ) (t : CString)
    → Compares lib
    → find_from lib s c t ≡ first_at (map lib.tolower (c ∷ t)) (map lib.tolower s)
unfolding find_from first_at starts_with
find_from-first_at lib [] c t h = refl
find_from-first_at lib (d ∷ s) c t h =
    ap
      (λ b.
        if (lib.tolower c == lib.tolower d) && b then some 0 else next_offset (find_from lib s c t))
      (none_or_same lib s t h)
    ∙ ap
        (λ o. if starts_with (map lib.tolower (c ∷ t)) (map lib.tolower (d ∷ s)) then some 0 else o)
        (ap next_offset (find_from-first_at lib s c t h))

-- Where strncasecmp compares in lower case, `strcasestr` finds the first place of the second text in the
-- first, both in lower case.
pub strcasestr-FindsFirst : (lib : Lib) → Compares lib → FindsFirst lib.tolower (strcasestr lib)
unfolding strcasestr
strcasestr-FindsFirst lib h s [] = sym (first_at-nil (map lib.tolower s))
strcasestr-FindsFirst lib h s (c ∷ t) = find_from-first_at lib s c t h
