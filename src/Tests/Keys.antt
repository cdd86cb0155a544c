-- ===== src/Tests/Keys.antt =====
-- Key bindings and rules at concrete inputs.
use wmii.Base.{ℕ, ◌≡◌, refl, true, some, List, [], ◌∷◌, ◌++◌, arith, inl, inr, ◌==◌, ◌||◌}
use wmii.Base.Str.{CString, codes}
use wmii.Keys.{Stroke, Key, fired, same_stroke, kpress}
use wmii.Keys.Sequence.{apart, kpress-fires}
use wmii.Rules.{read_regexp}
use wmii.Rules.Regexp.{Atom, lit, esc, source, kept, read_regexp-kept}

abbrev stroke : ℕ → Stroke
stroke k = record { mask = 8; key = k }

-- The bindings "x,y" and "x,z".
abbrev xy : Key
xy = record { name = codes "x,y"; first = stroke 1; next = stroke 2 ∷ [] }

abbrev xz : Key
xz = record { name = codes "x,z"; first = stroke 1; next = stroke 3 ∷ [] }

kpress-fires_example :
    kpress (xz ∷ (xy ∷ [])) (stroke 1) (stroke 2 ∷ (stroke 7 ∷ []))
    ≡ (fired (codes "x,y"), stroke 7 ∷ [])
unfolding apart same_stroke
kpress-fires_example =
    kpress-fires xy (xz ∷ (xy ∷ [])) (stroke 7 ∷ []) (inr (refl, inl (refl, tt))) (refl, tt)

abbrev atoms : List Atom
atoms = lit 97 ∷ (esc b'.' ∷ [])

read_regexp-kept_example :
    read_regexp 255 (source atoms ++ (b'/' ∷ codes " x")) ≡ some (kept atoms, codes " x")
read_regexp-kept_example = read_regexp-kept 255 atoms (codes " x") (refl, refl, tt) (omega arith)

abbrev first_rune : CString → ℕ × ℕ
first_rune [] = (0, 1)
first_rune (c ∷ s) = (c, 1)

abbrev rules_lib : wmii.Rules.Lib
rules_lib = record {
  scanner = record { chartorune = first_rune; isspacerune = λ c. (c == 32) || (c == 10) };
  regcomp = λ re. true;
  stale = [];
}
