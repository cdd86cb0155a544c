-- ===== src/Layout/Mode.antt =====
-- `column_setmode` and `column_getmode` of cmd/wmii/column.c: the mode of a column and its text.
pub mod Text
use wmii.Base.{
  ℕ, ◌≡◌, refl, Bool, true, false, Option, none, some, List, [], ◌∷◌, ◌++◌, ◌==◌, ◌||◌, not,
  if◌then◌else◌,
}
use wmii.Base.Str.{CString, codes, streq}
use wmii.Message.Mask.{drain}

-- `a->mode == Colstack` and `a->max`.
pub record Mode : Type 0 where
  pub stack : Bool
  pub max : Bool

-- A flag that a sign sets, clears or inverts.
unfoldable pub signed : ℕ → Bool → Bool
signed add b = if (add == 0) || (add == b'+') then true else (if add == b'-' then false else not b)

-- One token; `none` for a word that is not known. The layout that `default` asks for is not part of the
-- mode.
unfoldable pub mode_token : Mode → ℕ → CString → Option Mode
unfolding signed
mode_token a add tok =
    if streq tok (codes "max")
    then some (record a { max = signed add a.max })
    else (if streq tok (codes "stack")
        then some (record a { stack = signed add a.stack })
        else (if streq tok (codes "default")
            then some (record a { stack = not (signed add (not a.stack)) })
            else none))

-- The loop: the mode it leaves, and whether every word was known.
unfoldable pub mode_tokens : Mode → List (ℕ × CString) → Mode × Bool
unfolding mode_token
mode_tokens a [] = (a, true)
mode_tokens a (t ∷ ts) = elim (mode_token a t.0 t.1) [
  | none ↦ (a, false)
  | some b ↦ mode_tokens b ts
]

-- `column_setmode`; `fuel` bounds the rounds of `mask`, and `none` is a call of it that does not return.
unfoldable pub column_setmode : ℕ → Mode → CString → Option (Mode × Bool)
unfolding mode_tokens drain
column_setmode fuel a s = elim (drain fuel fuel s b'+') [
  | none ↦ none
  | some ts ↦ some (mode_tokens a ts)
]

unfoldable pub column_getmode : Mode → CString
column_getmode a =
    (if a.stack then codes "stack" else codes "default")
    ++ ((if a.max then b'+' else b'-') ∷ codes "max")
