-- ===== src/Layout/Mode/Text.antt =====
-- The text of a mode sets it.
use wmii.Base.{◌≡◌, refl, Bool, true, false, some}
use wmii.Base.Str.{strcmp, contains}
use wmii.Message.Mask.{
  drain, mask, round, start_round, plain_round, cut, fail, until_sep, find_slash,
}
use wmii.Layout.Mode.{Mode, signed, mode_token, mode_tokens, column_setmode, column_getmode}

text_sets :
    (stack max : Bool) (b : Mode)
    → column_setmode 4 b (column_getmode (record { stack = stack; max = max }))
      ≡ some (record { stack = stack; max = max }, true)
unfolding column_setmode column_getmode mode_tokens mode_token signed drain mask round start_round
    plain_round cut fail until_sep find_slash strcmp contains
text_sets true true b = refl
text_sets true false b = refl
text_sets false true b = refl
text_sets false false b = refl

-- `column_setmode` of what `column_getmode` prints for a column gives any column the mode of that one, and
-- succeeds; four rounds of `mask` are enough.
pub column_setmode-getmode : (a b : Mode) → column_setmode 4 b (column_getmode a) ≡ some (a, true)
column_setmode-getmode a b = text_sets a.stack a.max b
