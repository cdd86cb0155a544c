-- ===== src/Util/Unquote.antt =====
-- lib/libstuff/util/unquote.c: words between blanks, of which quotes hold blanks together.
pub mod Quoted
use wmii.Base.{
  ℕ, zero, suc, ◌≡◌, Bool, true, false, not, ◌&&◌, ◌||◌, List, [], ◌∷◌, ◌++◌, ◌==◌, if◌then◌else◌,
  length,
}
use wmii.Base.Str.{CString}

-- `utfrune(" \t\r\n", *s)`
abbrev pub blank : ℕ → Bool
blank c = (c == 32) || ((c == 9) || ((c == 13) || (c == 10)))

abbrev pub cons_tok : ℕ → CString × CString → CString × CString
cons_tok c (t, s) = (c ∷ t, s)

-- The inner loop: what is written through `t`, and where `s` stops. Within quotes two of them are one.
unfoldable pub read_tok : Bool → CString → CString × CString
read_tok inquote [] = ([], [])
read_tok inquote (c ∷ []) =
    if not inquote && blank c then ([], c ∷ []) else if c == b'\'' then ([], []) else (c ∷ [], [])
read_tok inquote (c ∷ (d ∷ s)) =
    let behind = read_tok inquote s in
    let turned = read_tok (not inquote) (d ∷ s) in
    let on = read_tok inquote (d ∷ s) in
    if not inquote && blank c
    then ([], c ∷ (d ∷ s))
    else if c == b'\''
    then (if inquote && (d == b'\'') then cons_tok c behind else turned)
    else cons_tok c on

unfoldable pub skip_blanks : CString → CString
skip_blanks [] = []
skip_blanks (c ∷ s) = let rest = skip_blanks s in if blank c then rest else c ∷ s

-- `if(*s) s++;`
abbrev pub past : CString → CString
past [] = []
past (c ∷ s) = s

-- `unquote(buf, toks, ntoks)`, on fuel; a round that passes no byte stores no token.
abbrev pub store : CString → CString → List CString → List CString
store [] t ts = ts
store (c ∷ s) t ts = t ∷ ts

unfoldable pub unquote_from : ℕ → ℕ → CString → List CString
unfolding read_tok skip_blanks
unquote_from zero ntoks s = []
unquote_from (suc fuel) zero s = []
unquote_from (suc fuel) (suc ntoks) [] = []
unquote_from (suc fuel) (suc ntoks) (c ∷ s) =
    let start = skip_blanks (c ∷ s) in
    let (t, stop) = read_tok false start in store start t (unquote_from fuel ntoks (past stop))

unfoldable pub unquote : ℕ → CString → List CString
unfolding unquote_from
unquote ntoks s = unquote_from (suc (length s)) ntoks s
