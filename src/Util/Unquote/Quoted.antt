-- ===== src/Util/Unquote/Quoted.antt =====
-- Quoted words are read back.
use wmii.Base.{
  ℕ, zero, suc, ◌<◌, ◌≤◌, ◌≡◌, refl, ap, ◌∙◌, Bool, true, false, List, [], ◌∷◌, ◌++◌, ◌==◌,
  if◌then◌else◌, length, length-append, arith, Bool-cases, inl, inr,
}
use wmii.Base.Str.{CString}
use wmii.Util.Unquote.{cons_tok, read_tok, skip_blanks, past, unquote_from}

-- Every quote is written twice.
abbrev pub doubled : CString → CString
doubled [] = []
doubled (c ∷ s) = let rest = doubled s in if c == b'\'' then c ∷ (c ∷ rest) else c ∷ rest

-- Each word between quotes, and a blank behind it.
abbrev pub quoted : List CString → CString
quoted [] = []
quoted (w ∷ ws) = b'\'' ∷ (doubled w ++ (b'\'' ∷ (b' ' ∷ quoted ws)))

read_tok-pair :
    (c : ℕ) (s : CString)
    → (c == b'\'') ≡ true
    → read_tok true (c ∷ (c ∷ s)) ≡ cons_tok c (read_tok true s)
unfolding read_tok
read_tok-pair c s e = rw e refl

read_tok-plain :
    (c : ℕ) (s : CString)
    → (c == b'\'') ≡ false
    → read_tok true (c ∷ s) ≡ cons_tok c (read_tok true s)
unfolding read_tok
read_tok-plain c [] e = rw e refl
read_tok-plain c (d ∷ s) e = rw e refl

read_tok-close : (s : CString) → read_tok true (b'\'' ∷ (b' ' ∷ s)) ≡ ([], b' ' ∷ s)
unfolding read_tok
read_tok-close [] = refl
read_tok-close (c ∷ s) = refl

read_tok-open : (s : CString) → 1 ≤ length s → read_tok false (b'\'' ∷ s) ≡ read_tok true s
unfolding read_tok
read_tok-open [] h = absurd (omega arith)
read_tok-open (c ∷ s) h = refl

read_tok-doubled :
    (w rest : CString) → read_tok true (doubled w ++ (b'\'' ∷ (b' ' ∷ rest))) ≡ (w, b' ' ∷ rest)
read_tok-doubled [] rest = read_tok-close rest
read_tok-doubled (c ∷ w) rest = elim (Bool-cases (c == b'\'')) [
  | inl e ↦
      ap
        (λ (b : Bool).
          read_tok true
            ((if b then c ∷ (c ∷ doubled w) else c ∷ doubled w) ++ (b'\'' ∷ (b' ' ∷ rest))))
        e
      ∙ read_tok-pair c (doubled w ++ (b'\'' ∷ (b' ' ∷ rest))) e
      ∙ ap (cons_tok c) (read_tok-doubled w rest)
  | inr e ↦
      ap
        (λ (b : Bool).
          read_tok true
            ((if b then c ∷ (c ∷ doubled w) else c ∷ doubled w) ++ (b'\'' ∷ (b' ' ∷ rest))))
        e
      ∙ read_tok-plain c (doubled w ++ (b'\'' ∷ (b' ' ∷ rest))) e
      ∙ ap (cons_tok c) (read_tok-doubled w rest)
]

long : (w rest : CString) → 1 ≤ length (doubled w ++ (b'\'' ∷ rest))
long w rest = omega (arith, length-append (doubled w) (b'\'' ∷ rest))

read_word :
    (w rest : CString)
    → read_tok false (b'\'' ∷ (doubled w ++ (b'\'' ∷ (b' ' ∷ rest)))) ≡ (w, b' ' ∷ rest)
read_word w rest =
    read_tok-open (doubled w ++ (b'\'' ∷ (b' ' ∷ rest))) (long w (b' ' ∷ rest))
    ∙ read_tok-doubled w rest

-- `unquote` reads back any words, empty ones too, that are written between quotes with every quote in
-- them doubled and a blank behind each; it needs an array with room for them, and no more rounds than
-- one for each word and one more.
pub unquote_from-quoted :
    (fuel ntoks : ℕ) (ws : List CString)
    → length ws < fuel
    → length ws ≤ ntoks
    → unquote_from fuel ntoks (quoted ws) ≡ ws
unfolding unquote_from skip_blanks
unquote_from-quoted zero ntoks ws h k = absurd (omega arith)
unquote_from-quoted (suc fuel) zero [] h k = refl
unquote_from-quoted (suc fuel) zero (w ∷ ws) h k = absurd (omega arith)
unquote_from-quoted (suc fuel) (suc ntoks) [] h k = refl
unquote_from-quoted (suc fuel) (suc ntoks) (w ∷ ws) h k =
    ap (λ (p : CString × CString). p.0 ∷ unquote_from fuel ntoks (past p.1))
      (read_word w (quoted ws))
    ∙ ap (λ l. w ∷ l) (unquote_from-quoted fuel ntoks ws (omega arith) (omega arith))
