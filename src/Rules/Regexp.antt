-- ===== src/Rules/Regexp.antt =====
-- What `update_rules` makes of the escapes in a regular expression.
use wmii.Base.{
  ℕ, ◌≡◌, ◌≤◌, zero, suc, length, arith, Option, refl, ap, ◌∙◌, Bool, true, false, none, some, List,
  [], ◌∷◌, ◌++◌, ◌==◌, if◌then◌else◌,
}
use wmii.Base.Str.{CString}
use wmii.Rules.{cons_read, drops_backslash, put_dropped, put_both, read_regexp}

-- A byte of a regular expression, or one behind a backslash.
pub data Atom : Type 0 where
  lit esc : ℕ → Atom

abbrev pub source : List Atom → CString
source [] = []
source (lit c ∷ l) = c ∷ source l
source (esc c ∷ l) = b'\\' ∷ (c ∷ source l)

-- Only what is escaped is a slash or a backslash.
abbrev pub IsPlain : List Atom → Type 0
IsPlain [] = Unit
IsPlain (lit c ∷ l) = ((c == b'/') ≡ false) × ((c == b'\\') ≡ false) × IsPlain l
IsPlain (esc c ∷ l) = IsPlain l

-- An escape loses its backslash where it ends the expression, or an escaped slash follows it.
abbrev pub loses : List Atom → Bool
loses [] = true
loses (lit d ∷ l) = false
loses (esc d ∷ l) = d == b'/'

abbrev pub kept : List Atom → CString
kept [] = []
kept (lit c ∷ l) = c ∷ kept l
kept (esc c ∷ l) = if loses l then c ∷ kept l else b'\\' ∷ (c ∷ kept l)

read_regexp-lit :
    (room c : ℕ) (t : CString)
    → (c == b'/') ≡ false
    → (c == b'\\') ≡ false
    → read_regexp (suc room) (c ∷ t) ≡ cons_read c (read_regexp room t)
unfolding read_regexp
read_regexp-lit room c [] h k = ap (λ (b : Bool). if b then some ([], []) else none) h
read_regexp-lit room c (d ∷ t) h k = rw (h, k) refl

read_regexp-esc :
    (room c : ℕ) (t : CString)
    → read_regexp room (b'\\' ∷ (c ∷ t)) ≡ (
        let here = (λ (r : ℕ). read_regexp r (c ∷ t)) in
        let behind = (λ (r : ℕ). read_regexp r t) in
        if drops_backslash (c ∷ t)
        then put_dropped room c here behind
        else put_both room b'\\' c here behind)
unfolding read_regexp
read_regexp-esc room c t = refl

read_regexp-close : (room : ℕ) (rest : CString) → read_regexp room (b'/' ∷ rest) ≡ some ([], rest)
unfolding read_regexp
read_regexp-close room [] = refl
read_regexp-close room (c ∷ rest) = refl

drops-loses :
    (c : ℕ) (l : List Atom) (rest : CString)
    → IsPlain l
    → drops_backslash (c ∷ (source l ++ (b'/' ∷ rest))) ≡ loses l
drops-loses c [] rest h = refl
drops-loses c (lit d ∷ l) rest (h, k, p) = rw (h, k) refl
drops-loses c (esc d ∷ l) rest h = refl

-- An escape that finds room.
put_esc :
    (b : Bool) (room c : ℕ) (w rest : CString) (here behind : ℕ → Option (CString × CString))
    → length (if b then c ∷ w else b'\\' ∷ (c ∷ w)) ≤ room
    → ((r : ℕ) → length w ≤ r → behind r ≡ some (w, rest))
    → (if b then put_dropped room c here behind else put_both room b'\\' c here behind)
      ≡ some ((if b then c ∷ w else b'\\' ∷ (c ∷ w)), rest)
put_esc true zero c w rest here behind h k = absurd (omega arith)
put_esc true (suc room) c w rest here behind h k = ap (cons_read c) (k room (omega arith))
put_esc false zero c w rest here behind h k = absurd (omega arith)
put_esc false (suc zero) c w rest here behind h k = absurd (omega arith)
put_esc false (suc (suc room)) c w rest here behind h k =
    ap (λ o. cons_read b'\\' (cons_read c o)) (k room (omega arith))

-- Of a regular expression in which a slash or a backslash stands only behind a backslash, up to the
-- slash that closes it, `update_rules` keeps every byte where its buffer has room for them all, of which
-- it gives them 255; but an escape at the end of the expression, or in front of an escaped slash, loses
-- its backslash.
pub read_regexp-kept :
    (room : ℕ) (l : List Atom) (rest : CString)
    → IsPlain l
    → length (kept l) ≤ room
    → read_regexp room (source l ++ (b'/' ∷ rest)) ≡ some (kept l, rest)
read_regexp-kept room [] rest h n = read_regexp-close room rest
read_regexp-kept zero (lit c ∷ l) rest (h, k, p) n = absurd (omega arith)
read_regexp-kept (suc room) (lit c ∷ l) rest (h, k, p) n =
    read_regexp-lit room c (source l ++ (b'/' ∷ rest)) h k
    ∙ ap (cons_read c) (read_regexp-kept room l rest p (omega arith))
read_regexp-kept room (esc c ∷ l) rest h n =
    let t = source l ++ (b'/' ∷ rest) in
    let here = (λ (r : ℕ). read_regexp r (c ∷ t)) in
    let behind = (λ (r : ℕ). read_regexp r t) in
    read_regexp-esc room c t
    ∙ ap
        (λ (b : Bool).
          if b then put_dropped room c here behind else put_both room b'\\' c here behind)
        (drops-loses c l rest h)
    ∙ put_esc (loses l) room c (kept l) rest here behind n (λ r m. read_regexp-kept r l rest h m)
