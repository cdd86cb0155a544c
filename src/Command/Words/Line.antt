-- ===== src/Command/Words/Line.antt =====
-- The words that `msg_getword` reads from a line are the words that were written into it.
use wmii.Base.{
  ℕ, zero, suc, ◌-◌, ◌<◌, ◌≤◌, ◌≡◌, refl, ap, ◌∙◌, Bool, true, false, ◌||◌, none, some, List, [],
  ◌∷◌, ◌++◌, ◌==◌, if◌then◌else◌, length, take, drop, arith, Bool-cases, length-append, length-drop,
  inl, inr,
}
use wmii.Base.Str.{CString}
use wmii.Command.Words.{
  Scanner, agrees, to_nul, filter_comment, keep_word, msg_eatrunes, eat_spaces, eat_word, past_rune,
  word_at, msg_getword, getwords,
}

-- Every rune takes a byte at least.
abbrev pub Progress : Scanner → Type 0
Progress lib = (c : ℕ) (s : CString) → 1 ≤ (lib.chartorune (c ∷ s)).1

-- Where `msg_eatrunes` may stop.
abbrev pub Stops : Scanner → (ℕ → Bool) → Bool → CString → Type 0
Stops lib p val [] = Unit
Stops lib p val (c ∷ s) = agrees (p (lib.chartorune (c ∷ s)).0) val ≡ false

-- Where every rune takes a byte at least, `msg_eatrunes` returns within as many rounds as the message
-- has bytes: what is left is empty, or begins with a rune that ends the loop.
msg_eatrunes-Stops :
    (lib : Scanner) (p : ℕ → Bool) (val : Bool) (fuel : ℕ) (s : CString)
    → Progress lib
    → length s ≤ fuel
    → Stops lib p val (msg_eatrunes lib fuel p val s)
unfolding msg_eatrunes
msg_eatrunes-Stops lib p val zero [] h k = tt
msg_eatrunes-Stops lib p val zero (c ∷ s) h k = absurd (omega arith)
msg_eatrunes-Stops lib p val (suc fuel) [] h k = tt
msg_eatrunes-Stops lib p val (suc fuel) (c ∷ s) h k =
    let (r, n) = lib.chartorune (c ∷ s) in
    elim (Bool-cases (agrees (p r) val)) [
      | inl e ↦ rw e (
          msg_eatrunes-Stops lib p val fuel (drop n (c ∷ s)) h
            (omega (arith, length-drop n (c ∷ s), h c s)))
      | inr e ↦ rw e e
    ]

-- What the reading of a line relies on: ASCII bytes are runes, a blank is a space and a backslash
-- is not.
pub record Ascii (lib : Scanner) : Type 0 where
  pub one : (c : ℕ) (s : CString) → c < 128 → lib.chartorune (c ∷ s) ≡ (c, 1)
  pub blank : lib.isspacerune b' ' ≡ true
  pub backslash : lib.isspacerune b'\\' ≡ false

module _ (lib : Scanner) where
  -- A byte of a word.
  pub record Plain (c : ℕ) : Type 0 where
    pub ascii : c < 128
    pub visible : lib.isspacerune c ≡ false
    pub not_nul : (c == 0) ≡ false

  abbrev pub AllPlain : CString → Type 0
  AllPlain [] = Unit
  AllPlain (c ∷ s) = Plain c × AllPlain s

  -- A word is not empty.
  abbrev pub Words : List CString → Type 0
  Words [] = Unit
  Words (w ∷ ws) = AllPlain w × (1 ≤ length w) × Words ws

-- A word as it is written: a backslash goes before a hash or a backslash at its start.
abbrev pub escape : CString → CString
escape [] = []
escape (c ∷ w) = if (c == b'#') || (c == b'\\') then b'\\' ∷ (c ∷ w) else c ∷ w

abbrev pub line : List CString → CString
line [] = []
line (w ∷ ws) = escape w ++ (b' ' ∷ line ws)

take-length-append {ℓ} : {A : Type ℓ} (xs ys : List A) → take (length xs) (xs ++ ys) ≡ xs
take-length-append [] ys = refl
take-length-append (x ∷ xs) ys = ap (λ l. x ∷ l) (take-length-append xs ys)

drop_nil {ℓ} : {A : Type ℓ} (n : ℕ) → drop {A = A} n [] ≡ []
drop_nil zero = refl
drop_nil (suc n) = refl

module _ (lib : Scanner) (a : Ascii lib) where
  to_nul-plain : (w : CString) → AllPlain lib w → to_nul w ≡ w
  unfolding to_nul
  to_nul-plain [] h = refl
  to_nul-plain (c ∷ w) (p, h) = rw (p.not_nul, to_nul-plain w h)

  eat-word-stop :
      (fuel : ℕ) (w t : CString)
      → AllPlain lib w
      → length w < fuel
      → msg_eatrunes lib fuel lib.isspacerune false (w ++ (b' ' ∷ t)) ≡ b' ' ∷ t
  unfolding msg_eatrunes
  eat-word-stop zero w t h k = absurd (omega arith)
  eat-word-stop (suc fuel) [] t h k = rw (a.one b' ' t (omega arith)) (rw a.blank refl)
  eat-word-stop (suc fuel) (c ∷ w) t (p, h) k =
      rw (a.one c (w ++ (b' ' ∷ t)) p.ascii) (rw p.visible (eat-word-stop fuel w t h (omega arith)))

  eat_spaces-word :
      (fuel c : ℕ) (t : CString)
      → Plain lib c
      → msg_eatrunes lib fuel lib.isspacerune true (c ∷ t) ≡ c ∷ t
  unfolding msg_eatrunes
  eat_spaces-word zero c t p = refl
  eat_spaces-word (suc fuel) c t p = rw (a.one c t p.ascii) (rw p.visible refl)

  Plain-backslash : Plain lib b'\\'
  Plain-backslash = record { ascii = omega arith; visible = a.backslash; not_nul = refl }

  escape-Plain : (w : CString) → AllPlain lib w → AllPlain lib (escape w)
  escape-Plain [] h = tt
  escape-Plain (c ∷ w) h = elim (Bool-cases ((c == b'#') || (c == b'\\'))) [
    | inl e ↦ rw e (Plain-backslash, h)
    | inr e ↦ rw e h
  ]

  -- The word between its first byte and the blank behind it, as `msg_getword` returns it.
  filter-escape :
      (c : ℕ) (w rest : CString) → filter_comment (escape (c ∷ w)) rest ≡ (some (c ∷ w), rest)
  unfolding filter_comment
  filter-escape c w rest = ground arith

  eat_spaces-plain :
      (fuel : ℕ) (e t : CString)
      → AllPlain lib e
      → 1 ≤ length e
      → msg_eatrunes lib fuel lib.isspacerune true (e ++ t) ≡ e ++ t
  eat_spaces-plain fuel [] t h k = absurd (omega arith)
  eat_spaces-plain fuel (c ∷ e) t (p, h) k = eat_spaces-word fuel c (e ++ t) p

  eat_spaces_nil : (fuel : ℕ) → msg_eatrunes lib fuel lib.isspacerune true [] ≡ []
  unfolding msg_eatrunes
  eat_spaces_nil zero = refl
  eat_spaces_nil (suc fuel) = refl

  word_part :
      (e t : CString)
      → AllPlain lib e
      → to_nul (take (length (e ++ (b' ' ∷ t)) - length (b' ' ∷ t)) (e ++ (b' ' ∷ t))) ≡ e
  word_part e t h =
      let n : length (e ++ (b' ' ∷ t)) - length (b' ' ∷ t) ≡ length e =
        omega (arith, length-append e (b' ' ∷ t)) in
      rw (n, take-length-append e (b' ' ∷ t), to_nul-plain e h)

  past_blank : (t : CString) → past_rune lib (b' ' ∷ t) ≡ t
  past_blank t = rw (a.one b' ' t (omega arith)) refl

  word_at-plain :
      (e t : CString)
      → AllPlain lib e
      → word_at lib (e ++ (b' ' ∷ t)) (b' ' ∷ t) ≡ filter_comment e (eat_spaces lib t)
  unfolding word_at
  word_at-plain e t h = rw (word_part e t h, past_blank t)

  getword-plain :
      (e t : CString)
      → AllPlain lib e
      → 1 ≤ length e
      → msg_getword lib (e ++ (b' ' ∷ t)) ≡ filter_comment e (eat_spaces lib t)
  unfolding msg_getword
  getword-plain e t h k =
      let n = length (e ++ (b' ' ∷ t)) in
      let first = eat_spaces-plain n e (b' ' ∷ t) h k in
      let stop = eat-word-stop n e t h (omega (arith, length-append e (b' ' ∷ t))) in
      ap (λ s. word_at lib s (eat_word lib s)) first
      ∙ ap (word_at lib (e ++ (b' ' ∷ t))) stop
      ∙ word_at-plain e t h

  escape-long : (w : CString) → 1 ≤ length w → 1 ≤ length (escape w)
  escape-long [] h = h
  escape-long (c ∷ w) h = ground arith

  -- A line begins with a word.
  eat_spaces-line : (ws : List CString) → Words lib ws → eat_spaces lib (line ws) ≡ line ws
  eat_spaces-line [] h = eat_spaces_nil 0
  eat_spaces-line (w ∷ ws) (h, k, hs) =
      eat_spaces-plain (length (line (w ∷ ws))) (escape w) (b' ' ∷ line ws) (escape-Plain w h)
        (escape-long w k)

  getword-line :
      (w : CString) (ws : List CString)
      → Words lib (w ∷ ws)
      → msg_getword lib (line (w ∷ ws)) ≡ (some w, line ws)
  getword-line [] ws (h, k, hs) = absurd (omega arith)
  getword-line (c ∷ w) ws (h, k, hs) =
      getword-plain (escape (c ∷ w)) (line ws) (escape-Plain (c ∷ w) h) (escape-long (c ∷ w) k)
      ∙ ap (filter_comment (escape (c ∷ w))) (eat_spaces-line ws hs)
      ∙ filter-escape c w (line ws)

  getword_nil : msg_getword lib [] ≡ (none, [])
  unfolding msg_getword word_at filter_comment to_nul msg_eatrunes
  getword_nil =
      ap (λ s. (none, msg_eatrunes lib (length s) lib.isspacerune true s))
        (drop_nil (lib.chartorune []).1)

  -- On ASCII words that are not empty, hold no NUL and no space, the loop over `msg_getword` reads back
  -- the words of a line in which each word is followed by a blank and a word that starts with a hash or
  -- a backslash is written with a backslash before it; fuel of one more than the words is enough.
  pub getwords-line :
      (fuel : ℕ) (ws : List CString)
      → Words lib ws
      → length ws < fuel
      → getwords lib fuel (line ws) ≡ ws
  unfolding getwords
  getwords-line zero ws h k = absurd (omega arith)
  getwords-line (suc fuel) [] h k = ap (λ p. keep_word p.0 (getwords lib fuel p.1)) getword_nil
  getwords-line (suc fuel) (w ∷ ws) (h, j, hs) k =
      ap (λ p. keep_word p.0 (getwords lib fuel p.1)) (getword-line w ws (h, j, hs))
      ∙ ap (λ l. w ∷ l) (getwords-line fuel ws hs (omega arith))
