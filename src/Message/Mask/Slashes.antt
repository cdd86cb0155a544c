-- ===== src/Message/Mask/Slashes.antt =====
-- Text with a slash: a pattern between slashes is one token, and where a slash stands anywhere else
-- `mask` reads through nil or never returns.
use wmii.Base.{
  ℕ, zero, suc, ◌≡◌, ◌≢◌, refl, true, false, ◌||◌, none, some, [], ◌∷◌, ◌++◌, arith, ◌==◌, ap,
}
use wmii.Base.Str.{CString, contains}
use wmii.Message.Mask.{
  is_sep, peek, past, until_sep, find_slash, fail, cut, plain_round, regex_found, regex_round,
  start_round, token, finished, null_read, out_of_fuel, stop, again, round, mask, mask-settle,
}

-- No byte of the text is a separator.
abbrev pub NoSep : CString → Type 0
NoSep [] = Unit {0}
NoSep (c ∷ s) = (is_sep c ≡ false) × NoSep s

until_sep-append :
    (t : CString) (c : ℕ) (s : CString)
    → NoSep t
    → is_sep c ≡ true
    → until_sep (t ++ (c ∷ s)) ≡ (t, c ∷ s)
unfolding until_sep
until_sep-append [] c s h e = rw e
until_sep-append (a ∷ t) c s h e = rw (h.0, until_sep-append t c s h.1 e)

find_slash-append :
    (re : CString) (s : CString)
    → contains re b'/' ≡ false
    → find_slash (re ++ (b'/' ∷ s)) ≡ some (re, s)
unfolding find_slash contains
find_slash-append [] s h = refl
find_slash-append (a ∷ re) s h = ground (arith, find_slash-append re s)

find_slash-none : (r : CString) → contains r b'/' ≡ false → find_slash r ≡ none
unfolding find_slash contains
find_slash-none [] h = refl
find_slash-none (a ∷ r) h = ground (arith, find_slash-none r)

-- A round that leaves `*s` where it was, and a byte other than NUL in `*old`, is made for ever.
stuck :
    (p : CString) (c : ℕ)
    → (c == 0) ≡ false
    → ((old : ℕ) → (old == 0) ≡ false → round p old ≡ again p c)
    → (fuel old : ℕ) → (old == 0) ≡ false
    → mask fuel p old ≡ out_of_fuel
unfolding mask
stuck p c e r zero old h = refl
stuck p c e r (suc fuel) old h = rw (mask-settle, r old h) (stuck p c e r fuel c e)

sep-peek :
    (c : ℕ) (s : CString) → is_sep c ≡ true → (peek (until_sep (c ∷ s)).1 ≡ c) × ((c == 0) ≡ false)
unfolding until_sep
sep-peek c s e = (rw e, ground arith)

plain-stuck :
    (a : ℕ) (t : CString) (c : ℕ) (s : CString) (old : ℕ)
    → NoSep (a ∷ t)
    → (a == b'/') ≡ false
    → contains t b'/' ≡ true
    → is_sep c ≡ true
    → (old == 0) ≡ false
    → round ((a ∷ t) ++ (c ∷ s)) old ≡ again ((a ∷ t) ++ (c ∷ s)) c
unfolding round start_round plain_round contains
plain-stuck a t c s old n f k e h =
    rw (h, f, until_sep-append (a ∷ t) c s n e, f, k)
      (ap (again ((a ∷ t) ++ (c ∷ s))) (sep-peek c s e).0)

regex_round_lem :
    (r : CString) (old : ℕ) → (old == 0) ≡ false → round (b'/' ∷ r) old ≡ regex_round r old
unfolding round start_round
regex_round_lem r old h = rw h

-- The token of a pattern, with both its slashes.
abbrev slashed : CString → CString
slashed re = b'/' ∷ (re ++ (b'/' ∷ []))

regex-cut :
    (re q : CString) (old : ℕ)
    → contains re b'/' ≡ false
    → ((peek q == 0) || is_sep (peek q)) ≡ true
    → regex_round (re ++ (b'/' ∷ q)) old ≡ stop (token (slashed re) old (past q) (peek q))
unfolding regex_round regex_found cut
regex-cut re q old k e = rw (find_slash-append re q k) (rw (e, regex_found))

regex-null : (r : CString) (old : ℕ) → contains r b'/' ≡ false → regex_round r old ≡ stop null_read
unfolding regex_round regex_found
regex-null r old k = rw (find_slash-none r k)

junk-stuck :
    (re : CString) (a : ℕ) (t : CString) (c : ℕ) (s : CString) (old : ℕ)
    → contains re b'/' ≡ false
    → NoSep (a ∷ t)
    → (a == 0) ≡ false
    → is_sep c ≡ true
    → (old == 0) ≡ false
    → let p : CString = b'/' ∷ (re ++ (b'/' ∷ ((a ∷ t) ++ (c ∷ s)))) in round p old ≡ again p c
unfolding regex_round regex_found fail
junk-stuck re a t c s old k n z e h =
    rw (regex_round_lem, h)
      (rw (find_slash-append re ((a ∷ t) ++ (c ∷ s)) k)
        (rw (z, n.0) (rw (until_sep-append t c s n.1 e))))

until_sep-all : (t : CString) → NoSep t → until_sep t ≡ (t, [])
unfolding until_sep
until_sep-all [] h = refl
until_sep-all (a ∷ t) h = rw (h.0, until_sep-all t h.1)

junk-end :
    (re : CString) (a : ℕ) (t : CString) (old : ℕ)
    → contains re b'/' ≡ false
    → NoSep (a ∷ t)
    → (a == 0) ≡ false
    → (old == 0) ≡ false
    → let p : CString = b'/' ∷ (re ++ (b'/' ∷ (a ∷ t))) in round p old ≡ again p 0
unfolding regex_round regex_found fail
junk-end re a t old k n z h =
    rw (regex_round_lem, h)
      (rw (find_slash-append re (a ∷ t) k) (rw (z, n.0) (rw (until_sep-all t n.1))))

-- A token that holds a slash, does not begin with one and is followed by another token hangs the
-- parser: `fail` goes back to the same text, so no fuel is enough, whatever sign came before.
pub mask_hangs :
    (fuel : ℕ) (a : ℕ) (t : CString) (c : ℕ) (s : CString) (old : ℕ)
    → NoSep (a ∷ t)
    → a ≢ b'/'
    → contains t b'/' ≡ true
    → is_sep c ≡ true
    → old ≢ 0
    → mask fuel ((a ∷ t) ++ (c ∷ s)) old ≡ out_of_fuel
mask_hangs fuel a t c s old n f k e h =
    stuck ((a ∷ t) ++ (c ∷ s)) c (sep-peek c s e).1
      (λ o z. plain-stuck a t c s o n (ground arith) k e z) fuel old (ground arith)

-- A token that begins with a slash, with no other slash in its regex and after a sign that is not
-- NUL: closed before a separator or before the end it is cut with both slashes; unclosed, with the
-- regex up to the end of the text, it is a read through nil; with other bytes than separators and NUL
-- behind the closing slash, up to the end, `mask` returns nil and the token is dropped, and up to a
-- separator the call never returns.
pub mask_regex :
    (fuel : ℕ) (re : CString) (a : ℕ) (t : CString) (c : ℕ) (s : CString) (old : ℕ)
    → contains re b'/' ≡ false
    → NoSep (a ∷ t)
    → a ≢ 0
    → is_sep c ≡ true
    → old ≢ 0
    → (mask (suc fuel) (b'/' ∷ (re ++ (b'/' ∷ (c ∷ s)))) old ≡ token (slashed re) old s c)
      × (mask (suc fuel) (slashed re) old ≡ token (slashed re) old [] 0)
      × (mask (suc fuel) (b'/' ∷ re) old ≡ null_read)
      × (mask (suc (suc fuel)) (b'/' ∷ (re ++ (b'/' ∷ (a ∷ t)))) old ≡ finished)
      × (mask (suc fuel) (b'/' ∷ (re ++ (b'/' ∷ ((a ∷ t) ++ (c ∷ s))))) old ≡ out_of_fuel)
unfolding mask
mask_regex fuel re a t c s old k n z e h =
    let h' : (old == 0) ≡ false = ground arith in
    (
      rw (
        mask-settle,
        regex_round_lem (re ++ (b'/' ∷ (c ∷ s))) old h',
        regex-cut re (c ∷ s) old k (ground arith),
      ),
      rw (mask-settle, regex_round_lem (re ++ (b'/' ∷ [])) old h', regex-cut re [] old k refl),
      rw (mask-settle, regex_round_lem re old h', regex-null re old k),
      rw (mask-settle, junk-end re a t old k n (ground arith) h') refl,
      stuck (b'/' ∷ (re ++ (b'/' ∷ ((a ∷ t) ++ (c ∷ s))))) c (sep-peek c s e).1
          (λ o y. junk-stuck re a t c s o k n (ground arith) e y) (suc fuel) old h',
    )
