-- ===== src/Message/Mask.antt =====
-- cmd/wmii/message.c, `mask`: cuts "a+b-c" into signed tokens, in place. `tags`, `colmode` and
-- `debug` messages are read with it. The text is what stands from `*s` to the NUL; `old` is `*old`,
-- the byte that followed the last token, with 0 for the end.
pub mod Plain
pub mod Slashes
use wmii.Base.{
  ℕ, ◌≡◌, refl, zero, suc, Bool, true, false, Option, none, some, List, [], ◌∷◌, ◌++◌, ◌||◌, ◌==◌,
  if◌then◌else◌,
}
use wmii.Base.Str.{CString, contains}

-- `static char seps[] = "+-^"`
abbrev pub is_sep : ℕ → Bool
is_sep c = (c == b'+') || ((c == b'-') || (c == b'^'))

-- `*q`, with the terminating NUL
abbrev pub peek : CString → ℕ
peek [] = 0
peek (c ∷ s) = c

-- `q + 1`; past the NUL nothing is read again
abbrev pub past : CString → CString
past [] = []
past (c ∷ s) = s

-- `for(q=p; *q && !strchr(seps, *q);) q++`: the bytes passed over, and where `q` stands.
unfoldable pub until_sep : CString → CString × CString
until_sep [] = ([], [])
until_sep (c ∷ s) = let (tok, q) = until_sep s in if is_sep c then ([], c ∷ s) else (c ∷ tok, q)

-- `strchr(s, '/')`: the bytes before it, and those after it.
unfoldable pub find_slash : CString → Option (CString × CString)
find_slash [] = none
find_slash (c ∷ s) = elim (c == b'/') [
  | true ↦ some ([], s)
  | false ↦ elim (find_slash s) [ none ↦ none | some (re, q) ↦ some (c ∷ re, q) ]
]

-- What a call comes to. `token t add s old` returns `t`, with `*add`, `*s` and `*old` as left.
pub data Outcome : Type 0 where
  finished : Outcome
  token : CString → ℕ → CString → ℕ → Outcome
  null_read : Outcome
  out_of_fuel : Outcome

-- One round of the loop that `goto again` makes.
pub data Round : Type 0 where
  stop : Outcome → Round
  again : CString → ℕ → Round

-- `fail:` walks on to the next separator for `*old`, but leaves `*s` at `p`.
unfoldable pub fail : CString → CString → Round
unfolding until_sep
fail p q = let (skipped, q') = until_sep q in again p (peek q')

-- `*q++ = '\0'; *s = q; if(p + 1 == q) goto again; return p;`
unfoldable pub cut : CString → ℕ → CString → Round
cut [] add q = again (past q) (peek q)
cut (c ∷ t) add q = stop (token (c ∷ t) add (past q) (peek q))

unfoldable pub plain_round : CString → ℕ → Round
unfolding until_sep fail cut
plain_round p add =
    let (tok, q) = until_sep p in if contains tok b'/' then fail p q else cut tok add q

-- `p` is the slash and what follows it; without a closing slash `q` is nil when `fail` reads it.
unfoldable pub regex_found : CString → ℕ → Option (CString × CString) → Round
unfolding fail cut
regex_found r add none = stop null_read
regex_found r add (some (re, q)) =
    if (peek q == 0) || is_sep (peek q)
    then cut (b'/' ∷ (re ++ (b'/' ∷ []))) add q
    else fail (b'/' ∷ r) q

unfoldable pub regex_round : CString → ℕ → Round
unfolding find_slash regex_found
regex_round r add = regex_found r add (find_slash r)

unfoldable pub start_round : CString → ℕ → Round
unfolding plain_round regex_round
start_round [] add = plain_round [] add
start_round (c ∷ r) add = if c == b'/' then regex_round r add else plain_round (c ∷ r) add

unfoldable pub round : CString → ℕ → Round
unfolding start_round
round p old = if old == 0 then stop finished else start_round p old

unfoldable pub mask : ℕ → CString → ℕ → Outcome
unfolding round
mask zero p old = out_of_fuel
mask (suc fuel) p old = elim (round p old) [ stop o ↦ o | again p' old' ↦ mask fuel p' old' ]

-- What `mask` does with a round.
abbrev pub settle : ℕ → Round → Outcome
settle fuel r = elim r [ stop o ↦ o | again p' old' ↦ mask fuel p' old' ]

pub mask-settle :
    (fuel : ℕ) (p : CString) (old : ℕ) → mask (suc fuel) p old ≡ settle fuel (round p old)
unfolding mask
mask-settle fuel p old = refl

-- `while((tok = mask(&s, &add, &old)))`: all the signed tokens of a text; `none` where a call
-- does not return.
unfoldable pub drain : ℕ → ℕ → CString → ℕ → Option (List (ℕ × CString))
unfolding mask
drain zero fuel p old = none
drain (suc rounds) fuel p old = elim (mask fuel p old) [
  | finished ↦ some []
  | token t add s old' ↦ elim (drain rounds fuel s old') [
    | none ↦ none
    | some ts ↦ some ((add, t) ∷ ts)
  ]
  | null_read ↦ none
  | out_of_fuel ↦ none
]
