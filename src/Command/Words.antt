-- ===== src/Command/Words.antt =====
-- cmd/wmii/message.c: `msg_eatrunes` and `msg_getword`. A message is the bytes from `m->pos` to
-- `m->end`, which the caller ends with a NUL.
pub mod Line
use wmii.Base.{
  ℕ, zero, suc, ◌-◌, ◌<◌, ◌≤◌, ◌≡◌, Bool, true, false, not, ◌&&◌, ◌||◌, Option, none, some, List,
  [], ◌∷◌, ◌==◌, if◌then◌else◌, length, take, drop,
}
use wmii.Base.Str.{CString}
use wmii.Util.Number.{at}

-- The library's rune functions: the rune at the start of a text and the bytes that it takes, and
-- whether a rune is a space.
pub record Scanner : Type 0 where
  pub chartorune : CString → ℕ × ℕ
  pub isspacerune : ℕ → Bool

-- `p(r) != val` is the test that ends the loop.
abbrev pub agrees : Bool → Bool → Bool
agrees true v = v
agrees false v = not v

-- A `char*` reads to the first NUL.
unfoldable pub to_nul : CString → CString
to_nul [] = []
to_nul (c ∷ s) = let rest = to_nul s in if c == 0 then [] else c ∷ rest

-- What `msg_getword` makes of its word: a comment ends the message, and a backslash before a
-- backslash or a hash is dropped. `none` is nil.
unfoldable pub filter_comment : CString → CString → Option CString × CString
filter_comment [] rest = (none, rest)
filter_comment (c ∷ w) rest =
    if c == b'#'
    then (none, [])
    else if (c == b'\\') && ((at w 0 == b'\\') || (at w 0 == b'#'))
    then (some w, rest)
    else (some (c ∷ w), rest)

abbrev pub keep_word : Option CString → List CString → List CString
keep_word none ws = []
keep_word (some w) ws = w ∷ ws

module _ (lib : Scanner) where
  open lib use {chartorune, isspacerune}

  -- `msg_eatrunes`, on fuel: a round takes a rune.
  unfoldable pub msg_eatrunes : ℕ → (ℕ → Bool) → Bool → CString → CString
  msg_eatrunes zero p val s = s
  msg_eatrunes (suc fuel) p val [] = []
  msg_eatrunes (suc fuel) p val (c ∷ s) =
      let (r, n) = chartorune (c ∷ s) in
      let rest = msg_eatrunes fuel p val (drop n (c ∷ s)) in
      if agrees (p r) val then rest else c ∷ s

  abbrev pub eat_spaces : CString → CString
  eat_spaces s = msg_eatrunes (length s) isspacerune true s

  abbrev pub eat_word : CString → CString
  eat_word s = msg_eatrunes (length s) isspacerune false s

  -- The rune that ends the word is overwritten with NUL and stepped over.
  abbrev pub past_rune : CString → CString
  past_rune s = drop (chartorune s).1 s

  abbrev pub word_between : CString → CString → CString
  word_between start stop = to_nul (take (length start - length stop) start)

  -- `msg_getword(m, 0)`, from where the word starts and where it stops.
  unfoldable pub word_at : CString → CString → Option CString × CString
  unfolding filter_comment msg_eatrunes to_nul
  word_at start stop = filter_comment (word_between start stop) (eat_spaces (past_rune stop))

  unfoldable pub msg_getword : CString → Option CString × CString
  unfolding word_at
  msg_getword m = word_at (eat_spaces m) (eat_word (eat_spaces m))

  -- `while((w = msg_getword(&valuebuf, 0)))`, on fuel.
  unfoldable pub getwords : ℕ → CString → List CString
  unfolding msg_getword
  getwords zero m = []
  getwords (suc fuel) m =
      let (w, rest) = msg_getword m in let ws = getwords fuel rest in keep_word w ws
