-- ===== src/Rules.antt =====
-- cmd/wmii/rule.c: the rules that are read from a control file, each a regular expression between
-- slashes and the words behind it.
pub mod Regexp
pub mod Loop
use wmii.Base.{
  ℕ, zero, suc, ◌+◌, ◌≡◌, Bool, true, false, not, ◌&&◌, ◌||◌, Option, none, some, List, [], ◌∷◌,
  ◌++◌, ◌==◌, if◌then◌else◌, length, take, get_elem?, map,
}
use wmii.Base.Str.{CString, contains}
use wmii.Util.Number.{at}
use wmii.Util.Tokens.{tokenize}
use wmii.Command.Words.{Scanner, eat_spaces, getwords, msg_eatrunes, msg_getword}

-- `Ruleval`: the two pointers, nil where `tokenize` stores none.
pub record Ruleval : Type 0 where
  pub key : Option CString
  pub value : Option CString

pub record Rule : Type 0 where
  pub regex : CString
  pub value : Option CString
  pub values : List Ruleval

-- The bytes that go to a buffer, and the text behind.
abbrev pub cons_read : ℕ → Option (CString × CString) → Option (CString × CString)
cons_read c none = none
cons_read c (some (w, s)) = some (c ∷ w, s)

-- `buf.pos[1] == '/' || buf.pos[1] == '\\' && buf.pos[2] == '/'`, where `buf.pos` already stands behind
-- the backslash. For a backslash that ends the text this reads behind its NUL, to no effect.
abbrev pub drops_backslash : CString → Bool
drops_backslash s = (at s 1 == b'/') || ((at s 1 == b'\\') && (at s 2 == b'/'))

-- `putc(&rebuf, ...)` with room for so many bytes more: without room nothing is written and, since putc is
-- a macro, no byte is taken by a getc in it. `here` goes on at the next byte, and `behind` after it.
abbrev pub put_plain : ℕ → ℕ → (ℕ → Option (CString × CString)) → Option (CString × CString)
put_plain zero c here = here 0
put_plain (suc room) c here = cons_read c (here room)

abbrev pub put_dropped :
    ℕ
    → ℕ
    → (ℕ → Option (CString × CString))
    → (ℕ → Option (CString × CString))
    → Option (CString × CString)
put_dropped zero d here behind = here 0
put_dropped (suc room) d here behind = cons_read d (behind room)

abbrev pub put_both :
    ℕ
    → ℕ
    → ℕ
    → (ℕ → Option (CString × CString))
    → (ℕ → Option (CString × CString))
    → Option (CString × CString)
put_both zero c d here behind = here 0
put_both (suc zero) c d here behind = cons_read c (here 0)
put_both (suc (suc room)) c d here behind = cons_read c (cons_read d (behind room))

-- `regexp:` up to the closing slash, with room for so many bytes; `none` where there is none, and nothing
-- more is read.
unfoldable pub read_regexp : ℕ → CString → Option (CString × CString)
read_regexp room [] = none
read_regexp room (c ∷ []) = if c == b'/' then some ([], []) else none
read_regexp room (c ∷ (d ∷ s)) =
    let here = (λ (r : ℕ). read_regexp r (d ∷ s)) in
    let behind = (λ (r : ℕ). read_regexp r s) in
    if c == b'/'
    then some ([], d ∷ s)
    else if not (c == b'\\')
    then put_plain room c here
    else if drops_backslash (d ∷ s)
    then put_dropped room d here behind
    else put_both room c d here behind

-- The rest of a line that is junk; `none` where no line follows.
unfoldable pub junk : CString → Option CString
junk [] = none
junk (c ∷ s) = let rest = junk s in if c == b'\n' then some s else rest

-- A word with an `=` is a key and a value.
unfoldable pub pair_of : CString → Ruleval
unfolding tokenize
pair_of w =
    let toks = tokenize 2 w b'=' in record { key = get_elem? toks 0; value = get_elem? toks 1 }

unfoldable pub pairs : List CString → List Ruleval
unfolding pair_of contains
pairs [] = []
pairs (w ∷ ws) = let rest = pairs ws in if contains w b'=' then pair_of w ∷ rest else rest

-- `r->value` is the last word.
unfoldable pub last_word : List CString → Option CString
last_word [] = none
last_word (w ∷ []) = some w
last_word (w ∷ (x ∷ ws)) = last_word (x ∷ ws)

-- The library: its rune functions, and whether `regcomp` takes a text. `stale` is what stands in memory
-- behind the buffer's 255 bytes, up to a NUL.
pub record Lib : Type 0 where
  pub scanner : Scanner
  pub regcomp : CString → Bool
  pub stale : CString

-- A value that is read, with a rule to make of it, and the rules behind; `none` where a loop has used up
-- its fuel.
abbrev pub cons_rule :
    (CString → List Rule → List Rule) → CString → Option (List Rule) → Option (List Rule)
cons_rule add value none = none
cons_rule add value (some rules) = some (add value rules)

abbrev pub with_value :
    (CString → List Rule → List Rule)
    → (CString → Option (List Rule))
    → Option (CString × CString)
    → Option (List Rule)
with_value add go none = none
with_value add go (some (value, rest)) = cons_rule add value (go rest)

module _ (lib : Lib) where
  open lib use {scanner, regcomp, stale}

  -- What follows a newline in a value: a blank goes to the buffer, spaces are passed, and a slash starts
  -- the next rule. `getc` at the end returns a NUL, which goes to the buffer too.
  abbrev pub next_line :
      (CString → Option (CString × CString)) → CString → Option (CString × CString)
  next_line go [] = some (b' ' ∷ (0 ∷ []), [])
  next_line go (c ∷ s) =
      if c == b'/' then some (b' ' ∷ [], c ∷ s) else cons_read b' ' (cons_read c (go s))

  -- `value:`, on fuel; a round takes a byte. `none` is out of fuel.
  unfoldable pub read_value : ℕ → CString → Option (CString × CString)
  unfolding msg_eatrunes
  read_value zero s = none
  read_value (suc fuel) [] = some ([], [])
  read_value (suc fuel) (c ∷ s) =
      let more = cons_read c (read_value fuel s) in
      let next = next_line (read_value fuel) (eat_spaces scanner s) in
      if c == b'\n' then next else more

  -- The words of a value, cut to the buffer.
  unfoldable pub rule_of : CString → CString → Rule
  unfolding getwords pairs last_word
  rule_of re value =
      let text = take 8091 value in
      let ws = getwords scanner (suc (length text)) text in
      record { regex = re; value = last_word ws; values = pairs ws }

  abbrev pub add_rule : CString → CString → List Rule → List Rule
  add_rule re value rules = if regcomp re then rule_of re value ∷ rules else rules

  -- Behind `putc(&rebuf, '\0')`: a full buffer gets no NUL, and the text goes on behind it.
  abbrev pub regex_text : CString → CString
  regex_text re = if length re == 255 then re ++ stale else re

  abbrev pub after_regexp :
      (CString → Option (List Rule)) → Option (CString × CString) → Option (List Rule)
  after_regexp go none = some []
  after_regexp go (some (re, s)) =
      with_value (add_rule (regex_text re)) go (read_value (suc (length s)) s)

  abbrev pub after_junk : (CString → Option (List Rule)) → Option CString → Option (List Rule)
  after_junk go none = some []
  after_junk go (some s) = go s

  abbrev pub at_begin : (CString → Option (List Rule)) → CString → Option (List Rule)
  at_begin go [] = some []
  at_begin go (c ∷ s) =
      if c == b'/' then after_regexp go (read_regexp 255 s) else after_junk go (junk s)

  -- From `begin:` on, on fuel; each round takes a byte at least. `none` is out of fuel.
  unfoldable pub read_rules : ℕ → CString → Option (List Rule)
  unfolding msg_eatrunes read_regexp junk read_value rule_of
  read_rules zero s = none
  read_rules (suc fuel) s = at_begin (read_rules fuel) (eat_spaces scanner s)

  -- `update_rules(rule, data)`: the old rules are freed.
  unfoldable pub update_rules : CString → Option (List Rule)
  unfolding read_rules
  update_rules text = read_rules (suc (length text)) text
