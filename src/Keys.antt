-- ===== src/Keys.antt =====
-- cmd/wmii/key.c and lib/libstuff/x11/keys/parsekey.c: key bindings, their table, and the sequences of
-- strokes that fire them.
pub mod Sequence
pub mod Table
use wmii.Base.{
  ℕ, zero, suc, ◌+◌, ◌*◌, ◌/◌, ◌%◌, ◌^◌, ◌≡◌, Bool, true, false, not, ◌&&◌, ◌||◌, Option, none,
  some, List, [], ◌∷◌, ◌++◌, ◌==◌, if◌then◌else◌, length,
}
use wmii.Base.Str.{CString, codes, streq}
use wmii.Util.Tokens.{tokenize}

-- One keystroke of a binding: `mod` and `key`.
pub record Stroke : Type 0 where
  pub mask : ℕ
  pub key : ℕ

-- A binding from one of its strokes on: `next` is the chain of `Key.next`. A pointer that has run off
-- the chain is `none`.
pub record Key : Type 0 where
  pub name : CString
  pub first : Stroke
  pub next : List Stroke

-- `static char *modkey_names[]`, the names of the bits of a mask.
abbrev pub modkey_names : List CString
modkey_names =
    codes "Shift"
    ∷ ([]
        ∷ (codes "Control"
            ∷ (codes "Mod1"
                ∷ (codes "Mod2" ∷ (codes "Mod3" ∷ (codes "Mod4" ∷ (codes "Mod5" ∷ [])))))))

-- The X server and the libraries: the key code of a name (0 for none), strcasecmp and utflcpy.
pub record Lib : Type 0 where
  pub keycode : CString → ℕ
  pub same_case : CString → CString → Bool
  pub utflcpy : ℕ → CString → CString

-- `*mask |= 1 << j`
unfoldable pub or_bit : ℕ → ℕ → ℕ
or_bit mask j = if mask / 2 ^ j % 2 == 1 then mask else mask + 2 ^ j

-- The table behind a call of `getkey`, and the key that it returns.
pub record Got : Type 0 where
  pub keys : List Key
  pub key : Option Key

-- `name2key`
unfoldable pub name2key : CString → List Key → Option Key
name2key name [] = none
name2key name (k ∷ ks) = let rest = name2key name ks in if streq k.name name then some k else rest

module _ (lib : Lib) where
  open lib use {keycode, same_case, utflcpy}

  -- The inner loop of `parsekey`: the bit of a modifier's name.
  unfoldable pub modifier : CString → ℕ → List CString → Option ℕ
  modifier tok j [] = none
  modifier tok j (m ∷ ms) =
      let rest = modifier tok (suc j) ms in if same_case m tok then some j else rest

  -- The outer loop: the mask, and the tokens from the first that is no modifier on.
  abbrev pub with_modifier : Option ℕ → (ℕ → ℕ × List CString) → ℕ → List CString → ℕ × List CString
  with_modifier none go mask toks = (mask, toks)
  with_modifier (some j) go mask toks = go (or_bit mask j)

  unfoldable pub modifiers : ℕ → List CString → ℕ × List CString
  unfolding modifier or_bit
  modifiers mask [] = (mask, [])
  modifiers mask (t ∷ ts) =
      with_modifier (modifier t 0 modkey_names) (λ m. modifiers m ts) mask (t ∷ ts)

  -- `parsekey(str, &mask, &key)`: a name and nothing behind it must be left.
  abbrev pub one_left : ℕ × List CString → Option (ℕ × CString)
  one_left (mask, []) = none
  one_left (mask, t ∷ []) = some (mask, t)
  one_left (mask, t ∷ (u ∷ ts)) = none

  unfoldable pub parsekey : CString → Option (ℕ × CString)
  unfolding modifiers tokenize
  parsekey str = one_left (modifiers 0 (tokenize 16 str b'-'))

  -- The stroke of a token; a key that is not known has code 0, and is refused.
  abbrev pub known : Option (ℕ × CString) → Option Stroke
  known none = none
  known (some (mask, name)) =
      if keycode name == 0 then none else some (record { mask = mask; key = keycode name })

  -- The loop of `getkey`: all the strokes or, once one fails, none.
  abbrev pub cons_stroke : Option Stroke → Option (List Stroke) → Option (List Stroke)
  cons_stroke none ss = none
  cons_stroke (some s) none = none
  cons_stroke (some s) (some ss) = some (s ∷ ss)

  unfoldable pub parse_seq : List CString → Option (List Stroke)
  unfolding parsekey
  parse_seq [] = some []
  parse_seq (t ∷ ts) = cons_stroke (known (parsekey t)) (parse_seq ts)

  abbrev pub add_key : CString → List Key → Option (List Stroke) → Got
  add_key name keys none = record { keys = keys; key = none }
  add_key name keys (some []) = record { keys = keys; key = none }
  add_key name keys (some (s ∷ ss)) =
      let k : Key = record { name = utflcpy 128 name; first = s; next = ss } in
      record { keys = k ∷ keys; key = some k }

  abbrev pub or_parsed : CString → List Key → Option Key → Got
  or_parsed name keys (some k) = record { keys = keys; key = some k }
  or_parsed name keys none = add_key name keys (parse_seq (tokenize 8 (utflcpy 128 name) b','))

  unfoldable pub getkey : CString → List Key → Got
  unfolding name2key parse_seq tokenize
  getkey name keys = or_parsed name keys (name2key name keys)

  -- The loops of `update_keys`, for the text from `p` on; `line` is the text from `l` to `p`.
  unfoldable pub read_keys : CString → CString → List Key → List Key
  unfolding getkey
  read_keys [] [] keys = keys
  read_keys (c ∷ line) [] keys = (getkey (c ∷ line) keys).keys
  read_keys line (c ∷ s) keys =
      let next = read_keys [] s (getkey line keys).keys in
      let more = read_keys (line ++ (c ∷ [])) s keys in if c == b'\n' then next else more

  -- `update_keys`: the table is emptied, and filled from the lines of `def.keys`.
  unfoldable pub update_keys : CString → List Key
  unfolding read_keys
  update_keys keys = read_keys [] keys []

unfoldable pub same_stroke : Stroke → Stroke → Bool
same_stroke s t = (s.mask == t.mask) && (s.key == t.key)

-- `k = k->next`
abbrev pub step_key : Key → List Stroke → Option Key
step_key k [] = none
step_key k (s ∷ ss) = some (record k { first = s; next = ss })

abbrev pub advance : Bool → Key → Option Key
advance false k = some k
advance true k = step_key k k.next

-- One round of `match_keys`: a key that matches goes to the head of what is returned.
abbrev pub push_match : Stroke → Option Key → List Key → List Key
push_match st none found = found
push_match st (some k) found = if same_stroke k.first st then k ∷ found else found

-- `match_keys(k, mod, keycode, seq)` along `tnext`; `found` is `ret`.
unfoldable pub match_keys : Bool → Stroke → List Key → List Key → List Key
unfolding same_stroke
match_keys seq st [] found = found
match_keys seq st (k ∷ ks) found = match_keys seq st ks (push_match st (advance seq k) found)

-- What a press comes to: the bell, the event of a binding, a stroke passed on to the client, or a wait
-- for strokes with the keyboard grabbed. With no binding at all `match_keys` reads through nil.
pub data Reply : Type 0 where
  bell wait null_read : Reply
  fired : CString → Reply
  passed_on : Stroke → Reply

-- What follows `match_keys`: `go` waits for the next stroke.
abbrev pub by_next : Key → Reply × List Stroke → List Stroke → List Stroke → Reply × List Stroke
by_next k waited input [] = (fired k.name, input)
by_next k waited input (s ∷ ss) = waited

abbrev pub answer :
    (Key → List Key → Reply × List Stroke) → List Stroke → List Key → Reply × List Stroke
answer go input [] = (bell, input)
answer go input (k ∷ (l ∷ ks)) = go k (l ∷ ks)
answer go input (k ∷ []) = by_next k (go k []) input k.next

-- `kpress_seq(w, done)` on the strokes that `next_keystroke` will return; what is left of them.
unfoldable pub kpress_seq : List Stroke → Key → List Key → Reply × List Stroke
unfolding match_keys same_stroke
kpress_seq [] k ks = (wait, [])
kpress_seq (st ∷ input) k ks =
    let rest = answer (kpress_seq input) input (match_keys true st (k ∷ ks) []) in
    if same_stroke k.first st then (passed_on st, input) else rest

-- `kpress(w, mod, keycode)`
unfoldable pub kpress : List Key → Stroke → List Stroke → Reply × List Stroke
unfolding kpress_seq match_keys
kpress [] st input = (null_read, input)
kpress (k ∷ ks) st input = answer (kpress_seq input) input (match_keys false st (k ∷ ks) [])
