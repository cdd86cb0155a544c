-- ===== src/Util/Tokens.antt =====
-- lib/libstuff/util/tokenize.c, stokenize.c and trim.c. A token is the string that the pointer
-- stored in `res` reads, up to the next byte that was overwritten with NUL.
pub mod Agree
use Prim.Native.Nat.{min}
use wmii.Base.{
  ℕ, zero, suc, ◌+◌, ◌<◌, ◌≤◌, ◌≡◌, refl, Bool, List, [], ◌∷◌, ◌++◌, arith, ◌==◌, Bool-cases, ◌⊎◌,
  inl, inr, if◌then◌else◌, length, ap, take, ◌∙◌, sym,
}
use wmii.Base.Str.{CString, contains}

-- The bytes before the first one that `stop` accepts, and the text from there on.
unfoldable pub run : (ℕ → Bool) → CString → CString × CString
run stop [] = ([], [])
run stop (c ∷ s) = let (tok, q) = run stop s in if stop c then ([], c ∷ s) else (c ∷ tok, q)

-- `while(*s && strchr(delim, *s)) *(s++) = '\0';`
unfoldable pub skip : (ℕ → Bool) → CString → CString
skip is_delim [] = []
skip is_delim (c ∷ s) = if is_delim c then skip is_delim s else c ∷ s

-- One round of the loop: `if(*s) res[i++] = s;`, and on to the next delimiter.
abbrev pub keep : CString → List CString → List CString
keep [] ts = ts
keep (c ∷ t) ts = (c ∷ t) ∷ ts

-- The loop on fuel; `room` is `reslen - i`. A round that stores nothing has reached the end. The
-- round that fills `res` is the last, so the delimiters after its token are never overwritten.
unfoldable pub tokens : (ℕ → Bool) → ℕ → ℕ → CString → List CString
unfolding run skip
tokens is_delim zero room s = []
tokens is_delim (suc fuel) zero s = []
tokens is_delim (suc fuel) (suc zero) s = keep (skip is_delim s) []
tokens is_delim (suc fuel) (suc (suc room)) [] = []
tokens is_delim (suc fuel) (suc (suc room)) (c ∷ s) =
    let (tok, q) = run is_delim (skip is_delim (c ∷ s)) in
    keep tok (tokens is_delim fuel (suc room) q)

-- `tokenize(res, reslen, str, delim)`: the tokens stored, whose number is returned.
unfoldable pub tokenize : ℕ → CString → ℕ → List CString
unfolding tokens
tokenize reslen s delim = tokens (λ c. c == delim) (suc (length s)) reslen s

unfoldable pub stokenize : ℕ → CString → CString → List CString
unfolding tokens contains
stokenize reslen s delim = tokens (λ c. contains delim c) (suc (length s)) reslen s

-- `trim(str, chars)`: drops every byte of `chars`, wherever it stands.
unfoldable pub trim : CString → CString → CString
unfolding contains
trim [] chars = []
trim (c ∷ s) chars = if contains chars c then trim s chars else c ∷ trim s chars

-- The specification of splitting: every maximal run of other bytes, in order.
unfoldable pub fields : (ℕ → Bool) → CString → CString → List CString
fields is_delim cur [] = keep cur []
fields is_delim cur (c ∷ s) =
    let next = fields is_delim [] s in
    let more = fields is_delim (cur ++ (c ∷ [])) s in if is_delim c then keep cur next else more
