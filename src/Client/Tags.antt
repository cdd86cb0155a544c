-- ===== src/Client/Tags.antt =====
-- cmd/wmii/client.c, `client_applytags` and `client_extratags`: the tags of a client, from the tokens
-- that `mask` cuts (Message.Mask) to the views that `client_setviews` gives it (Client.Views).
pub mod Toks
pub mod Chosen
use wmii.Base.{
  ℕ, zero, suc, ◌+◌, ◌-◌, ◌<◌, ◌≡◌, Bool, true, false, not, ◌&&◌, ◌||◌, Option, none, some, List,
  [], ◌∷◌, ◌++◌, ◌==◌, if◌then◌else◌, length, take, ltb, map,
}
use wmii.Base.Str.{CString, codes, streq, contains}
use wmii.Message.Mask.{drain}
use wmii.Util.Tokens.{trim}
use wmii.Util.Lists.{uniq, comm, grep}
use wmii.Client.Views.{Frame, Merged, Creation, client_setviews}

-- The C library's bsearch and qsort by `strcmp`, libutf's utflcpy, and regexec on a pattern.
pub record Lib : Type 0 where
  pub bsearch : CString → List CString → Bool
  pub qsort : List CString → List CString
  pub utflcpy : ℕ → CString → CString
  pub regexec : CString → CString → Bool

-- `c->floating`
pub data Floating : Type 0 where
  never off on : Floating

-- What the loop changes: `toks[0 .. j)`, and the client's two patterns and floating state.
pub record Tagging : Type 0 where
  pub toks : List CString
  pub tagre : Option CString
  pub tagvre : Option CString
  pub floating : Floating

-- `*strrchr(cur, '/') = '\0'`; `none` where there is no slash, and nil is written through.
abbrev pub or_here : ℕ → Option CString → Option CString
or_here c none = if c == b'/' then some [] else none
or_here c (some r) = some (c ∷ r)

unfoldable pub cut_last_slash : CString → Option CString
cut_last_slash [] = none
cut_last_slash (c ∷ s) = or_here c (cut_last_slash s)

-- `reinit`: an empty pattern is none.
abbrev pub reinit : CString → Option CString
reinit [] = none
reinit (c ∷ s) = some (c ∷ s)

-- A token behind a slash: it replaces the pattern of its sign, and with `^` does nothing.
abbrev pub set_regex : ℕ → Tagging → Option CString → Option Tagging
set_regex add t none = none
set_regex add t (some re) = some (
    if add == b'+'
    then record t { tagre = reinit re }
    else if add == b'-'
    then record t { tagvre = reinit re }
    else t)

-- `toks[i]` other than `cur`, kept in order.
unfoldable pub drop_tok : CString → List CString → List CString
drop_tok cur [] = []
drop_tok cur (t ∷ ts) = let rest = drop_tok cur ts in if streq t cur then rest else t ∷ rest

-- `static char *badtags[]`
abbrev pub badtags : List CString
badtags = codes "." ∷ (codes ".." ∷ (codes "sel" ∷ []))

-- `nelem(toks) - 1`
abbrev pub tok_room : ℕ
tok_room = 31

abbrev pub bind_tagging : Option Tagging → (Tagging → Option Tagging) → Option Tagging
bind_tagging none k = none
bind_tagging (some t) k = k t

-- `memchr("+-^", tags[0], 4)` finds the NUL of an empty text too.
abbrev pub keeps_old : CString → Bool
keeps_old [] = true
keeps_old (c ∷ s) = (c == b'+') || ((c == b'-') || ((c == b'^') || (c == 0)))

abbrev pub or_orphans : List CString → List CString → List CString
or_orphans [] [] = codes "orphans" ∷ []
or_orphans [] (t ∷ ts) = t ∷ ts
or_orphans (r ∷ rs) ts = ts

-- `join(toks, "+", &fmt)` with the patterns: what `c->tags` is set to.
unfoldable pub join : List CString → CString → CString
join [] sep = []
join (t ∷ []) sep = t
join (t ∷ (u ∷ ts)) sep = t ++ (sep ++ join (u ∷ ts) sep)

abbrev pub regex_text : ℕ → Option CString → CString
regex_text sign none = []
regex_text sign (some re) = sign ∷ (b'/' ∷ (re ++ (b'/' ∷ [])))

abbrev pub bind_tokens :
    Option (List (ℕ × CString)) → (List (ℕ × CString) → Option Tagging) → Option Tagging
bind_tokens none k = none
bind_tokens (some ts) k = k ts

-- `client_extratags`: the other views of the client that no pattern chose, as text; an empty string
-- stands first in `toks`. `none` is nil.
unfoldable pub other_views : ℕ → ℕ → List Frame → List CString
other_views zero sel fs = []
other_views (suc room) sel [] = []
other_views (suc room) sel (f ∷ fs) =
    let skipped = other_views (suc room) sel fs in
    let kept = other_views room sel fs in if f.id == sel then skipped else f.view ∷ kept

abbrev pub is_none : Option CString → Bool
is_none none = true
is_none (some s) = false

unfoldable pub client_extratags :
    List Frame → ℕ → List CString → Option CString → Option CString → Option CString
unfolding comm join other_views
client_extratags fs sel retags tagre tagvre =
    let others = other_views 30 sel fs in
    let tags = comm 1 ([] ∷ others) retags in
    let text = if length others == 0 then [] else join tags (b'+' ∷ []) in
    if (length others == 0) && (is_none tagre && is_none tagvre)
    then none
    else some (text ++ (regex_text b'+' tagre ++ regex_text b'-' tagvre))

-- What a client is left with.
pub record Tagged : Type 0 where
  pub tags : CString
  pub retags : List CString
  pub tagging : Tagging
  pub frames : Merged

module _ (lib : Lib) where
  open lib use {bsearch, qsort, utflcpy, regexec}

  abbrev pub toggled : ℕ → CString → List CString → ℕ
  toggled add cur toks = if add == b'^' then (if bsearch cur toks then b'-' else b'+') else add

  unfoldable pub change_toks : ℕ → CString → List CString → List CString
  unfolding drop_tok
  change_toks add cur toks =
      if ltb (length toks) tok_room
      then (if toggled add cur toks == b'+' then toks ++ (cur ∷ []) else drop_tok cur toks)
      else toks

  -- A plain token, trimmed.
  unfoldable pub apply_word : CString → ℕ → CString → Tagging → Tagging
  unfolding change_toks
  apply_word selview add cur t =
      if streq cur (codes "sel")
      then record t { toks = change_toks add selview t.toks }
      else if bsearch cur badtags
      then t
      else record t { toks = change_toks add cur t.toks }

  -- `c->floating = add ? On : Never`
  unfoldable pub apply_plain : CString → ℕ → CString → Tagging → Tagging
  unfolding apply_word trim
  apply_plain selview add cur t =
      if streq cur (codes "~")
      then record t { floating = if add == 0 then never else on }
      else apply_word selview add (trim cur (codes " \t\r\n")) t

  unfoldable pub apply_token : CString → ℕ → CString → Tagging → Option Tagging
  unfolding apply_plain cut_last_slash
  apply_token selview add [] t = some (apply_plain selview add [] t)
  apply_token selview add (c ∷ cur) t =
      if c == b'/'
      then set_regex add t (cut_last_slash cur)
      else some (apply_plain selview add (c ∷ cur) t)

  -- The loop over `mask`.
  unfoldable pub apply_tokens : CString → List (ℕ × CString) → Tagging → Option Tagging
  unfolding apply_token
  apply_tokens selview [] t = some t
  apply_tokens selview ((add, cur) ∷ ts) t =
      bind_tagging (apply_token selview add cur t) (apply_tokens selview ts)

  -- `buf`, of 512 bytes: `strlcat` cuts what it appends (Util.Strlcat).
  unfoldable pub start_text : CString → CString → CString
  start_text old tags = take 511 ((if keeps_old tags then utflcpy 256 old else []) ++ tags)

  -- The patterns are freed where the tags are not relative.
  unfoldable pub start_tagging : CString → Tagging → Tagging
  start_tagging tags t =
      if keeps_old tags
      then record t { toks = [] }
      else record t { toks = []; tagre = none; tagvre = none }

  abbrev pub matches : Option CString → CString → Bool
  matches none s = false
  matches (some re) s = regexec re s

  -- `toks` behind qsort and uniq.
  unfoldable pub sorted_toks : Tagging → List CString
  unfolding uniq
  sorted_toks t = uniq (qsort t.toks)

  -- `c->retags`: the views that the patterns choose and no tag names; CRight is 4.
  unfoldable pub retags : List CString → Tagging → List CString → List CString
  unfolding comm grep
  retags names t toks =
      comm 4 toks (grep (matches t.tagvre) true (grep (matches t.tagre) false names))

  -- `p = comm(~0, c->retags, toks)`
  unfoldable pub chosen_views : List CString → Tagging → List CString
  unfolding comm sorted_toks retags
  chosen_views names t =
      let toks = sorted_toks t in let re = retags names t toks in comm 7 re (or_orphans re toks)

  unfoldable pub tags_text : List CString → Tagging → CString
  unfolding join
  tags_text toks t = join toks (b'+' ∷ []) ++ (regex_text b'+' t.tagre ++ regex_text b'-' t.tagvre)

  abbrev pub finish : List CString → Creation → List Frame → Tagging → Tagged
  finish names creation frames t =
      let toks = sorted_toks t in
      record {
        tags = utflcpy 256 (tags_text toks t);
        retags = retags names t toks;
        tagging = t;
        frames = client_setviews creation (chosen_views names t) frames;
      }

  abbrev pub finish_all : List CString → Creation → List Frame → Option Tagging → Option Tagged
  finish_all names creation frames none = none
  finish_all names creation frames (some t) = some (finish names creation frames t)

  -- The whole of `client_applytags(c, tags)`, for `selview->name`, the names of the views, the frames of
  -- the client, its old tags and its patterns; `none` where `mask` does not return (Message.Mask).
  unfoldable pub client_applytags :
      CString → List CString → Creation → List Frame → CString → Tagging → CString → Option Tagged
  unfolding start_text start_tagging apply_tokens sorted_toks tags_text retags chosen_views drain
  client_applytags selview names creation frames old t tags =
      let text = start_text old tags in
      let n = suc (suc (length text)) in
      let tokens = drain n n text b'+' in
      finish_all names creation frames
        (bind_tokens tokens (λ ts. apply_tokens selview ts (start_tagging tags t)))
