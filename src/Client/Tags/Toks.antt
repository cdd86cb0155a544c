-- ===== src/Client/Tags/Toks.antt =====
-- What the tokens of a tags message make of `toks`.
use wmii.Base.{
  if_both, ◌≢◌, ℕ, suc, ◌+◌, ◌<◌, ◌≤◌, ◌≡◌, refl, sym, ap, ◌∙◌, subst, Bool, true, false, not, ◌&&◌,
  ◌||◌, Option, none, some, List, [], ◌∷◌, ◌++◌, ◌==◌, if◌then◌else◌, length, lt→ltb, arith,
  Bool-cases, length-append, ◌⊎◌, inl, inr,
}
use wmii.Base.Str.{CString, codes, streq, strcmp, strcmp_eq}
use wmii.Util.Tokens.{trim}
use wmii.Util.Lists.{mem}
use wmii.Client.Tags.{
  Lib, Tagging, badtags, tok_room, set_regex, cut_last_slash, drop_tok, change_toks, apply_word,
  apply_plain, apply_token, bind_tagging, apply_tokens,
}

length-drop_tok : (cur : CString) (ts : List CString) → length (drop_tok cur ts) ≤ length ts
unfolding drop_tok
length-drop_tok cur [] = omega arith
length-drop_tok cur (t ∷ ts) = ground (arith, length-drop_tok cur ts)

mem-drop_tok :
    (z cur : CString) (ts : List CString)
    → mem z (drop_tok cur ts) ≡ (mem z ts && not (streq z cur))
unfolding mem drop_tok
mem-drop_tok z cur [] = refl
mem-drop_tok z cur (t ∷ ts) =
    ground (arith, mem-drop_tok z cur ts, strcmp_eq z t, strcmp_eq z cur, strcmp_eq t cur)

mem-append : (z : CString) (xs ys : List CString) → mem z (xs ++ ys) ≡ (mem z xs || mem z ys)
unfolding mem
mem-append z [] ys = refl
mem-append z (x ∷ xs) ys = ground (arith, mem-append z xs ys)

module _ (lib : Lib) where
  -- One token adds at most one string, and none to a full array.
  change_toks-fits :
      (add : ℕ) (cur : CString) (toks : List CString)
      → (length (change_toks lib add cur toks) ≤ suc (length toks))
        × (length toks ≤ tok_room → length (change_toks lib add cur toks) ≤ tok_room)
  unfolding change_toks
  change_toks-fits add cur toks =
      ground (arith, length-drop_tok cur toks, length-append toks (cur ∷ []))

  change_toks-full :
      (add : ℕ) (cur : CString) (toks : List CString)
      → tok_room ≤ length toks
      → change_toks lib add cur toks ≡ toks
  unfolding change_toks
  change_toks-full add cur toks h = ground arith

-- A property of `toks` that every change keeps is kept by the whole loop.
module _ (lib : Lib) (P : List CString → Type 0)
    (closed : (add : ℕ) (w : CString) (l : List CString) → P l → P (change_toks lib add w l)) where
  apply_plain-keeps :
      (selview : CString) (add : ℕ) (cur : CString) (t : Tagging)
      → P t.toks
      → P (apply_plain lib selview add cur t).toks
  unfolding apply_plain apply_word
  apply_plain-keeps selview add cur t h =
      let Q : Tagging → Type 0 = λ r. P r.toks in
      let w = trim cur (codes " \t\r\n") in
      if_both Q (streq cur (codes "~")) h (
        if_both Q (streq w (codes "sel")) (closed add selview t.toks h)
          (if_both Q (lib.bsearch w badtags) h (closed add w t.toks h)))

  -- Where the loop does not write through nil.
  abbrev OnSome : Option Tagging → Type 0
  OnSome none = Unit
  OnSome (some r) = P r.toks

  set_regex-keeps :
      (add : ℕ) (t : Tagging) (o : Option CString) → P t.toks → OnSome (set_regex add t o)
  set_regex-keeps add t none h = tt
  set_regex-keeps add t (some re) h =
      let Q : Tagging → Type 0 = λ r. P r.toks in
      if_both Q (add == b'+') h (if_both Q (add == b'-') h h)

  apply_token-keeps :
      (selview : CString) (add : ℕ) (cur : CString) (t : Tagging)
      → P t.toks
      → OnSome (apply_token lib selview add cur t)
  unfolding apply_token
  apply_token-keeps selview add [] t h = apply_plain-keeps selview add [] t h
  apply_token-keeps selview add (c ∷ cur) t h =
      if_both OnSome (c == b'/') (set_regex-keeps add t (cut_last_slash cur) h)
        (apply_plain-keeps selview add (c ∷ cur) t h)

  bind-keeps :
      (o : Option Tagging) (k : Tagging → Option Tagging)
      → OnSome o
      → ((r : Tagging) → P r.toks → OnSome (k r))
      → OnSome (bind_tagging o k)
  bind-keeps none k h f = tt
  bind-keeps (some r) k h f = f r h

  apply_tokens-keeps :
      (selview : CString) (ts : List (ℕ × CString)) (t : Tagging)
      → P t.toks
      → OnSome (apply_tokens lib selview ts t)
  unfolding apply_tokens
  apply_tokens-keeps selview [] t h = h
  apply_tokens-keeps selview ((add, cur) ∷ ts) t h =
      bind-keeps (apply_token lib selview add cur t) (apply_tokens lib selview ts)
        (apply_token-keeps selview add cur t h) (λ r g. apply_tokens-keeps selview ts r g)

  OnSome-some : (o : Option Tagging) (r : Tagging) → o ≡ some r → OnSome o → P r.toks
  OnSome-some o r e h = subst OnSome e h

-- Whatever the tokens are, the loop of `client_applytags` stores no more than 31 strings in its array of
-- 32, so the nil that ends them has its place; and once 31 are stored no token changes them, a token
-- that takes a tag away included.
pub apply_tokens-fits :
    (lib : Lib) (selview : CString) (ts : List (ℕ × CString)) (t r : Tagging)
    → length t.toks ≤ 31
    → apply_tokens lib selview ts t ≡ some r
    → (length r.toks ≤ 31) × (length t.toks ≡ 31 → r.toks ≡ t.toks)
apply_tokens-fits lib selview ts t r h e =
    let o = apply_tokens lib selview ts t in
    let P : List CString → Type 0 = λ l. length l ≤ 31 in
    let Q : List CString → Type 0 = λ l. l ≡ t.toks in
    (
      OnSome-some lib P (λ add w l g. (change_toks-fits lib add w l).1 g) o r e
          (apply_tokens-keeps lib P (λ add w l g. (change_toks-fits lib add w l).1 g) selview ts t
            h),
      λ n.
          let still : (add : ℕ) (w : CString) (l : List CString)
              → Q l
              → Q (change_toks lib add w l) =
            λ add w l g. change_toks-full lib add w l (omega (arith, n, ap length g)) ∙ g in
          OnSome-some lib Q still o r e (apply_tokens-keeps lib Q still selview ts t refl),
    )

-- A token that names a tag: no pattern, not "~" nor "sel", no bad tag, and nothing to trim.
pub record Ordinary (lib : Lib) (cur : CString) : Type 0 where
  pub no_slash : (t : CString) → cur ≢ (b'/' ∷ t)
  pub not_tilde : streq cur (codes "~") ≡ false
  pub trimmed : trim cur (codes " \t\r\n") ≡ cur
  pub not_sel : streq cur (codes "sel") ≡ false
  pub not_bad : lib.bsearch cur badtags ≡ false

abbrev pub AllOrdinary : Lib → List (ℕ × CString) → Type 0
AllOrdinary lib [] = Unit
AllOrdinary lib ((add, cur) ∷ ts) =
    ((add ≡ b'+') ⊎ (add ≡ b'-')) × Ordinary lib cur × AllOrdinary lib ts

-- The last token that names the tag decides.
abbrev pub named : CString → Bool → List (ℕ × CString) → Bool
named z b [] = b
named z b ((add, cur) ∷ ts) = named z (if streq z cur then add == b'+' else b) ts

module _ (lib : Lib) where
  apply_token-Ordinary :
      (selview : CString) (add : ℕ) (cur : CString) (t : Tagging)
      → Ordinary lib cur
      → apply_token lib selview add cur t
        ≡ some (record t { toks = change_toks lib add cur t.toks })
  unfolding apply_token apply_plain apply_word strcmp
  apply_token-Ordinary selview add [] t o = rw (o.trimmed, o.not_bad) refl
  apply_token-Ordinary selview add (c ∷ cur) t o = elim (Bool-cases (c == b'/')) [
    | inl e ↦ absurd (o.no_slash cur (ground arith))
    | inr e ↦ rw (e, o.not_tilde, o.trimmed, o.not_sel, o.not_bad) refl
  ]

  change_plus :
      (cur : CString) (toks : List CString) (z : CString)
      → length toks < tok_room
      → mem z (change_toks lib b'+' cur toks) ≡ (if streq z cur then true else mem z toks)
  unfolding change_toks mem
  change_plus cur toks z k =
      rw (lt→ltb (length toks) tok_room k) (ground (arith, mem-append z toks (cur ∷ [])))

  change_minus :
      (cur : CString) (toks : List CString) (z : CString)
      → length toks < tok_room
      → mem z (change_toks lib b'-' cur toks) ≡ (if streq z cur then false else mem z toks)
  unfolding change_toks
  change_minus cur toks z k =
      rw (lt→ltb (length toks) tok_room k) (ground (arith, mem-drop_tok z cur toks))

  -- A change of an array that is not full.
  change_toks-mem :
      (add : ℕ) (cur : CString) (toks : List CString) (z : CString)
      → (add ≡ b'+') ⊎ (add ≡ b'-')
      → length toks < tok_room
      → mem z (change_toks lib add cur toks) ≡ (if streq z cur then add == b'+' else mem z toks)
  change_toks-mem add cur toks z (inl e) k =
      subst
        (λ a. mem z (change_toks lib a cur toks) ≡ (if streq z cur then a == b'+' else mem z toks))
        (sym e) (change_plus cur toks z k)
  change_toks-mem add cur toks z (inr e) k =
      subst
        (λ a. mem z (change_toks lib a cur toks) ≡ (if streq z cur then a == b'+' else mem z toks))
        (sym e) (change_minus cur toks z k)

  -- On signed tokens that name tags, as many as the array has room for, the loop of `client_applytags`
  -- ends, changes nothing but `toks`, and leaves a tag in it exactly if the last token that names the
  -- tag has a plus, or no token names it and it was there.
  pub apply_tokens-mem :
      (selview : CString) (ts : List (ℕ × CString)) (t : Tagging)
      → AllOrdinary lib ts
      → length t.toks + length ts ≤ 31
      → (toks : List CString) × (apply_tokens lib selview ts t ≡ some (record t { toks = toks }))
        × ((z : CString) → mem z toks ≡ named z (mem z t.toks) ts)
  unfolding apply_tokens
  apply_tokens-mem selview [] t h k = (t.toks, refl, λ z. refl)
  apply_tokens-mem selview ((add, cur) ∷ ts) t (sign, o, h) k =
      let next : Tagging = record t { toks = change_toks lib add cur t.toks } in
      let (toks, e, m) =
        apply_tokens-mem selview ts next h
          (omega (arith, (change_toks-fits lib add cur t.toks).0)) in
      (
        toks,
        ap (λ r. bind_tagging r (apply_tokens lib selview ts))
              (apply_token-Ordinary selview add cur t o)
            ∙ e,
        λ z. m z ∙ ap (λ b. named z b ts) (change_toks-mem add cur t.toks z sign (omega arith)),
      )
