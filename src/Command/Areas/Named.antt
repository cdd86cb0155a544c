-- ===== src/Command/Areas/Named.antt =====
-- The areas that `strarea` finds by the names that `afmt` prints, and when it reads out of bounds.
use wmii.Base.{
  ℕ, zero, suc, ◌-◌, ◌≤◌, ◌≡◌, refl, sym, ap, ◌∙◌, Bool, true, false, ◌||◌, Option, none, some,
  List, [], ◌∷◌, ◌++◌, ◌==◌, if◌then◌else◌, get_elem?, ltb, arith, ◌⊎◌, inl, inr,
}
use wmii.Base.Int.{pos}
use wmii.Base.Str.{CString, codes, streq, strcmp}
use wmii.Util.Number.{Strtol, getulong, getlong}
use wmii.Command.Areas.{
  found, bad_value, or_bad, View, cons_fst, split_colon, nth, column_at, on_screen, numbered,
  area_on, with_screen, by_colon, strarea, Place, in_floating, in_column, afmt,
}

-- Counting from one is indexing from zero.
nth_below {ℓ} :
    {A : Type ℓ} (a : A) (l : List A) (k : ℕ) → nth (a ∷ l) (suc (suc k)) ≡ nth l (suc k)
unfolding nth
nth_below a l k =
    let skip : (suc (suc k) == 1) ≡ false = ground arith in
    let down : suc (suc k) - 1 ≡ suc k = omega arith in
    ap (λ b. if b then some a else nth l (suc (suc k) - 1)) skip ∙ ap (nth l) down

nth_nil {ℓ} : {A : Type ℓ} (i : ℕ) → nth {A = A} [] i ≡ none
unfolding nth
nth_nil i = refl

nth_one {ℓ} : {A : Type ℓ} (a : A) (l : List A) → nth (a ∷ l) 1 ≡ some a
unfolding nth
nth_one a l = refl

nth-get_elem? {ℓ} : {A : Type ℓ} (l : List A) (k : ℕ) → nth l (suc k) ≡ get_elem? l k
nth-get_elem? [] k = nth_nil (suc k)
nth-get_elem? (a ∷ l) zero = nth_one a l
nth-get_elem? (a ∷ l) (suc k) = nth_below a l k ∙ nth-get_elem? l k

-- One byte that is no colon, in front of such a text.
colon_step :
    (b : Bool) (c : ℕ) (s t u : CString) (r r' : Option (CString × CString))
    → (if b then some ([], s) else cons_fst c r) ≡ none
    → (r ≡ none → r' ≡ some (s, t))
    → (if b then some ([], u) else cons_fst c r') ≡ some (c ∷ s, t)
colon_step true c s t u r r' e f = cc
colon_step false c s t u none r' e f = ap (cons_fst c) (f refl)
colon_step false c s t u (some (x, y)) r' e f = cc

-- A text without a colon, in front of one.
split_colon-append :
    (s t : CString) → split_colon s ≡ none → split_colon (s ++ (b':' ∷ t)) ≡ some (s, t)
unfolding split_colon
split_colon-append [] t e = refl
split_colon-append (c ∷ s) t e =
    colon_step (c == b':') c s t (s ++ (b':' ∷ t)) (split_colon s) (split_colon (s ++ (b':' ∷ t))) e
      (split_colon-append s t)

-- What the names rely on: the library reads the number that it prints, of which no text is a word.
pub record Prints (lib : Strtol) (print : ℕ → CString) (n : ℕ) : Type 0 where
  pub long : getlong lib (some (print n)) ≡ some (pos n)
  pub ulong : getulong lib (some (print n)) ≡ some n
  pub no_colon : split_colon (print n) ≡ none
  pub not_sel : streq (print n) (codes "sel") ≡ false
  pub not_tilde : streq (print n) (codes "~") ≡ false

-- The area stands at the place.
abbrev pub Stands {ℓ} : {A : Type ℓ} → View A → Place → A → Type ℓ
Stands v in_floating a = v.floating ≡ a
Stands {A = A} v (in_column s k) a =
    (l : List A) × (get_elem? v.areas s ≡ some l) × (1 ≤ k) × (get_elem? l (k - 1) ≡ some a)

-- The printed name holds the screen, or is read for that screen.
abbrev pub Reads : Bool → ℕ → Place → Type 0
Reads sharp scrn in_floating = Unit
Reads sharp scrn (in_column s k) = ((ltb 0 s || sharp) ≡ true) ⊎ (scrn ≡ s)

abbrev pub PrintsPlace : Strtol → (ℕ → CString) → Place → Type 0
PrintsPlace lib print in_floating = Unit
PrintsPlace lib print (in_column s k) = Prints lib print s × Prints lib print k

module _ {ℓ} {A : Type ℓ} (lib : Strtol) (print : ℕ → CString) (v : View A) where
  column_at-index :
      (l : List A) (k : ℕ) (a : A)
      → 1 ≤ k
      → get_elem? l (k - 1) ≡ some a
      → column_at l (pos k) ≡ found a
  unfolding column_at
  column_at-index l zero a h e = absurd (omega arith)
  column_at-index l (suc k) a h e =
      let down : suc k - 1 ≡ k = omega arith in
      ap or_bad (nth-get_elem? l k ∙ ap (get_elem? l) (sym down) ∙ e)

  area_on-number :
      (s k : ℕ) (l : List A) (a : A)
      → Prints lib print k
      → get_elem? v.areas s ≡ some l
      → 1 ≤ k
      → get_elem? l (k - 1) ≡ some a
      → area_on lib v s (print k) ≡ found a
  unfolding area_on
  area_on-number s k l a p e h g =
      let here : numbered v s (getlong lib (some (print k))) ≡ found a =
        ap (numbered v s) p.long ∙ ap (λ o. on_screen o (pos k)) e ∙ column_at-index l k a h g in
      ap
        (λ b.
          if b
          then (if s == v.selscreen then found v.sel else bad_value)
          else (if streq (print k) (codes "~")
              then found v.floating
              else numbered v s (getlong lib (some (print k)))))
        p.not_sel
      ∙ ap (λ b. if b then found v.floating else numbered v s (getlong lib (some (print k))))
          p.not_tilde
      ∙ here

  strarea-column :
      (sharp : Bool) (scrn s k : ℕ) (l : List A) (a : A)
      → Prints lib print s
      → Prints lib print k
      → get_elem? v.areas s ≡ some l
      → 1 ≤ k
      → get_elem? l (k - 1) ≡ some a
      → Reads sharp scrn (in_column s k)
      → (b : Bool) → (ltb 0 s || sharp) ≡ b
      → strarea lib v scrn (some (if b then print s ++ (b':' ∷ print k) else print k)) ≡ found a
  unfolding strarea
  strarea-column sharp scrn s k l a p q e h g r true t =
      let here : area_on lib v s (print k) ≡ found a = area_on-number s k l a q e h g in
      ap (by_colon lib v scrn (print s ++ (b':' ∷ print k)))
        (split_colon-append (print s) (print k) p.no_colon)
      ∙ ap
          (λ (b : Bool).
            with_screen lib v (if b then some v.selscreen else getulong lib (some (print s)))
              (print k))
          p.not_sel
      ∙ ap (λ (o : Option ℕ). with_screen lib v o (print k)) p.ulong
      ∙ here
  strarea-column sharp scrn s k l a p q e h g (inl r) false t = cc
  strarea-column sharp scrn s k l a p q e h g (inr r) false t =
      ap (by_colon lib v scrn (print k)) q.no_colon
      ∙ ap (λ (b : Bool). if b then found v.sel else area_on lib v scrn (print k)) q.not_sel
      ∙ ap (λ (n : ℕ). area_on lib v n (print k)) r
      ∙ area_on-number s k l a q e h g

-- Where the library reads the numbers that it prints, `strarea` of what `afmt` prints for an area finds
-- that area again: the floating one, or a column of which the name holds the screen or is read for it.
pub strarea-afmt {ℓ} :
    {A : Type ℓ} (lib : Strtol) (print : ℕ → CString) (v : View A) (sharp : Bool) (scrn : ℕ)
    (p : Place) (a : A)
    → PrintsPlace lib print p
    → Stands v p a
    → Reads sharp scrn p
    → strarea lib v scrn (some (afmt print sharp p)) ≡ found a
unfolding afmt strarea area_on split_colon strcmp
strarea-afmt lib print v sharp scrn in_floating a n h r = ap found h
strarea-afmt lib print v sharp scrn (in_column s k) a (p, q) (l, e, h, g) r =
    strarea-column lib print v sharp scrn s k l a p q e h g r (ltb 0 s || sharp) refl
