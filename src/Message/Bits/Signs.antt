-- ===== src/Message/Bits/Signs.antt =====
-- What the signed words of `setmask` do to each bit.
use mathlib.Core.Option
use wmii.Base.{
  ℕ, zero, suc, ◌≡◌, ◌≢◌, refl, Bool, false, Option, none, some, List, [], ◌∷◌, ◌==◌, ◌⊎◌, inl, inr,
  if◌then◌else◌, arith, ap, sym, ◌∙◌, get_elem?,
}
use wmii.Base.Str.{CString}
use wmii.Message.Bits.{Bits, switch, switch_at, switch_all}

keeps :
    (add : ℕ) (c : Bool) (o : Option Bool)
    → c ≡ false
    → o ≡ Option.map (λ b. if c then switch add b else b) o
keeps add c none h = refl
keeps add c (some b) h = rw h refl

at-switch_at :
    (bits : Bits) (i j add : ℕ)
    → get_elem? (switch_at bits j add) i
      ≡ Option.map (λ b. if j == i then switch add b else b) (get_elem? bits i)
unfolding switch_at
at-switch_at [] i j add = refl
at-switch_at (b ∷ bs) zero zero add = refl
at-switch_at (b ∷ bs) (suc i) zero add = keeps add (0 == suc i) (get_elem? bs i) (ground arith)
at-switch_at (b ∷ bs) zero (suc j) add = keeps add (suc j == 0) (some b) (ground arith)
at-switch_at (b ∷ bs) (suc i) (suc j) add =
    let e : (suc j == suc i) ≡ (j == i) = ground arith in rw e (at-switch_at bs i j add)

Option-cases : (o : Option ℕ) → (o ≡ none) ⊎ ((j : ℕ) × (o ≡ some j))
Option-cases none = inl refl
Option-cases (some j) = inr (j, refl)

none-some : (b : Bits) → none ≢ some b
none-some b e = cc

some_eq : (a b : Bits) → some a ≡ some b → b ≡ a
some_eq a b e = cc

map_id : (o : Option Bool) → o ≡ Option.map (λ b. b) o
map_id none = refl
map_id (some b) = refl

module _ (look : CString → Option ℕ) (i : ℕ) where
  -- The word names the bit.
  abbrev pub names : CString → Bool
  names w = elim (look w) [ none ↦ false | some j ↦ j == i ]

  -- What the words that name bit `i` do to it, one after the other.
  abbrev pub switched : List (ℕ × CString) → Bool → Bool
  switched [] b = b
  switched (t ∷ ts) b = switched ts (if names t.1 then switch t.0 b else b)

  fuse :
      (t : ℕ × CString) (ts : List (ℕ × CString)) (j : ℕ) (o : Option Bool)
      → look t.1 ≡ some j
      → Option.map (switched ts) (Option.map (λ b. if j == i then switch t.0 b else b) o)
        ≡ Option.map (switched (t ∷ ts)) o
  fuse t ts j none e = refl
  fuse t ts j (some b) e =
      ap (λ n. some (switched ts (if n then switch t.0 b else b)))
        (sym (ap (λ o. elim o as (λ x. Bool) [ none ↦ false | some k ↦ k == i ]) e))

  -- Where every word is known, `setmask`'s loop switches each bit of the mask by the signs of the words
  -- that name it, in their order, and by nothing else.
  switch_all-switched :
      (bits new : Bits) (ts : List (ℕ × CString))
      → switch_all look bits ts ≡ some new
      → get_elem? new i ≡ Option.map (switched ts) (get_elem? bits i)
  unfolding switch_all
  switch_all-switched bits new [] h =
      ap (λ x. get_elem? x i) (some_eq bits new h) ∙ map_id (get_elem? bits i)
  switch_all-switched bits new (t ∷ ts) h =
      let step : Option ℕ → Option Bits =
        λ o. elim o [ none ↦ none | some j ↦ switch_all look (switch_at bits j t.0) ts ] in
      elim (Option-cases (look t.1)) [
        | inl e ↦ absurd (none-some new (sym (ap step e) ∙ h))
        | inr (j, e) ↦
            switch_all-switched (switch_at bits j t.0) new ts (sym (ap step e) ∙ h)
            ∙ (ap (Option.map (switched ts)) (at-switch_at bits i j t.0)
                ∙ fuse t ts j (get_elem? bits i) e)
      ]
