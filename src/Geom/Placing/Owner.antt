-- ===== src/Geom/Placing/Owner.antt =====
-- `ownerscreen` picks a showing screen that shares the largest area with the rectangle.
use mathlib.Core.Option
use wmii.Base.{
  ℕ, suc, ◌+◌, ◌≡◌, ◌≢◌, refl, Bool, true, false, Option, none, some, List, [], ◌∷◌, ◌⊎◌, inl, inr,
  ◌&&◌, arith, get_elem?, Bool-cases, ap, sym, ◌∙◌,
}
use wmii.Base.Int.{ℤ, ◌≤ℤ◌, ltb_ℤ}
use wmii.Geom.{Rectangle, rect_intersection}
use wmii.Geom.Placing.{Screen, NoneShows, area, beats, owner_from, ownerscreen}

module _ (r : Rectangle) where
  abbrev pub shared : Screen → ℤ
  shared scr = area (rect_intersection r scr.r)

  -- No screen of the list that shows shares more than `a`.
  abbrev pub AllBelow : ℤ → List Screen → Type 0
  AllBelow a [] = Unit {0}
  AllBelow a (scr ∷ l) = (scr.showing ≡ true → shared scr ≤ℤ a) × AllBelow a l

  -- Where the best screen came from, seen one screen earlier.
  Origin : List Screen → ℕ → Option (ℕ × ℤ) → ℕ → ℤ → Type 0
  Origin l s best k a =
      (best ≡ some (k, a))
      ⊎ ((i : ℕ) × (scr : Screen) × (k ≡ s + i)
          × (get_elem? l i ≡ some scr)
          × (scr.showing ≡ true)
          × (shared scr ≡ a))

  -- The screen that the loop returns: one of the list, or the best before it.
  record Chosen (l : List Screen) (s : ℕ) (best : Option (ℕ × ℤ)) (k : ℕ) (a : ℤ) : Type 0 where
    from : Origin l s best k a
    below : AllBelow a l
    above : (i : ℕ) (b : ℤ) → best ≡ some (i, b) → b ≤ℤ a

  Owns : List Screen → ℕ → Option (ℕ × ℤ) → Option (ℕ × ℤ) → Type 0
  Owns l s best none = (best ≡ none) × NoneShows l
  Owns l s best (some (k, a)) = Chosen l s best k a

  abbrev better : Screen → Option (ℕ × ℤ) → Bool
  better scr best = beats (shared scr) best

  some-none : (t : ℕ × ℤ) → some t ≢ none
  some-none t e = cc

  later :
      (scr : Screen) (l : List Screen) (s : ℕ) (best : Option (ℕ × ℤ)) (k : ℕ) (a : ℤ)
      → Origin l (s + 1) best k a
      → Origin (scr ∷ l) s best k a
  unfolding Origin
  later scr l s best k a (inl e) = inl e
  later scr l s best k a (inr (i, sc, e, g, sh, ar)) = inr (suc i, sc, omega arith, g, sh, ar)

  taken :
      (scr : Screen) (l : List Screen) (s : ℕ) (best : Option (ℕ × ℤ)) (k : ℕ) (a : ℤ)
      → (scr.showing && better scr best) ≡ true
      → Origin l (s + 1) (some (s, shared scr)) k a
      → Origin (scr ∷ l) s best k a
  unfolding Origin
  taken scr l s best k a h (inl e) = inr (0, scr, ground arith, refl, ground arith, ground arith)
  taken scr l s best k a h (inr (i, sc, e, g, sh, ar)) = inr (suc i, sc, omega arith, g, sh, ar)

  skipped :
      (scr : Screen) (b a : ℤ)
      → b ≤ℤ a
      → scr.showing ≡ true
      → (scr.showing && ltb_ℤ b (shared scr)) ≡ false
      → shared scr ≤ℤ a
  skipped scr b a p e h = ground arith

  over :
      (scr : Screen) (best : Option (ℕ × ℤ)) (i : ℕ) (b a : ℤ)
      → best ≡ some (i, b)
      → (scr.showing && better scr best) ≡ true
      → shared scr ≤ℤ a
      → b ≤ℤ a
  unfolding beats
  over scr none i b a e h p = absurd (cc e)
  over scr (some (j, d)) i b a e h p = ground arith

  -- A screen that is passed over.
  Owns-skip :
      (scr : Screen) (l : List Screen) (s : ℕ) (best o : Option (ℕ × ℤ))
      → (scr.showing && better scr best) ≡ false
      → Owns l (s + 1) best o
      → Owns (scr ∷ l) s best o
  unfolding Owns beats
  Owns-skip scr l s none none h w = (refl, (ground arith, w.1))
  Owns-skip scr l s (some b) none h w = absurd (cc w.0)
  Owns-skip scr l s none (some (k, a)) h w =
      let c : Chosen l (s + 1) none k a = w in
      record {
        from = later scr l s none k a c.from;
        below = (λ e. ground (arith, e, h), c.below);
        above = λ j d e. c.above j d e;
      }
  Owns-skip scr l s (some (i, b)) (some (k, a)) h w =
      let c : Chosen l (s + 1) (some (i, b)) k a = w in
      record {
        from = later scr l s (some (i, b)) k a c.from;
        below = (λ e. skipped scr b a (c.above i b refl) e h, c.below);
        above = λ j d e. c.above j d e;
      }

  -- A screen that becomes the best.
  Owns-take :
      (scr : Screen) (l : List Screen) (s : ℕ) (best o : Option (ℕ × ℤ))
      → (scr.showing && better scr best) ≡ true
      → Owns l (s + 1) (some (s, shared scr)) o
      → Owns (scr ∷ l) s best o
  unfolding Owns beats
  Owns-take scr l s best none h w = absurd (some-none (s, shared scr) w.0)
  Owns-take scr l s best (some (k, a)) h w =
      let c : Chosen l (s + 1) (some (s, shared scr)) k a = w in
      record {
        from = taken scr l s best k a h c.from;
        below = (λ e. c.above s (shared scr) refl, c.below);
        above = λ i b e. over scr best i b a e h (c.above s (shared scr) refl);
      }

  owner_from-Owns :
      (l : List Screen) (s : ℕ) (best : Option (ℕ × ℤ)) → Owns l s best (owner_from r l s best)
  unfolding owner_from Owns Origin
  owner_from-Owns [] s none = (refl, tt)
  owner_from-Owns [] s (some (k, a)) = record {
    from = inl refl;
    below = tt;
    above = λ i b e. ground arith;
  }
  owner_from-Owns (scr ∷ l) s best = elim (Bool-cases (scr.showing && better scr best)) [
    | inl e ↦ rw e (
        Owns-take scr l s best (owner_from r l (s + 1) (some (s, shared scr))) e
          (owner_from-Owns l (s + 1) (some (s, shared scr))))
    | inr e ↦
        rw e
          (Owns-skip scr l s best (owner_from r l (s + 1) best) e (owner_from-Owns l (s + 1) best))
  ]

  from_start :
      (screens : List Screen) (k : ℕ) (a : ℤ)
      → owner_from r screens 0 none ≡ some (k, a)
      → AllBelow a screens
      → Origin screens 0 none k a
      → (k : ℕ) × (scr : Screen) × (ownerscreen screens r ≡ some k)
        × (get_elem? screens k ≡ some scr)
        × (scr.showing ≡ true)
        × AllBelow (shared scr) screens
  unfolding ownerscreen Origin
  from_start screens k a e b (inl h) = absurd (some-none (k, a) (sym h))
  from_start screens k a e b (inr (i, sc, p, g, sh, q)) = (
    k,
    sc,
    ap (Option.map (λ t. t.0)) e,
    (let h : k ≡ i = omega arith in ap (get_elem? screens) h ∙ g),
    sh,
    rw q b,
  )

  result :
      (screens : List Screen) (o : Option (ℕ × ℤ))
      → owner_from r screens 0 none ≡ o
      → Owns screens 0 none o
      → ((ownerscreen screens r ≡ none) × NoneShows screens)
        ⊎ ((k : ℕ) × (scr : Screen) × (ownerscreen screens r ≡ some k)
            × (get_elem? screens k ≡ some scr)
            × (scr.showing ≡ true)
            × AllBelow (shared scr) screens)
  unfolding ownerscreen Owns
  result screens none e w = inl (ap (Option.map (λ t. t.0)) e, w.1)
  result screens (some (k, a)) e w =
      let c : Chosen screens 0 none k a = w in inr (from_start screens k a e c.below c.from)

  -- `ownerscreen` returns the index of a screen that shows, and no screen that shows shares more with
  -- the rectangle by the source's `area`; it returns -1 exactly where no screen shows.
  ownerscreen-best :
      (screens : List Screen)
      → ((ownerscreen screens r ≡ none) × NoneShows screens)
        ⊎ ((k : ℕ) × (scr : Screen) × (ownerscreen screens r ≡ some k)
            × (get_elem? screens k ≡ some scr)
            × (scr.showing ≡ true)
            × AllBelow (shared scr) screens)
  unfolding ownerscreen
  ownerscreen-best screens =
      result screens (owner_from r screens 0 none) refl (owner_from-Owns screens 0 none)
