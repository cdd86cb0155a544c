-- ===== src/Geom/Snap/Edges.antt =====
-- What `snap_hline` and `snap_vline` find, and what `rect_morph` leaves.
use wmii.Base.{
  ◌≡◌, refl, Bool, true, false, List, [], ◌∷◌, ◌⊎◌, inl, inr, if◌then◌else◌, arith, Bool-cases, ap,
  sym, ◌∙◌, subst,
}
use wmii.Base.Int.{ℤ, ◌-ℤ◌, ◌≤ℤ◌, ltb_ℤ, leb_ℤ}
use wmii.Geom.{Point, Rectangle, Align}
use wmii.Geom.Placing.{abs}
use wmii.Geom.Snap.{
  flip_x, flip_y, moved_sides, rect_morph, closer_edge, low_edge, high_edge, beside, snap_line,
}

flip_x-ordered : (q : Rectangle) (n : Align) → (flip_x q n).0.min_x ≤ℤ (flip_x q n).0.max_x
unfolding flip_x
flip_x-ordered q n = elim (Bool-cases (ltb_ℤ q.max_x q.min_x)) [
  | inl e ↦ rw e (ground (arith, e))
  | inr e ↦ rw e (ground (arith, e))
]

flip_y-ordered :
    (q : Rectangle) (n : Align)
    → q.min_x ≤ℤ q.max_x
    → ((flip_y q n).0.min_x ≤ℤ (flip_y q n).0.max_x)
      × ((flip_y q n).0.min_y ≤ℤ (flip_y q n).0.max_y)
unfolding flip_y
flip_y-ordered q n h = elim (Bool-cases (ltb_ℤ q.max_y q.min_y)) [
  | inl e ↦ rw e (h, ground (arith, e))
  | inr e ↦ rw e (h, ground (arith, e))
]

-- `rect_morph` leaves a rectangle whose sides are in order.
rect_morph-ordered :
    (r : Rectangle) (d : Point) (m : Align)
    → ((rect_morph r d m).0.min_x ≤ℤ (rect_morph r d m).0.max_x)
      × ((rect_morph r d m).0.min_y ≤ℤ (rect_morph r d m).0.max_y)
unfolding rect_morph
rect_morph-ordered r d m =
    let q = moved_sides r d m in flip_y-ordered (flip_x q m).0 (flip_x q m).1 (flip_x-ordered q m)

module _ (h : Bool) (r : Rectangle) (x : ℤ) where
  -- No edge of a rectangle beside `r` is nearer to `x` than `d`.
  abbrev pub NoneNearer : ℤ → List Rectangle → Type 0
  NoneNearer d [] = Unit {0}
  NoneNearer d (p ∷ l) =
      (beside h p r ≡ true
        → (abs d ≤ℤ abs (low_edge h p -ℤ x)) × (abs d ≤ℤ abs (high_edge h p -ℤ x)))
      × NoneNearer d l

  -- `d` leads from `x` to an edge of a rectangle of the list beside `r`.
  abbrev pub LeadsTo : ℤ → List Rectangle → Type 0
  LeadsTo d [] = ⊥
  LeadsTo d (p ∷ l) =
      ((beside h p r ≡ true) × ((d ≡ low_edge h p -ℤ x) ⊎ (d ≡ high_edge h p -ℤ x))) ⊎ LeadsTo d l

  closer_edge-lem :
      (d t : ℤ)
      → (abs (closer_edge x d t) ≤ℤ abs d)
        × (abs (closer_edge x d t) ≤ℤ abs (t -ℤ x))
        × ((closer_edge x d t ≡ d) ⊎ (closer_edge x d t ≡ t -ℤ x))
  unfolding closer_edge
  closer_edge-lem d t = elim (Bool-cases (leb_ℤ (abs (t -ℤ x)) (abs d))) [
    | inl e ↦ rw e (ground (arith, e), ground (arith, e), inr refl)
    | inr e ↦ rw e (ground (arith, e), ground (arith, e), inl refl)
  ]

  abbrev Good : List Rectangle → ℤ → ℤ → Type 0
  Good l d s = (abs s ≤ℤ abs d) × NoneNearer s l × ((s ≡ d) ⊎ LeadsTo s l)

  Good-past :
      (p : Rectangle) (l : List Rectangle) (d s : ℤ)
      → beside h p r ≡ false
      → Good l d s
      → Good (p ∷ l) d s
  Good-past p l d s e (a, b, inl c) = (a, ((λ f. absurd (cc (e, f))), b), inl c)
  Good-past p l d s e (a, b, inr c) = (a, ((λ f. absurd (cc (e, f))), b), inr (inr c))

  Good-beside :
      (p : Rectangle) (l : List Rectangle) (d s : ℤ)
      → beside h p r ≡ true
      → Good l (closer_edge x (closer_edge x d (low_edge h p)) (high_edge h p)) s
      → Good (p ∷ l) d s
  Good-beside p l d s e (a, b, c) =
      let d1 = closer_edge x d (low_edge h p) in
      let (u, v, w) = closer_edge-lem d (low_edge h p) in
      let (u2, v2, w2) = closer_edge-lem d1 (high_edge h p) in
      (
        omega (arith, a, u, u2),
        ((λ f. (omega (arith, a, u2, v), omega (arith, a, v2))), b),
        source c w w2,
      )
    where
      source :
          (s ≡ closer_edge x (closer_edge x d (low_edge h p)) (high_edge h p)) ⊎ LeadsTo s l
          → (closer_edge x d (low_edge h p) ≡ d)
            ⊎ (closer_edge x d (low_edge h p) ≡ low_edge h p -ℤ x)
          → (closer_edge x (closer_edge x d (low_edge h p)) (high_edge h p)
              ≡ closer_edge x d (low_edge h p))
            ⊎ (closer_edge x (closer_edge x d (low_edge h p)) (high_edge h p) ≡ high_edge h p -ℤ x)
          → (s ≡ d) ⊎ LeadsTo s (p ∷ l)
      source (inr c) w w2 = inr (inr c)
      source (inl c) w (inr f) = inr (inl (e, inr (c ∙ f)))
      source (inl c) (inl g) (inl f) = inl (c ∙ (f ∙ g))
      source (inl c) (inr g) (inl f) = inr (inl (e, inl (c ∙ (f ∙ g))))

  -- Of the edges of the rectangles that stand beside `r`, `snap_line` returns the way to one that is
  -- nearest to the line at `x`, or the distance that it was given if none is as near.
  snap_line-nearest :
      (l : List Rectangle) (d : ℤ)
      → (abs (snap_line h l d r x) ≤ℤ abs d)
        × NoneNearer (snap_line h l d r x) l
        × ((snap_line h l d r x ≡ d) ⊎ LeadsTo (snap_line h l d r x) l)
  unfolding snap_line
  snap_line-nearest [] d = (ground arith, tt, inl refl)
  snap_line-nearest (p ∷ l) d =
      let d2 = closer_edge x (closer_edge x d (low_edge h p)) (high_edge h p) in
      elim (Bool-cases (beside h p r)) [
        | inl e ↦
            subst (λ s. Good (p ∷ l) d s)
              (sym (ap (λ b. snap_line h l (if b then d2 else d) r x) e))
              (Good-beside p l d (snap_line h l d2 r x) e (snap_line-nearest l d2))
        | inr e ↦
            subst (λ s. Good (p ∷ l) d s)
              (sym (ap (λ b. snap_line h l (if b then d2 else d) r x) e))
              (Good-past p l d (snap_line h l d r x) e (snap_line-nearest l d))
      ]
