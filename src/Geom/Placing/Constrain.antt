-- ===== src/Geom/Placing/Constrain.antt =====
-- `constrain` keeps a rectangle's size and brings it to the edge of a screen.
pub mod Axes
use wmii.Base.{
  ℕ, zero, suc, ◌≡◌, refl, Bool, true, false, Option, none, some, List, [], ◌∷◌, ◌⊎◌, inl, inr,
  ◌&&◌, arith, Bool-cases, ap, sym, ◌∙◌, get_elem?,
}
use wmii.Base.Int.{ℤ, pos, ◌-ℤ◌, ◌+ℤ◌, ◌≤ℤ◌, ltb_ℤ, leb_ℤ, int_laws, -ℤ_parts, eq_of_parts}
use wmii.Geom.{Rectangle, dx, dy, max, min, rect_intersection, insetrect, rectaddpt}
use wmii.Geom.Placing.{
  Screen, NoneShows, Search, visible, nearest, closer, nearness, better_of, in_view, nearest_from,
  move_to, settled, constrain,
}
use wmii.Geom.Placing.Constrain.Axes.{
  Ordered, Touches, meets, and_split, and_left, meets-Touches, Touches-meets, move_to-Touches,
  move_to-size,
}

module _ (r : Rectangle) (inset : ℤ) where
  -- Every screen that shows is at least twice `inset` wide and high.
  abbrev pub Wide : List Screen → Type 0
  Wide [] = Unit {0}
  Wide (s ∷ l) = Ordered (insetrect s.r inset) × Wide l

  -- A screen of the list that shows and that the rectangle `q` touches, `inset` inside its edge.
  abbrev pub OnScreen : List Screen → Rectangle → Type 0
  OnScreen l q =
      (i : ℕ) × (s : Screen) × (get_elem? l i ≡ some s)
      × (s.showing ≡ true)
      × Touches q (insetrect s.r inset)

  in_view-Touches :
      (s : Screen)
      → Ordered r
      → Ordered (insetrect s.r inset)
      → in_view r inset s ≡ true
      → (s.showing ≡ true) × Touches r (insetrect s.r inset)
  unfolding in_view
  in_view-Touches s o w h =
      let t = and_split s.showing (meets r (insetrect s.r inset)) h in
      (t.0, meets-Touches r (insetrect s.r inset) o w t.1)

  in_view-showing : (s : Screen) → in_view r inset s ≡ true → s.showing ≡ true
  unfolding in_view
  in_view-showing s h = and_left s.showing (meets r (insetrect s.r inset)) h

  Touches-in_view :
      (s : Screen)
      → Ordered r
      → Ordered (insetrect s.r inset)
      → s.showing ≡ true
      → Touches r (insetrect s.r inset)
      → in_view r inset s ≡ true
  unfolding in_view
  Touches-in_view s o w h k = rw h (Touches-meets r (insetrect s.r inset) o w k)

  -- The loop stops at a screen that the rectangle touches, if there is one.
  nearest_from-visible :
      (l : List Screen) (i : ℕ) (t : Screen) (best : Option (Screen × ℤ))
      → get_elem? l i ≡ some t
      → in_view r inset t ≡ true
      → nearest_from r inset l best ≡ visible
  unfolding nearest_from
  nearest_from-visible [] i t best e h = absurd (cc e)
  nearest_from-visible (s ∷ l) zero t best e h =
      let f : in_view r inset s ≡ true = cc (e, h) in rw f refl
  nearest_from-visible (s ∷ l) (suc i) t best e h = elim (Bool-cases (in_view r inset s)) [
    | inl f ↦ rw f refl
    | inr f ↦ rw f (
        nearest_from-visible l i t (better_of (rect_intersection r (insetrect s.r inset)) s best) e
          h)
  ]

  Listed : List Screen → Screen → Type 0
  Listed l s = (i : ℕ) × (get_elem? l i ≡ some s) × (s.showing ≡ true)

  Listed-cons : (s : Screen) (l : List Screen) (t : Screen) → Listed l t → Listed (s ∷ l) t
  unfolding Listed
  Listed-cons s l t (i, e, h) = (suc i, e, h)

  -- What the loop returns: a screen that the rectangle touches, no screen, or one to move to.
  Found : List Screen → Option (Screen × ℤ) → Search → Type 0
  Found l best visible = (s : Screen) × Listed l s × (in_view r inset s ≡ true)
  Found l best (nearest none) = (best ≡ none) × NoneShows l
  Found l best (nearest (some (s, n))) = (best ≡ some (s, n)) ⊎ Listed l s

  -- The state behind a screen: the screen, if it shows and is nearer, or the state before it.
  better_of-cases :
      (isect : Rectangle) (s : Screen) (best : Option (Screen × ℤ))
      → ((s.showing ≡ true) × (n : ℤ) × (better_of isect s best ≡ some (s, n)))
        ⊎ ((better_of isect s best ≡ best) × (best ≡ none → s.showing ≡ false))
  unfolding better_of closer
  better_of-cases isect s none = elim (Bool-cases s.showing) [
    | inl e ↦ inl (e, nearness isect, rw e refl)
    | inr e ↦ inr (rw e refl, λ f. e)
  ]
  better_of-cases isect s (some (t, m)) =
      elim (Bool-cases (s.showing && ltb_ℤ m (nearness isect))) [
        | inl e ↦ inl (and_left s.showing (ltb_ℤ m (nearness isect)) e, nearness isect, rw e refl)
        | inr e ↦ inr (rw e refl, λ f. absurd (cc f))
      ]

  same_place :
      (s : Screen) (l : List Screen) (t : Screen) (n m : ℤ)
      → s.showing ≡ true
      → ◌≡◌ {A = Option (Screen × ℤ)} (some (s, n)) (some (t, m))
      → Listed (s ∷ l) t
  unfolding Listed
  same_place s l t n m f e = let g : s ≡ t = cc e in (0, ap some g, rw (sym g) f)

  Found-cons :
      (s : Screen) (l : List Screen) (isect : Rectangle) (best : Option (Screen × ℤ)) (x : Search)
      → Found l (better_of isect s best) x
      → Found (s ∷ l) best x
  unfolding Found
  Found-cons s l isect best visible (t, h, k) = (t, Listed-cons s l t h, k)
  Found-cons s l isect best (nearest none) (e, h) = elim (better_of-cases isect s best) [
    | inl (f, n, g) ↦ absurd (cc (e, g))
    | inr (f, g) ↦ (sym f ∙ e, (g (sym f ∙ e), h))
  ]
  Found-cons s l isect best (nearest (some (t, m))) (inr h) = inr (Listed-cons s l t h)
  Found-cons s l isect best (nearest (some (t, m))) (inl e) = elim (better_of-cases isect s best) [
    | inl (f, n, g) ↦ inr (same_place s l t n m f (sym g ∙ e))
    | inr (f, g) ↦ inl (sym f ∙ e)
  ]

  nearest_from-Found :
      (l : List Screen) (best : Option (Screen × ℤ)) → Found l best (nearest_from r inset l best)
  unfolding nearest_from Found Listed
  nearest_from-Found [] none = (refl, tt)
  nearest_from-Found [] (some (s, n)) = inl refl
  nearest_from-Found (s ∷ l) best = elim (Bool-cases (in_view r inset s)) [
    | inl f ↦ rw f (s, (0, refl, in_view-showing s f), f)
    | inr f ↦ rw f (
        Found-cons s l (rect_intersection r (insetrect s.r inset)) best
          (nearest_from r inset l (better_of (rect_intersection r (insetrect s.r inset)) s best))
          (nearest_from-Found l (better_of (rect_intersection r (insetrect s.r inset)) s best)))
  ]

  Wide-at :
      (l : List Screen) (i : ℕ) (s : Screen)
      → Wide l
      → get_elem? l i ≡ some s
      → Ordered (insetrect s.r inset)
  Wide-at [] i s w e = absurd (cc e)
  Wide-at (t ∷ l) zero s w e = let f : t ≡ s = cc e in rw (sym f) w.0
  Wide-at (t ∷ l) (suc i) s w e = Wide-at l i s w.1 e

  result :
      (screens : List Screen) (x : Search)
      → Ordered r
      → Wide screens
      → nearest_from r inset screens none ≡ x
      → Found screens none x
      → ((q : Rectangle) × (constrain screens r inset ≡ some q)
          × (dx q ≡ dx r)
          × (dy q ≡ dy r)
          × OnScreen screens q)
        ⊎ ((constrain screens r inset ≡ none) × NoneShows screens)
  unfolding constrain settled Found Listed
  result screens visible o w e (s, (i, g, h), f) =
      inl (
        r,
        rw e refl,
        refl,
        refl,
        (i, s, g, h, (in_view-Touches s o (Wide-at screens i s w g) f).1),
      )
  result screens (nearest none) o w e h = inr (rw e refl, h.1)
  result screens (nearest (some (s, n))) o w e (inl f) = absurd (cc f)
  result screens (nearest (some (s, n))) o w e (inr (i, g, h)) =
      let v = insetrect s.r inset in
      let z = move_to-size r v in
      inl (
        move_to r v,
        rw e refl,
        z.0,
        z.1,
        (i, s, g, h, move_to-Touches r v o (Wide-at screens i s w g)),
      )

  -- For a rectangle whose sides are in order, and where each screen that is listed is at least
  -- twice `inset` wide and high, `constrain` returns a rectangle of the same size that touches the
  -- inset of a screen that shows; it has no screen to move the rectangle to exactly where none
  -- shows.
  pub constrain-OnScreen :
      (screens : List Screen)
      → Ordered r
      → Wide screens
      → ((q : Rectangle) × (constrain screens r inset ≡ some q)
          × (dx q ≡ dx r)
          × (dy q ≡ dy r)
          × OnScreen screens q)
        ⊎ ((constrain screens r inset ≡ none) × NoneShows screens)
  constrain-OnScreen screens o w =
      result screens (nearest_from r inset screens none) o w refl (nearest_from-Found screens none)

  -- For a rectangle whose sides are in order, and where each screen that is listed is at least
  -- twice `inset` wide and high, `constrain` leaves a rectangle that touches the inset of a screen
  -- that shows where it is.
  OnScreen-constrain :
      (screens : List Screen)
      → Ordered r
      → Wide screens
      → OnScreen screens r
      → constrain screens r inset ≡ some r
  unfolding constrain settled
  OnScreen-constrain screens o w (i, s, e, h, k) =
      rw
        (nearest_from-visible screens i s none e
          (Touches-in_view s o (Wide-at screens i s w e) h k))
        refl
