-- ===== src/Geom/Placing/Nearest.antt =====
-- `findthing` finds the nearest thing that stands in a direction.
use wmii.Base.{
  ℕ, suc, ◌+◌, ◌≡◌, refl, Bool, true, false, Option, none, some, List, [], ◌∷◌, ◌⊎◌, inl, inr, ◌&&◌,
  ◌||◌, arith, Bool-cases, ap, sym, ◌∙◌, get_elem?,
}
use wmii.Base.Int.{ℤ, pos, ◌≤ℤ◌, ◌-ℤ◌, ltb_ℤ, eqb_ℤ, -ℤ_parts}
use wmii.Geom.{Rectangle, rect_intersection}
use wmii.Geom.Placing.{
  Dir, across, distance, is_candidate, improves, find_from, or_wrapped, findthing,
}

module _ (d : Dir) (rt : Rectangle) where
  -- No candidate of the list is nearer than `b`.
  abbrev pub NoneNearer : ℤ → List Rectangle → Type 0
  NoneNearer b [] = Unit {0}
  NoneNearer b (r ∷ l) = (is_candidate d rt r ≡ true → b ≤ℤ distance d rt r) × NoneNearer b l

  abbrev pub NoCandidate : List Rectangle → Type 0
  NoCandidate [] = Unit {0}
  NoCandidate (r ∷ l) = (is_candidate d rt r ≡ false) × NoCandidate l

  -- The state behind a thing, seen from the state before it.
  Kept : Rectangle → Option (ℕ × Rectangle) → Type 0
  Kept r none = is_candidate d rt r ≡ false
  Kept r (some (i, b)) = is_candidate d rt r ≡ true → distance d rt b ≤ℤ distance d rt r

  Beaten : Rectangle → Option (ℕ × Rectangle) → Type 0
  Beaten r none = Unit {0}
  Beaten r (some (i, b)) = distance d rt r ≤ℤ distance d rt b

  improves-sign :
      (a b : ℤ) (c : Bool)
      → ((eqb_ℤ (a -ℤ b) (pos 0) && c) || ltb_ℤ (a -ℤ b) (pos 0) ≡ true → a ≤ℤ b)
        × ((eqb_ℤ (a -ℤ b) (pos 0) && c) || ltb_ℤ (a -ℤ b) (pos 0) ≡ false → b ≤ℤ a)
  improves-sign a b c = (λ h. ground (arith, -ℤ_parts a b), λ h. ground (arith, -ℤ_parts a b))

  and_false : (a b : Bool) → (a && b) ≡ false → a ≡ true → b ≡ false
  and_false a b h e = ground arith

  and_both : (a b : Bool) → (a && b) ≡ true → (a ≡ true) × (b ≡ true)
  and_both a b h = (ground arith, ground arith)

  taken :
      (r : Rectangle) (best : Option (ℕ × Rectangle))
      → (is_candidate d rt r && improves d rt r best) ≡ true
      → (is_candidate d rt r ≡ true) × Beaten r best
  unfolding improves Beaten
  taken r none h = ((and_both (is_candidate d rt r) true h).0, tt)
  taken r (some (i, b)) h =
      let t = and_both (is_candidate d rt r) (improves d rt r (some (i, b))) h in
      (
        t.0,
        (improves-sign (distance d rt r) (distance d rt b)
              (ltb_ℤ (across d (rect_intersection rt b)) (across d (rect_intersection rt r)))).0
            t.1,
      )

  kept :
      (r : Rectangle) (best : Option (ℕ × Rectangle))
      → (is_candidate d rt r && improves d rt r best) ≡ false
      → Kept r best
  unfolding improves Kept
  kept r none h = ground arith
  kept r (some (i, b)) h = λ e.
      (improves-sign (distance d rt r) (distance d rt b)
          (ltb_ℤ (across d (rect_intersection rt b)) (across d (rect_intersection rt r)))).1
        (and_false (is_candidate d rt r) (improves d rt r (some (i, b))) h e)

  -- Where the result came from.
  Origin : List Rectangle → ℕ → Option (ℕ × Rectangle) → ℕ → Rectangle → Type 0
  Origin l s best k q =
      (best ≡ some (k, q))
      ⊎ ((i : ℕ) × (k ≡ s + i) × (get_elem? l i ≡ some q) × (is_candidate d rt q ≡ true))

  Nearest : List Rectangle → ℕ → Option (ℕ × Rectangle) → Option (ℕ × Rectangle) → Type 0
  Nearest l s best none = (best ≡ none) × NoCandidate l
  Nearest l s best (some (k, q)) =
      Origin l s best k q × NoneNearer (distance d rt q) l × Beaten q best

  same_pair :
      (r q : Rectangle) (l : List Rectangle) (s k : ℕ) (best : Option (ℕ × Rectangle))
      → ◌≡◌ {A = Option (ℕ × Rectangle)} (some (s, r)) (some (k, q))
      → is_candidate d rt r ≡ true
      → Origin (r ∷ l) s best k q
  unfolding Origin
  same_pair r q l s k best e h =
      let f : r ≡ q = cc e in
      let g : k ≡ s = cc e in inr (0, omega (arith, g), ap some f, rw (sym f) h)

  Nearest-take :
      (r : Rectangle) (l : List Rectangle) (s : ℕ) (best o : Option (ℕ × Rectangle))
      → is_candidate d rt r ≡ true
      → Beaten r best
      → Nearest l (s + 1) (some (s, r)) o
      → Nearest (r ∷ l) s best o
  unfolding Nearest Origin Beaten
  Nearest-take r l s best none h b (e, w) = absurd (cc e)
  Nearest-take r l s none (some (k, q)) h b (inl e, m, n) =
      (same_pair r q l s k none e h, ((λ x. n), m), tt)
  Nearest-take r l s (some (j, t)) (some (k, q)) h b (inl e, m, n) =
      (same_pair r q l s k (some (j, t)) e h, ((λ x. n), m), omega (arith, n, b))
  Nearest-take r l s none (some (k, q)) h b (inr (i, e, g, c), m, n) =
      (inr (suc i, omega arith, g, c), ((λ x. n), m), tt)
  Nearest-take r l s (some (j, t)) (some (k, q)) h b (inr (i, e, g, c), m, n) =
      (inr (suc i, omega arith, g, c), ((λ x. n), m), omega (arith, n, b))

  Nearest-skip :
      (r : Rectangle) (l : List Rectangle) (s : ℕ) (best o : Option (ℕ × Rectangle))
      → Kept r best
      → Nearest l (s + 1) best o
      → Nearest (r ∷ l) s best o
  unfolding Nearest Origin Beaten Kept
  Nearest-skip r l s none none c (e, w) = (refl, (c, w))
  Nearest-skip r l s (some b) none c (e, w) = absurd (cc e)
  Nearest-skip r l s none (some (k, q)) c (inl e, m, n) = absurd (cc e)
  Nearest-skip r l s none (some (k, q)) c (inr (i, e, g, h), m, n) =
      (inr (suc i, omega arith, g, h), ((λ x. absurd (cc (x, c))), m), tt)
  Nearest-skip r l s (some (j, b)) (some (k, q)) c (inl e, m, n) =
      (inl e, ((λ x. (let t = c x in omega (arith, t, n))), m), n)
  Nearest-skip r l s (some (j, b)) (some (k, q)) c (inr (i, e, g, h), m, n) =
      (inr (suc i, omega arith, g, h), ((λ x. (let t = c x in omega (arith, t, n))), m), n)

  find_from-Nearest :
      (l : List Rectangle) (s : ℕ) (best : Option (ℕ × Rectangle))
      → Nearest l s best (find_from d rt l s best)
  unfolding find_from Nearest Origin Beaten
  find_from-Nearest [] s none = (refl, tt)
  find_from-Nearest [] s (some (k, q)) = (inl refl, tt, omega arith)
  find_from-Nearest (r ∷ l) s best =
      elim (Bool-cases (is_candidate d rt r && improves d rt r best)) [
        | inl e ↦
            (let t = taken r best e in
              rw e (
                Nearest-take r l s best (find_from d rt l (s + 1) (some (s, r))) t.0 t.1
                  (find_from-Nearest l (s + 1) (some (s, r)))))
        | inr e ↦ rw e (
            Nearest-skip r l s best (find_from d rt l (s + 1) best) (kept r best e)
              (find_from-Nearest l (s + 1) best))
      ]

  result :
      (vec : List Rectangle) (o : Option (ℕ × Rectangle))
      → find_from d rt vec 0 none ≡ o
      → Nearest vec 0 none o
      → ((findthing rt d vec false ≡ none) × NoCandidate vec)
        ⊎ ((k : ℕ) × (q : Rectangle) × ((wrap : Bool) → findthing rt d vec wrap ≡ some k)
            × (get_elem? vec k ≡ some q)
            × (is_candidate d rt q ≡ true)
            × NoneNearer (distance d rt q) vec)
  unfolding findthing or_wrapped Nearest Origin
  result vec none e w = inl (rw e refl, w.1)
  result vec (some (k, q)) e (inl f, m, n) = absurd (cc f)
  result vec (some (k, q)) e (inr (i, f, g, h), m, n) =
      let p : k ≡ i = omega (arith, f) in
      inr (k, q, (λ wrap. rw e refl), ap (get_elem? vec) p ∙ g, h, m)

  -- `findthing` returns a thing on the side `d` of the rectangle that shares a stretch with it across
  -- that direction, and no other such thing is nearer; it finds none exactly where there is no such
  -- thing, and then without `wrap` it returns nil.
  pub findthing-nearest :
      (vec : List Rectangle)
      → ((findthing rt d vec false ≡ none) × NoCandidate vec)
        ⊎ ((k : ℕ) × (q : Rectangle) × ((wrap : Bool) → findthing rt d vec wrap ≡ some k)
            × (get_elem? vec k ≡ some q)
            × (is_candidate d rt q ≡ true)
            × NoneNearer (distance d rt q) vec)
  findthing-nearest vec = result vec (find_from d rt vec 0 none) refl (find_from-Nearest vec 0 none)
