-- ===== src/Layout/Stack/Find.antt =====
-- `stack_find` stops at the first frame that can be focused.
use wmii.Base.{
  ◌≡◌, refl, Bool, true, false, Option, none, some, List, [], ◌∷◌, ◌++◌, inl, inr, ap, sym,
  Bool-cases, subst,
}
use wmii.Layout.Stack.{Frame, can_focus, first_of, last_from, stack_find, stack_find_nil}

module _ (stack : Bool) where
  -- No frame of the list can be focused.
  abbrev pub NoneCan : List Frame → Type 0
  NoneCan [] = Unit {0}
  NoneCan (f ∷ l) = (can_focus stack f ≡ false) × NoneCan l

  -- The first frame of the list that can be focused, or that there is none.
  abbrev pub FirstOf : List Frame → Option Frame → Type 0
  FirstOf l none = NoneCan l
  FirstOf l (some f) =
      (before : List Frame) × (after : List Frame) × (l ≡ before ++ (f ∷ after))
      × NoneCan before
      × (can_focus stack f ≡ true)

  FirstOf-cons :
      (g : Frame) (l : List Frame) (o : Option Frame)
      → can_focus stack g ≡ false
      → FirstOf l o
      → FirstOf (g ∷ l) o
  FirstOf-cons g l none e h = (e, h)
  FirstOf-cons g l (some f) e (b, a, p, n, c) = (g ∷ b, a, ap (◌∷◌ g) p, (e, n), c)

  first_of-FirstOf : (l : List Frame) → FirstOf l (first_of stack l)
  unfolding first_of
  first_of-FirstOf [] = tt
  first_of-FirstOf (f ∷ l) = elim (Bool-cases (can_focus stack f)) [
    | inl e ↦ rw e ([], l, refl, tt, e)
    | inr e ↦ rw e (FirstOf-cons f l (first_of stack l) e (first_of-FirstOf l))
  ]

  abbrev pub rev : List Frame → List Frame → List Frame
  rev [] acc = acc
  rev (f ∷ l) acc = rev l (f ∷ acc)

  last_from-rev :
      (l acc : List Frame) → last_from stack (first_of stack acc) l ≡ first_of stack (rev l acc)
  unfolding last_from first_of
  last_from-rev [] acc = refl
  last_from-rev (f ∷ l) acc = last_from-rev l (f ∷ acc)

  -- From a frame, `stack_find` returns the nearest frame on that side that can be focused. With no
  -- frame, it returns the first one of the column for `South` and the last one for `North`: what it
  -- passes over, to there, cannot be focused.
  pub stack_find-FirstOf :
      (above below frames : List Frame)
      → FirstOf above (stack_find stack true above below)
        × FirstOf below (stack_find stack false above below)
        × FirstOf (rev frames []) (stack_find_nil stack true frames)
        × FirstOf frames (stack_find_nil stack false frames)
  unfolding stack_find stack_find_nil first_of
  stack_find-FirstOf above below frames = (
    first_of-FirstOf above,
    first_of-FirstOf below,
    subst (λ o. FirstOf (rev frames []) o) (sym (last_from-rev frames []))
        (first_of-FirstOf (rev frames [])),
    first_of-FirstOf frames,
  )
