-- ===== src/Client/Views/Kept.antt =====
-- `client_setviews` of sorted frames and sorted tags keeps each frame whose view is a tag.
use Prim.Native.Nat.{Ordering}
use wmii.Base.{◌≡◌, ◌≢◌, refl, sym, ap, ◌∙◌, subst, List, [], ◌∷◌, map, ◌⊎◌, inl, inr}
use wmii.Base.Str.{
  CString, strcmp, strcmp_eq, strcmp_flip, strcmp_flip_gt, strcmp_trans, Ordering-cases,
}
use wmii.Util.Lists.{Above, Ascending}
use wmii.Client.Views.{
  Frame, by_cmp, pass_below, Merged, Creation, at_frame, at_place, client_setviews,
}
use wmii.Client.Views.Merge.{Reached, pass_below-Reached}

abbrev pick : Ordering → Frame → Frame → Frame
pick Ordering.eq f g = f
pick Ordering.lt f g = g
pick Ordering.gt f g = g

-- The frame that a client has on a view, or a new one.
abbrev pub frame_for : (CString → Frame) → List Frame → CString → Frame
frame_for create [] tag = create tag
frame_for create (f ∷ fs) tag = pick (strcmp f.view tag) f (frame_for create fs tag)

abbrev pub views : List Frame → List CString
views fs = map (λ f. f.view) fs

-- The tag or one after it.
abbrev NotBelow : CString → CString → Type 0
NotBelow tag t = (strcmp tag t ≡ Ordering.lt) ⊎ (tag ≡ t)

lt_or : (x tag t : CString) → strcmp x tag ≡ Ordering.lt → NotBelow tag t → strcmp x t ≡ Ordering.lt
lt_or x tag t h (inl k) = strcmp_trans x tag t h k
lt_or x tag t h (inr e) = subst (λ u. strcmp x u ≡ Ordering.lt) e h

module _ (create : CString → Frame) where
  frame_for-other :
      (f : Frame) (fs : List Frame) (t : CString)
      → strcmp f.view t ≢ Ordering.eq
      → frame_for create (f ∷ fs) t ≡ frame_for create fs t
  frame_for-other f fs t h = elim (Ordering-cases (strcmp f.view t)) [
    | inl e ↦ ap (λ o. pick o f (frame_for create fs t)) e
    | inr (inl e) ↦ absurd (h e)
    | inr (inr e) ↦ ap (λ o. pick o f (frame_for create fs t)) e
  ]

  frame_for-this :
      (f : Frame) (fs : List Frame) (t : CString)
      → strcmp f.view t ≡ Ordering.eq
      → frame_for create (f ∷ fs) t ≡ f
  frame_for-this f fs t e = ap (λ o. pick o f (frame_for create fs t)) e

  frame_for-pass :
      (tag t : CString) (fs : List Frame)
      → NotBelow tag t
      → frame_for create (pass_below tag fs).rest t ≡ frame_for create fs t
  unfolding pass_below
  frame_for-pass tag t [] h = refl
  frame_for-pass tag t (f ∷ fs) h =
      let P : Ordering → Type 0 = λ o.
        frame_for create (by_cmp o f fs (pass_below tag fs)).rest t ≡ frame_for create (f ∷ fs) t in
      elim (Ordering-cases (strcmp f.view tag)) [
        | inl e ↦ subst P (sym e) (
            frame_for-pass tag t fs h
            ∙ sym (frame_for-other f fs t (λ k. cc (lt_or f.view tag t e h))))
        | inr (inl e) ↦ subst P (sym e) refl
        | inr (inr e) ↦ subst P (sym e) refl
      ]

  -- Every view of the frames is above the tag.
  frame_for-Above :
      (t : CString) (fs : List Frame) → Above t (views fs) → frame_for create fs t ≡ create t
  frame_for-Above t [] h = refl
  frame_for-Above t (f ∷ fs) (h, hs) =
      frame_for-other f fs t (λ k. cc (strcmp_flip t f.view h)) ∙ frame_for-Above t fs hs

Above-weaken : (x y : CString) (l : List CString) → strcmp x y ≡ Ordering.lt → Above y l → Above x l
Above-weaken x y [] h k = tt
Above-weaken x y (z ∷ l) h (k, ks) = (strcmp_trans x y z h k, Above-weaken x y l h ks)

pass_below-Ascending :
    (tag : CString) (fs : List Frame)
    → Ascending (views fs)
    → Ascending (views (pass_below tag fs).rest)
unfolding pass_below
pass_below-Ascending tag [] h = tt
pass_below-Ascending tag (f ∷ fs) h =
    let P : Ordering → Type 0 = λ o. Ascending (views (by_cmp o f fs (pass_below tag fs)).rest) in
    elim (Ordering-cases (strcmp f.view tag)) [
      | inl e ↦ subst P (sym e) (pass_below-Ascending tag fs h.1)
      | inr (inl e) ↦ subst P (sym e) h
      | inr (inr e) ↦ subst P (sym e) h
    ]

map-Above {ℓ} :
    {A : Type ℓ} (tag : CString) (tags : List CString) (g k : CString → A)
    → Above tag tags
    → ((t : CString) → strcmp tag t ≡ Ordering.lt → g t ≡ k t)
    → map g tags ≡ map k tags
map-Above tag [] g k h e = refl
map-Above tag (t ∷ tags) g k (h, hs) e = cc (e t h, map-Above tag tags g k hs e)

module _ (lib : Creation) (quiet : (tag : CString) (l : List Frame) → lib.behind tag l ≡ l) where
  at_place-keeps :
      (tag : CString) (tags : List CString) (go : List Frame → Merged) (rest : List Frame)
      → Reached tag rest
      → Ascending (views rest)
      → Above tag tags
      → ((l : List Frame) → Ascending (views l) → (go l).frames ≡ map (frame_for lib.create l) tags)
      → (at_place lib tag go rest).frames
        ≡ frame_for lib.create rest tag ∷ map (frame_for lib.create rest) tags
  unfolding at_place
  at_place-keeps tag tags go [] r h k ih =
      ap (λ l. lib.create tag ∷ (go l).frames) (quiet tag [])
      ∙ ap (λ l. lib.create tag ∷ l) (ih [] tt)
  at_place-keeps tag tags go (f ∷ fs) r h k ih =
      let P : Ordering → Type 0 = λ o.
        (at_frame lib o tag go f fs).frames
        ≡ frame_for lib.create (f ∷ fs) tag ∷ map (frame_for lib.create (f ∷ fs)) tags in
      elim (Ordering-cases (strcmp f.view tag)) [
        | inl e ↦ absurd (r e)
        | inr (inl e) ↦
            let later : map (frame_for lib.create fs) tags
                ≡ map (frame_for lib.create (f ∷ fs)) tags =
              map-Above tag tags (frame_for lib.create fs) (frame_for lib.create (f ∷ fs)) k (λ t u.
                sym (frame_for-other lib.create f fs t (λ w. cc (strcmp_eq f.view tag e, w, u)))) in
            subst P (sym e) (cc (frame_for-this lib.create f fs tag e, ih fs h.1, later))
        | inr (inr e) ↦
            let above : Above tag (views (f ∷ fs)) = (
              strcmp_flip_gt f.view tag e,
              Above-weaken tag f.view (views fs) (strcmp_flip_gt f.view tag e) h.0,
            ) in
            subst P (sym e) (
              ap (λ l. lib.create tag ∷ (go l).frames) (quiet tag (f ∷ fs))
              ∙ cc (ih (f ∷ fs) h, frame_for-Above lib.create tag (f ∷ fs) above))
      ]

  -- Where the frames are sorted by view and the tags ascend, and `view_create` leaves the frames alone,
  -- the frames that `client_setviews` leaves are, tag by tag, the one that the client had on that view,
  -- or else a new one.
  pub client_setviews-keeps :
      (tags : List CString) (fs : List Frame)
      → Ascending tags
      → Ascending (views fs)
      → (client_setviews lib tags fs).frames ≡ map (frame_for lib.create fs) tags
  unfolding client_setviews
  client_setviews-keeps [] fs h k = refl
  client_setviews-keeps (tag ∷ tags) fs (h, hs) k =
      let rest = (pass_below tag fs).rest in
      let same = λ (t : CString) (u : NotBelow tag t). frame_for-pass lib.create tag t fs u in
      at_place-keeps tag tags (client_setviews lib tags) rest (pass_below-Reached tag fs)
        (pass_below-Ascending tag fs k) h (λ l a. client_setviews-keeps tags l hs a)
      ∙ cc (
        same tag (inr refl),
        map-Above tag tags (frame_for lib.create rest) (frame_for lib.create fs) h
            (λ t u. same t (inl u)),
      )
