-- ===== src/Layout/Fit/Counts.antt =====
-- How many frames `column_fit` leaves collapsed and uncollapsed.
use Prim.Native.Nat.{min}
use wmii.Base.{
  if_both, subst, ℕ, zero, suc, ◌+◌, ◌-◌, ◌≤◌, ◌<◌, ◌≡◌, refl, ap, ◌∙◌, Bool, true, false, Option,
  List, [], ◌∷◌, ◌++◌, if◌then◌else◌, length, map, arith, Bool-cases, inl, inr,
}
use wmii.Base.Int.{ℤ}
use wmii.Layout.Fit.{
  Frame, count, is_sel, Fit, fitted, moves, keep_frame, place_collapsed, place_shown, fit_frames,
  resized, some_shown, column_fit,
}

-- The frames that are selected, of which there is one at most, and the others.
abbrev pub selected : Option ℕ → List Frame → List Frame
selected sel [] = []
selected sel (f ∷ fs) = let rest = selected sel fs in if is_sel sel f then f ∷ rest else rest

abbrev pub others : Option ℕ → List Frame → List Frame
others sel [] = []
others sel (f ∷ fs) = let rest = others sel fs in if is_sel sel f then rest else f ∷ rest

-- What the loop comes to for `n` frames with `a` and `b` of the selected and `c` and `d` of the other ones
-- uncollapsed and collapsed.
abbrev pub Counts : Option ℕ → ℕ → ℕ → ℕ → ℕ → ℕ → ℕ → ℕ → Fit → Type 0
Counts sel j i a b c d n (fitted kept) =
    (d + (c - j) ≤ i)
    × (count false kept ≡ a + min c j)
    × (count true kept ≡ b + (d + (c - j)))
    × (length kept ≡ n)
Counts sel j i a b c d n (moves passed f rest) =
    (i < d + (c - j)) × (is_sel sel f ≡ false) × (length passed + suc (length rest) ≡ n)

-- The selected frames of what has been kept.
abbrev pub KeepsSelected : Option ℕ → List Frame → Fit → Type 0
KeepsSelected sel s (fitted kept) = selected sel kept ≡ s
KeepsSelected sel s (moves passed f rest) = selected sel (passed ++ (f ∷ rest)) ≡ s

-- Frames by their own flag.
count_cons :
    (b : Bool) (f : Frame) (fs : List Frame)
    → f.collapsed ≡ b
    → (count true (f ∷ fs) ≡ (if b then suc (count true fs) else count true fs))
      × (count false (f ∷ fs) ≡ (if b then count false fs else suc (count false fs)))
unfolding count
count_cons b f fs e = (
  ap (λ c. if c then suc (count true fs) else count true fs) e,
  ap (λ c. if c then count false fs else suc (count false fs)) e,
)

module _ (sel : Option ℕ) (a b c d : ℕ) (fs : List Frame) where
  -- A frame that is kept collapsed, and one that is kept as it is.
  keep-collapsed :
      (f : Frame) (j i : ℕ) (r : Fit)
      → Counts sel j i a b c d (length fs) r
      → Counts sel j
          (suc i)
          a
          b
          c
          (suc d)
          (suc (length fs))
          (keep_frame (record f { collapsed = true }) r)
  unfolding count
  keep-collapsed f j i (fitted kept) (h, p, q, r) =
      (omega (arith, h), p, omega (arith, q), omega (arith, r))
  keep-collapsed f j i (moves passed g rest) (h, p, q) = (omega (arith, h), p, omega (arith, q))

  keep-shown :
      (f : Frame) (j i : ℕ) (r : Fit)
      → f.collapsed ≡ false
      → Counts sel j i a b c d (length fs) r
      → Counts sel (suc j) i a b (suc c) d (suc (length fs)) (keep_frame f r)
  keep-shown f j i (fitted kept) e (h, p, q, r) =
      let (t, u) = count_cons false f kept e in
      (omega (arith, h), omega (arith, p, u), omega (arith, q, t), omega (arith, r))
  keep-shown f j i (moves passed g rest) e (h, p, q) = (omega (arith, h), p, omega (arith, q))

  place_collapsed-Counts :
      (f : Frame) (j i : ℕ) (go : ℕ → Fit)
      → is_sel sel f ≡ false
      → ((i' : ℕ) → Counts sel j i' a b c d (length fs) (go i'))
      → Counts sel j i a b c (suc d) (suc (length fs)) (place_collapsed f fs i go)
  place_collapsed-Counts f j zero go n ih = (omega arith, n, omega arith)
  place_collapsed-Counts f j (suc i) go n ih = keep-collapsed f j i (go i) (ih i)

  more_collapsed :
      (i : ℕ) (r : Fit)
      → Counts sel 0 i a b c (suc d) (suc (length fs)) r
      → Counts sel 0 i a b (suc c) d (suc (length fs)) r
  more_collapsed i (fitted kept) (h, p, q, r) =
      (omega (arith, h), omega (arith, p), omega (arith, q), r)
  more_collapsed i (moves passed g rest) (h, p, q) = (omega (arith, h), p, q)

  place_shown-Counts :
      (f : Frame) (j i : ℕ) (go : ℕ → ℕ → Fit)
      → is_sel sel f ≡ false
      → f.collapsed ≡ false
      → ((j' i' : ℕ) → Counts sel j' i' a b c d (length fs) (go j' i'))
      → Counts sel j i a b (suc c) d (suc (length fs)) (place_shown f fs j i go)
  place_shown-Counts f zero i go n e ih =
      more_collapsed i (place_collapsed f fs i (go 0))
        (place_collapsed-Counts f 0 i (go 0) n (λ i'. ih 0 i'))
  place_shown-Counts f (suc j) i go n e ih = keep-shown f j i (go j i) e (ih j i)

-- A selected frame, by its own flag.
keep-selected :
    (sel : Option ℕ) (f : Frame) (S : List Frame) (x : Bool) (j i c d n : ℕ) (r : Fit)
    → f.collapsed ≡ x
    → Counts sel j i (count false S) (count true S) c d n r
    → Counts sel j i (count false (f ∷ S)) (count true (f ∷ S)) c d (suc n) (keep_frame f r)
keep-selected sel f S true j i c d n (fitted kept) e (h, p, q, r) =
    let (u, v) = count_cons true f S e in
    let (w, y) = count_cons true f kept e in
    (h, omega (arith, p, v, y), omega (arith, q, u, w), omega (arith, r))
keep-selected sel f S false j i c d n (fitted kept) e (h, p, q, r) =
    let (u, v) = count_cons false f S e in
    let (w, y) = count_cons false f kept e in
    (h, omega (arith, p, v, y), omega (arith, q, u, w), omega (arith, r))
keep-selected sel f S x j i c d n (moves passed g rest) e (h, p, q) = (h, p, omega (arith, q))

-- One frame, by whether it is the selected one and whether it is collapsed; `S` and `O` are the selected
-- and the other frames behind it.
module _ (sel : Option ℕ) (f : Frame) (fs S O : List Frame)
    (ih : (j i : ℕ)
      → Counts sel j i
          (count false S)
          (count true S)
          (count false O)
          (count true O)
          (length fs)
          (fit_frames sel j i fs)) where
  abbrev Step : ℕ → ℕ → Bool → Bool → Type 0
  Step j i e c =
      let s = if e then f ∷ S else S in
      let o = if e then O else f ∷ O in
      Counts sel j i (count false s) (count true s) (count false o) (count true o) (suc (length fs))
        (if e
          then keep_frame f (fit_frames sel j i fs)
          else if c
          then place_collapsed f fs i (λ i'. fit_frames sel j i' fs)
          else place_shown f fs j i (λ j' i'. fit_frames sel j' i' fs))

  Step-other : (j i : ℕ) (c : Bool) → is_sel sel f ≡ false → f.collapsed ≡ c → Step j i false c
  Step-other j i true n q =
      let (u, v) = count_cons true f O q in
      rw (u, v)
        (place_collapsed-Counts sel (count false S) (count true S) (count false O) (count true O) fs
          f j i (λ i'. fit_frames sel j i' fs) n (λ i'. ih j i'))
  Step-other j i false n q =
      let (u, v) = count_cons false f O q in
      rw (u, v)
        (place_shown-Counts sel (count false S) (count true S) (count false O) (count true O) fs f j
          i (λ j' i'. fit_frames sel j' i' fs) n q ih)

  Step-any : (j i : ℕ) (e : Bool) → is_sel sel f ≡ e → Step j i e f.collapsed
  Step-any j i true n =
      keep-selected sel f S f.collapsed j i (count false O) (count true O) (length fs)
        (fit_frames sel j i fs) refl (ih j i)
  Step-any j i false n = Step-other j i f.collapsed n refl

fit_frames-counted :
    (sel : Option ℕ) (j i : ℕ) (fs : List Frame)
    → let s = selected sel fs in
      let o = others sel fs in
      Counts sel j i
        (count false s)
        (count true s)
        (count false o)
        (count true o)
        (length fs)
        (fit_frames sel j i fs)
unfolding fit_frames count
fit_frames-counted sel j i [] = (omega arith, omega arith, omega arith, refl)
fit_frames-counted sel j i (f ∷ fs) =
    Step-any sel f fs (selected sel fs) (others sel fs) (λ j' i'. fit_frames-counted sel j' i' fs) j
      i (is_sel sel f) refl

keep_other :
    (sel : Option ℕ) (f : Frame) (s : List Frame) (r : Fit)
    → is_sel sel f ≡ false
    → KeepsSelected sel s r
    → KeepsSelected sel s (keep_frame f r)
keep_other sel f s (fitted kept) e h =
    ap (λ b. if b then f ∷ selected sel kept else selected sel kept) e ∙ h
keep_other sel f s (moves passed g rest) e h =
    let l = selected sel (passed ++ (g ∷ rest)) in ap (λ b. if b then f ∷ l else l) e ∙ h

keep_sel :
    (sel : Option ℕ) (f : Frame) (s : List Frame) (r : Fit)
    → is_sel sel f ≡ true
    → KeepsSelected sel s r
    → KeepsSelected sel (f ∷ s) (keep_frame f r)
keep_sel sel f s (fitted kept) e h =
    ap (λ b. if b then f ∷ selected sel kept else selected sel kept) e ∙ ap (◌∷◌ f) h
keep_sel sel f s (moves passed g rest) e h =
    let l = selected sel (passed ++ (g ∷ rest)) in ap (λ b. if b then f ∷ l else l) e ∙ ap (◌∷◌ f) h

module _ (sel : Option ℕ) (f : Frame) (fs : List Frame) (other : is_sel sel f ≡ false) where
  place_collapsed-KeepsSelected :
      (i : ℕ) (go : ℕ → Fit)
      → ((i' : ℕ) → KeepsSelected sel (selected sel fs) (go i'))
      → KeepsSelected sel (selected sel fs) (place_collapsed f fs i go)
  place_collapsed-KeepsSelected zero go ih =
      let g : Frame = record f { collapsed = false } in
      ap (λ b. if b then g ∷ selected sel fs else selected sel fs) other
  place_collapsed-KeepsSelected (suc i) go ih =
      keep_other sel (record f { collapsed = true }) (selected sel fs) (go i) other (ih i)

  place_shown-KeepsSelected :
      (j i : ℕ) (go : ℕ → ℕ → Fit)
      → ((j' i' : ℕ) → KeepsSelected sel (selected sel fs) (go j' i'))
      → KeepsSelected sel (selected sel fs) (place_shown f fs j i go)
  place_shown-KeepsSelected zero i go ih = place_collapsed-KeepsSelected i (go 0) (λ i'. ih 0 i')
  place_shown-KeepsSelected (suc j) i go ih =
      keep_other sel f (selected sel fs) (go j i) other (ih j i)

fit_frames-KeepsSelected :
    (sel : Option ℕ) (j i : ℕ) (fs : List Frame)
    → KeepsSelected sel (selected sel fs) (fit_frames sel j i fs)
unfolding fit_frames
fit_frames-KeepsSelected sel j i [] = refl
fit_frames-KeepsSelected sel j i (f ∷ fs) = elim (Bool-cases (is_sel sel f)) [
  | inl e ↦ rw e (
      keep_sel sel f (selected sel fs) (fit_frames sel j i fs) e
        (fit_frames-KeepsSelected sel j i fs))
  | inr e ↦ rw e (
      if_both (KeepsSelected sel (selected sel fs)) f.collapsed
        (place_collapsed-KeepsSelected sel f fs e i (λ i'. fit_frames sel j i' fs)
          (λ i'. fit_frames-KeepsSelected sel j i' fs))
        (place_shown-KeepsSelected sel f fs e j i (λ j' i'. fit_frames sel j' i' fs)
          (λ j' i'. fit_frames-KeepsSelected sel j' i' fs)))
]

-- The last loop of `column_fit` comes to its end exactly where `i` is enough for the frames besides the
-- selected one that are collapsed, with the uncollapsed ones beyond the first `j`: then every frame is
-- left, and of the others `j` are uncollapsed, or all where there are fewer, and the rest collapsed. Else
-- it comes to a call of `area_moveto` of a frame that is not the selected one, with every frame still
-- there. Up to there the selected frame is as it was.
pub fit_frames-Counts :
    (sel : Option ℕ) (j i : ℕ) (fs : List Frame)
    → let s = selected sel fs in
      let o = others sel fs in
      Counts sel j i
        (count false s)
        (count true s)
        (count false o)
        (count true o)
        (length fs)
        (fit_frames sel j i fs)
      × KeepsSelected sel s (fit_frames sel j i fs)
fit_frames-Counts sel j i fs = (fit_frames-counted sel j i fs, fit_frames-KeepsSelected sel j i fs)

Counts-fitted :
    (sel : Option ℕ) (j i b c d n : ℕ) (r : Fit)
    → j ≤ c
    → d + (c - j) ≤ i
    → Counts sel j i 1 b c d n r
    → (kept : List Frame) × (r ≡ fitted kept) × (count false kept ≡ suc j)
Counts-fitted sel j i b c d n (fitted kept) h k (p, q, t, u) = (kept, refl, omega (arith, q))
Counts-fitted sel j i b c d n (moves passed g rest) h k (p, q, t) = absurd (omega (arith, p))

-- Where the selected frame is the only one of its name and is not collapsed, the others that are not
-- collapsed are as many as the uncollapsed frames that `column_fit` has found room for, or more, and those
-- beyond that number have room with the collapsed ones, so that no frame has to leave the column,
-- `column_fit` leaves one more uncollapsed frame than it has found room for.
pub column_fit-one_more :
    (coldefault stacked : Bool) (labelh : ℕ) (view_dy dy : ℤ) (sel : Option ℕ) (frames : List Frame)
    → let r = column_fit coldefault stacked labelh view_dy dy sel frames in
      let fs = some_shown sel (map (resized coldefault labelh) frames) in
      count false (selected sel fs) ≡ 1
      → r.numbers.n_uncol ≤ count false (others sel fs)
      → count true (others sel fs) + (count false (others sel fs) - r.numbers.n_uncol)
        ≤ r.numbers.n_col
      → (kept : List Frame) × (r.frames ≡ fitted kept) × (count false kept ≡ suc r.numbers.n_uncol)
unfolding column_fit
column_fit-one_more coldefault stacked labelh view_dy dy sel frames h k l =
    let r = column_fit coldefault stacked labelh view_dy dy sel frames in
    let fs = some_shown sel (map (resized coldefault labelh) frames) in
    let o = others sel fs in
    let c = fit_frames-counted sel r.numbers.n_uncol r.numbers.n_col fs in
    Counts-fitted sel r.numbers.n_uncol r.numbers.n_col (count true (selected sel fs))
      (count false o) (count true o) (length fs) r.frames k l
      (subst
        (λ x.
          Counts sel r.numbers.n_uncol r.numbers.n_col x (count true (selected sel fs))
            (count false o) (count true o) (length fs) r.frames)
        h c)
