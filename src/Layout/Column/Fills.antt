-- ===== src/Layout/Column/Fills.antt =====
-- `column_settle` fills the column with its frames.
use wmii.Base.{
  ℕ, zero, suc, ◌+◌, ◌*◌, ◌/◌, ◌%◌, ◌≤◌, ◌<◌, ◌≡◌, refl, true, false, List, [], ◌∷◌, inl, inr,
  if◌then◌else◌, ◌==◌, arith, ap, sym, ◌∙◌, Bool-cases, subst,
}
use native.Mathlib.Nat.{suc-mul, mod-lt, div-add-mod}
use wmii.Base.Int.{
  ℤ, pos, negsuc, ◌+ℤ◌, ◌-ℤ◌, ◌≤ℤ◌, ltb_ℤ, quot, rem, pos_part, neg_part, int_laws, eq_of_parts,
}
use wmii.Geom.{Rectangle, dy, rectsetorigin}
use wmii.Layout.Column.{
  Frame, column_surplus, uncollapsed, settle_frame, left_over, settle_from, column_settle,
}

-- The frames stand one below the other from `lo` to `hi`, each as wide as the column.
abbrev pub Tiled : Rectangle → ℤ → ℤ → List Frame → Type 0
Tiled r lo hi [] = lo ≡ hi
Tiled r lo hi (f ∷ fs) =
    (f.r.min_y ≡ lo) × (f.r.min_x ≡ r.min_x) × (f.r.max_x ≡ r.max_x) × Tiled r f.r.max_y hi fs

-- Where the last frame ends.
abbrev bottom : Rectangle → ℤ → ℤ → ℤ → ℤ → List Frame → ℤ
bottom r q y y2 n [] = y
bottom r q y y2 n (f ∷ fs) =
    let g = settle_frame true r q y y2 n f in
    bottom r q g.r.max_y g.colr.max_y (left_over true n f) fs

settle_from-Tiled :
    (r : Rectangle) (q y y2 n : ℤ) (fs : List Frame)
    → Tiled r y (bottom r q y y2 n fs) (settle_from true r q y y2 n fs)
unfolding settle_from settle_frame rectsetorigin
settle_from-Tiled r q y y2 n [] = refl
settle_from-Tiled r q y y2 n (f ∷ fs) =
    let g = settle_frame true r q y y2 n f in
    (refl, refl, refl, settle_from-Tiled r q g.r.max_y g.colr.max_y (left_over true n f) fs)

abbrev heights : List Frame → ℤ
heights [] = pos 0
heights (f ∷ fs) = dy f.r +ℤ heights fs

-- A number for each uncollapsed frame, and the pixels that `n` of them are given.
abbrev times : ℕ → List Frame → ℕ
times c [] = 0
times c (f ∷ fs) = if f.collapsed then times c fs else c + times c fs

abbrev given : ℤ → List Frame → ℕ
given n [] = 0
given n (f ∷ fs) =
    if f.collapsed then given n fs else ((if ltb_ℤ (pos 0) n then 1 else 0) + given (n -ℤ pos 1) fs)

given-none : (fs : List Frame) (n : ℤ) → n ≤ℤ pos 0 → given n fs ≡ 0
given-none [] n h = refl
given-none (f ∷ fs) n h = elim (Bool-cases f.collapsed) [
  | inl e ↦ rw e (given-none fs n h)
  | inr e ↦
      (let t = given-none fs (n -ℤ pos 1) (omega (int_laws, h)) in rw e (ground (arith, t, h)))
]

less-one : (m : ℕ) → pos (suc m) -ℤ pos 1 ≡ pos m
unfolding ◌-ℤ◌
less-one m = ground arith

given-all : (fs : List Frame) (m : ℕ) → m ≤ uncollapsed fs → given (pos m) fs ≡ m
unfolding uncollapsed
given-all [] m h = omega arith
given-all (f ∷ fs) zero h = given-none (f ∷ fs) (pos 0) (omega arith)
given-all (f ∷ fs) (suc m) h = elim (Bool-cases f.collapsed) [
  | inl e ↦ rw e (given-all fs (suc m) (rw e at h))
  | inr e ↦
      (let k : suc m ≤ suc (uncollapsed fs) = rw e at h in
        let t = given-all fs m (omega (arith, k)) in rw (e, less-one m) (ground (arith, t)))
]

stays_high :
    (r : Rectangle) (q y y2 n : ℤ) (f : Frame)
    → f.collapsed ≡ true
    → ((settle_frame true r q y y2 n f).r.max_y ≡ y +ℤ dy f.r) × (left_over true n f ≡ n)
unfolding settle_frame rectsetorigin left_over
stays_high r q y y2 n f e = rw e (refl, refl)

grows :
    (r : Rectangle) (c : ℕ) (y y2 n : ℤ) (f : Frame)
    → f.collapsed ≡ false
    → ((settle_frame true r (pos c) y y2 n f).r.max_y
        ≡ (y +ℤ dy f.r) +ℤ pos (c + (if ltb_ℤ (pos 0) n then 1 else 0)))
      × (left_over true n f ≡ n -ℤ pos 1)
unfolding settle_frame rectsetorigin left_over
grows r c y y2 n f e = rw e (
  elim (Bool-cases (ltb_ℤ (pos 0) n)) [
    | inl h ↦ rw h (
        eq_of_parts (((y +ℤ dy f.r) +ℤ pos c) +ℤ pos 1) ((y +ℤ dy f.r) +ℤ pos (c + 1))
          (omega int_laws))
    | inr h ↦
        rw h (eq_of_parts ((y +ℤ dy f.r) +ℤ pos c) ((y +ℤ dy f.r) +ℤ pos (c + 0)) (omega int_laws))
  ],
  refl,
)

regroup :
    (y d h : ℤ) (c k t g : ℕ)
    → (((y +ℤ d) +ℤ pos (c + k)) +ℤ h) +ℤ pos (t + g) ≡ (y +ℤ (d +ℤ h)) +ℤ pos ((c + t) + (k + g))
regroup y d h c k t g =
    eq_of_parts ((((y +ℤ d) +ℤ pos (c + k)) +ℤ h) +ℤ pos (t + g))
      ((y +ℤ (d +ℤ h)) +ℤ pos ((c + t) + (k + g))) (omega int_laws)

add-collapsed :
    (r : Rectangle) (c : ℕ) (y y2 n : ℤ) (f : Frame) (fs : List Frame)
    → f.collapsed ≡ true
    → ((settle_frame true r (pos c) y y2 n f).r.max_y ≡ y +ℤ dy f.r) × (left_over true n f ≡ n)
    → ((settle_frame true r (pos c) y y2 n f).r.max_y +ℤ heights fs)
        +ℤ pos (times c fs + given (left_over true n f) fs)
      ≡ (y +ℤ heights (f ∷ fs)) +ℤ pos (times c (f ∷ fs) + given n (f ∷ fs))
add-collapsed r c y y2 n f fs e (a, b) =
    rw (a, b, e)
      (eq_of_parts (((y +ℤ dy f.r) +ℤ heights fs) +ℤ pos (times c fs + given n fs))
        ((y +ℤ (dy f.r +ℤ heights fs)) +ℤ pos (times c fs + given n fs)) (omega int_laws))

add-uncollapsed :
    (r : Rectangle) (c : ℕ) (y y2 n : ℤ) (f : Frame) (fs : List Frame)
    → f.collapsed ≡ false
    → ((settle_frame true r (pos c) y y2 n f).r.max_y
        ≡ (y +ℤ dy f.r) +ℤ pos (c + (if ltb_ℤ (pos 0) n then 1 else 0)))
      × (left_over true n f ≡ n -ℤ pos 1)
    → ((settle_frame true r (pos c) y y2 n f).r.max_y +ℤ heights fs)
        +ℤ pos (times c fs + given (left_over true n f) fs)
      ≡ (y +ℤ heights (f ∷ fs)) +ℤ pos (times c (f ∷ fs) + given n (f ∷ fs))
add-uncollapsed r c y y2 n f fs e (a, b) =
    rw (a, b, e)
      (regroup y (dy f.r) (heights fs) c (if ltb_ℤ (pos 0) n then 1 else 0) (times c fs)
        (given (n -ℤ pos 1) fs))

bottom-sum :
    (r : Rectangle) (c : ℕ) (y y2 n : ℤ) (fs : List Frame)
    → bottom r (pos c) y y2 n fs ≡ (y +ℤ heights fs) +ℤ pos (times c fs + given n fs)
bottom-sum r c y y2 n [] = eq_of_parts y ((y +ℤ pos 0) +ℤ pos (0 + 0)) (omega int_laws)
bottom-sum r c y y2 n (f ∷ fs) =
    let g = settle_frame true r (pos c) y y2 n f in
    let ih = bottom-sum r c g.r.max_y g.colr.max_y (left_over true n f) fs in
    elim (Bool-cases f.collapsed) [
      | inl e ↦ ih ∙ add-collapsed r c y y2 n f fs e (stays_high r (pos c) y y2 n f e)
      | inr e ↦ ih ∙ add-uncollapsed r c y y2 n f fs e (grows r c y y2 n f e)
    ]

surplus-heights : (r : Rectangle) (fs : List Frame) → column_surplus r fs ≡ dy r -ℤ heights fs
unfolding column_surplus
surplus-heights r [] = eq_of_parts (dy r) (dy r -ℤ pos 0) (omega int_laws)
surplus-heights r (f ∷ fs) =
    let t = surplus-heights r fs in
    rw t (
      eq_of_parts ((dy r -ℤ heights fs) -ℤ dy f.r) (dy r -ℤ (dy f.r +ℤ heights fs))
        (omega int_laws))

suc_times : (n c : ℕ) → c + n * c ≡ suc n * c
suc_times n c = omega (arith, suc-mul n c)

times-uncollapsed : (c : ℕ) (fs : List Frame) → times c fs ≡ uncollapsed fs * c
unfolding uncollapsed
times-uncollapsed c [] = omega arith
times-uncollapsed c (f ∷ fs) = elim (Bool-cases f.collapsed) [
  | inl e ↦ rw e (times-uncollapsed c fs)
  | inr e ↦ (let t = times-uncollapsed c fs in rw e (rw t (suc_times (uncollapsed fs) c)))
]

add_comm-div : (s m : ℕ) → m * (s / m) + s % m ≡ s
add_comm-div s m = div-add-mod s m

-- The quotient for each uncollapsed frame and the remainder make up the surplus.
shared-out :
    (fs : List Frame) (s k : ℕ)
    → uncollapsed fs ≡ suc k
    → times (s / suc k) fs + given (pos (s % suc k)) fs ≡ s
shared-out fs s k e =
    let a = times-uncollapsed (s / suc k) fs in
    let b = given-all fs (s % suc k) (rw e (omega (arith, mod-lt s {m = suc k} (omega arith)))) in
    rw (a, b, e) (add_comm-div s (suc k))

ends :
    (r : Rectangle) (fs : List Frame) (s : ℕ)
    → column_surplus r fs ≡ pos s
    → (r.min_y +ℤ heights fs) +ℤ pos s ≡ r.max_y
ends r fs s e =
    let t = sym (surplus-heights r fs) ∙ e in
    eq_of_parts ((r.min_y +ℤ heights fs) +ℤ pos s) r.max_y
      (omega (int_laws, ap pos_part t, ap neg_part t))

suc_ne : (k : ℕ) → (suc k == 0) ≡ false
suc_ne k = ground arith

settled :
    (r : Rectangle) (fs : List Frame) (s : ℤ) (k : ℕ)
    → column_surplus r fs ≡ s
    → uncollapsed fs ≡ k
    → 0 < k
    → pos 0 ≤ℤ s
    → Tiled r r.min_y r.max_y
        (if k == 0 then fs else settle_from true r (quot s k) r.min_y r.min_y (rem s k) fs)
unfolding quot rem
settled r fs s zero e g h p = absurd (omega arith)
settled r fs (negsuc s) (suc k) e g h p = absurd (omega arith)
settled r fs (pos s) (suc k) e g h p =
    let q = s / suc k in
    let n = s % suc k in
    let b = bottom-sum r q r.min_y r.min_y (pos n) fs in
    let t = settle_from-Tiled r (pos q) r.min_y r.min_y (pos n) fs in
    let z = shared-out fs s k g in
    subst
      (λ u.
        Tiled r r.min_y r.max_y
          (if u then fs else settle_from true r (pos q) r.min_y r.min_y (pos n) fs))
      (sym (suc_ne k))
      (subst (λ e. Tiled r r.min_y e (settle_from true r (pos q) r.min_y r.min_y (pos n) fs))
        (b ∙ (ap (λ m. (r.min_y +ℤ heights fs) +ℤ pos m) z ∙ ends r fs s e)) t)

-- Where the frames leave room and one at least is not collapsed, a column that squeezes is filled
-- by `column_settle`: its frames stand one below the other from its top to its bottom, each as wide
-- as the column.
pub column_settle-Tiled :
    (r : Rectangle) (fs : List Frame)
    → 0 < uncollapsed fs
    → pos 0 ≤ℤ column_surplus r fs
    → Tiled r r.min_y r.max_y (column_settle true r fs)
unfolding column_settle
column_settle-Tiled r fs h p = settled r fs (column_surplus r fs) (uncollapsed fs) refl refl h p
