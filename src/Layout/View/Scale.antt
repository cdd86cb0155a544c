-- ===== src/Layout/View/Scale.antt =====
-- `view_scale` places the columns edge to edge.
use wmii.Base.{
  ℕ, suc, ap, ◌∙◌, ◌⊎◌, inl, inr, Bool-cases, if_both, ◌*◌, ◌^◌, ◌≤◌, ◌<◌, ◌≡◌, refl, true, false,
  List, [], ◌∷◌, ltb, length, arith,
}
use wmii.Base.Int.{ℤ, pos, negsuc, ◌+ℤ◌, ◌-ℤ◌, ◌≤ℤ◌, ◌<ℤ◌, eqb_ℤ, to_uint, int_laws, eq_of_parts}
use wmii.Geom.{Rectangle, dx}
use wmii.Layout.View.{widths, spread, widened, widen, view_scale}

-- Each column starts where the one before it ends, from `lo` to `hi`, and each but the last has `P`.
abbrev pub EdgeToEdge : (Rectangle → Type 0) → ℤ → ℤ → List Rectangle → Type 0
EdgeToEdge P lo hi [] = Unit {0}
EdgeToEdge P lo hi (a ∷ []) = (a.min_x ≡ lo) × (a.max_x ≡ hi)
EdgeToEdge P lo hi (a ∷ (b ∷ l)) = (a.min_x ≡ lo) × P a × EdgeToEdge P a.max_x hi (b ∷ l)

-- A column is at least `m` wide, or of negative width.
abbrev pub WideOrNegative : ℕ → Rectangle → Type 0
WideOrNegative m a = (pos m ≤ℤ dx a) ⊎ (dx a <ℤ pos 0)

-- Of any width.
abbrev pub AnyWidth : Rectangle → Type 0
AnyWidth a = Unit {0}

spread-EdgeToEdge :
    (stretch : ℤ → ℤ → ℤ) (lo hi : ℤ) (l : List Rectangle)
    → EdgeToEdge AnyWidth lo hi (spread stretch lo hi l)
unfolding spread
spread-EdgeToEdge stretch lo hi [] = tt
spread-EdgeToEdge stretch lo hi (a ∷ []) = (refl, refl)
spread-EdgeToEdge stretch lo hi (a ∷ (b ∷ [])) = (refl, tt, (refl, refl))
spread-EdgeToEdge stretch lo hi (a ∷ (b ∷ (c ∷ l))) =
    (refl, tt, spread-EdgeToEdge stretch (stretch lo (dx a)) hi (b ∷ (c ∷ l)))

-- A width that passes the test as an `uint`.
wide_uint : (d : ℤ) (m : ℕ) → ltb (to_uint d) m ≡ false → (pos m ≤ℤ d) ⊎ (d <ℤ pos 0)
unfolding to_uint
wide_uint (pos n) m h = inl (ground arith)
wide_uint (negsuc n) m h = inr (omega arith)

widened-WideOrNegative :
    (m : ℕ) (lo : ℤ) (a : Rectangle)
    → (pos m ≤ℤ (widened m lo a -ℤ lo)) ⊎ ((widened m lo a -ℤ lo) <ℤ pos 0)
unfolding widened
widened-WideOrNegative m lo a = elim (Bool-cases (ltb (to_uint (a.max_x -ℤ lo)) m)) [
  | inl e ↦ rw e (inl (omega int_laws))
  | inr e ↦ rw e (wide_uint (a.max_x -ℤ lo) m e)
]

widen-EdgeToEdge :
    (m : ℕ) (lo hi : ℤ) (l : List Rectangle) → EdgeToEdge (WideOrNegative m) lo hi (widen m lo hi l)
unfolding widen
widen-EdgeToEdge m lo hi [] = tt
widen-EdgeToEdge m lo hi (a ∷ []) = (refl, refl)
widen-EdgeToEdge m lo hi (a ∷ (b ∷ [])) = (refl, widened-WideOrNegative m lo a, (refl, refl))
widen-EdgeToEdge m lo hi (a ∷ (b ∷ (c ∷ l))) =
    (refl, widened-WideOrNegative m lo a, widen-EdgeToEdge m (widened m lo a) hi (b ∷ (c ∷ l)))

length-spread :
    (stretch : ℤ → ℤ → ℤ) (lo hi : ℤ) (l : List Rectangle)
    → length (spread stretch lo hi l) ≡ length l
unfolding spread
length-spread stretch lo hi [] = refl
length-spread stretch lo hi (a ∷ []) = refl
length-spread stretch lo hi (a ∷ (b ∷ l)) =
    ap suc (length-spread stretch (stretch lo (dx a)) hi (b ∷ l))

length-widen : (m : ℕ) (lo hi : ℤ) (l : List Rectangle) → length (widen m lo hi l) ≡ length l
unfolding widen
length-widen m lo hi [] = refl
length-widen m lo hi (a ∷ []) = refl
length-widen m lo hi (a ∷ (b ∷ l)) = ap suc (length-widen m (widened m lo a) hi (b ∷ l))

test_narrow : (d : ℤ) (m : ℕ) → pos 0 ≤ℤ d → d <ℤ pos m → m < 2 ^ 31 → ltb (to_uint d) m ≡ true
unfolding to_uint
test_narrow (pos n) m h k b = ground arith
test_narrow (negsuc n) m h k b = absurd (omega arith)

test_negative :
    (d : ℤ) (m : ℕ) → d <ℤ pos 0 → negsuc m ≤ℤ d → m < 2 ^ 31 → ltb (to_uint d) m ≡ false
unfolding to_uint
test_negative (pos n) m h k b = absurd (omega arith)
test_negative (negsuc n) m h k b = ground arith

-- A column that is widened, and one of negative width, which is not.
widened-narrow :
    (m : ℕ) (lo : ℤ) (a : Rectangle)
    → pos 0 ≤ℤ (a.max_x -ℤ lo)
    → (a.max_x -ℤ lo) <ℤ pos m
    → m < 2 ^ 31
    → widened m lo a ≡ lo +ℤ pos m
unfolding widened
widened-narrow m lo a h k b = rw (test_narrow (a.max_x -ℤ lo) m h k b) refl

widened-negative :
    (m : ℕ) (lo : ℤ) (a : Rectangle)
    → (a.max_x -ℤ lo) <ℤ pos 0
    → negsuc m ≤ℤ (a.max_x -ℤ lo)
    → m < 2 ^ 31
    → widened m lo a ≡ a.max_x
unfolding widened
widened-negative m lo a h k b = rw (test_negative (a.max_x -ℤ lo) m h k b) refl

to_uint-pos : (n : ℕ) → n < 2 ^ 32 → to_uint (pos n) ≡ n
unfolding to_uint
to_uint-pos n h = ground arith

not_less : (a b : ℕ) → a ≤ b → ltb b a ≡ false
not_less a b h = ground arith

less : (a b : ℕ) → b < a → ltb b a ≡ true
less a b h = ground arith

-- The second column's width once the first is widened past its right edge.
abbrev pub second_width : List Rectangle → ℤ
second_width [] = pos 0
second_width (a ∷ []) = pos 0
second_width (a ∷ (b ∷ l)) = dx b

-- For a `minwidth` below 2^31, and a column and the next with a third behind them, whose right
-- edges ascend from the left edge: where the two are together narrower than `minwidth`, the second
-- loop of `view_scale` gives the next one a negative width, as much less than 0 as the two columns
-- lack to `minwidth`.
pub widen-negative :
    (m : ℕ) (lo hi : ℤ) (a b c : Rectangle) (l : List Rectangle)
    → m < 2 ^ 31
    → lo ≤ℤ a.max_x
    → a.max_x ≤ℤ b.max_x
    → (b.max_x -ℤ lo) <ℤ pos m
    → (second_width (widen m lo hi (a ∷ (b ∷ (c ∷ l)))) ≡ (b.max_x -ℤ lo) -ℤ pos m)
      × (second_width (widen m lo hi (a ∷ (b ∷ (c ∷ l)))) <ℤ pos 0)
unfolding widen
widen-negative m lo hi a b c l u h k w =
    let e = widened-narrow m lo a (omega (int_laws, h)) (omega (int_laws, k, w)) u in
    let f = widened-negative m (lo +ℤ pos m) b (omega (int_laws, w)) (omega (int_laws, h, k)) u in
    rw (e, f)
      (
        eq_of_parts (b.max_x -ℤ (lo +ℤ pos m)) ((b.max_x -ℤ lo) -ℤ pos m) (omega int_laws),
        omega (int_laws, w),
      )

-- `view_scale` of columns that have some width, where `numcol * minwidth` and `width` are below 2^32,
-- leaves as many columns, each from where the one before it ends, the first from the screen's padded left
-- edge. Where each can have `minwidth`, the last one ends `width` from there, and each of the others is
-- at least `minwidth` wide, or else of negative width, so that it lies on the one before; where they
-- cannot, the last one ends `width` from the screen's own left edge.
pub view_scale-EdgeToEdge :
    (stretch : ℤ → ℤ → ℤ) (m w : ℕ) (r pad : Rectangle) (cols : List Rectangle)
    → eqb_ℤ (widths cols) (pos 0) ≡ false
    → w < 2 ^ 32
    → length cols * m < 2 ^ 32
    → (length (view_scale stretch m r pad (pos w) cols) ≡ length cols)
      × (length cols * m ≤ w
          → EdgeToEdge
              (WideOrNegative m)
              (r.min_x +ℤ pad.min_x)
              ((r.min_x +ℤ pad.min_x) +ℤ pos w)
              (view_scale stretch m r pad (pos w) cols))
      × (w < length cols * m
          → EdgeToEdge AnyWidth
              (r.min_x +ℤ pad.min_x)
              (r.min_x +ℤ pos w)
              (view_scale stretch m r pad (pos w) cols))
unfolding view_scale
view_scale-EdgeToEdge stretch m w r pad cols e b c =
    let minx = r.min_x +ℤ pad.min_x in
    let once = spread stretch minx (r.min_x +ℤ pos w) cols in
    let same = length-spread stretch minx (r.min_x +ℤ pos w) cols in
    rw e (
      rw (to_uint-pos w b, to_uint-pos (length cols * m) c)
        (
          if_both (λ (l : List Rectangle). length l ≡ length cols) (ltb w (length cols * m)) same
              (length-widen m minx (minx +ℤ pos w) once ∙ same),
          λ h. rw (not_less (length cols * m) w h) (widen-EdgeToEdge m minx (minx +ℤ pos w) once),
          λ h.
              rw (less (length cols * m) w h)
                (spread-EdgeToEdge stretch minx (r.min_x +ℤ pos w) cols),
        ))
