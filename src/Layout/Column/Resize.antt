-- ===== src/Layout/Column/Resize.antt =====
-- `column_resizeframe_h` moves the borders between a frame and its neighbours.
use wmii.Base.{inl, inr, if_both, ◌≡◌, ◌⊎◌, refl, Option, none, some, arith}
use wmii.Base.Int.{ℤ, ◌+ℤ◌, ◌-ℤ◌, ◌≤ℤ◌, ◌<ℤ◌, ltb_ℤ, int_laws}
use wmii.Geom.{Rectangle, max, min, dy}
use wmii.Layout.Column.{Around, top_for, bottom_for, first_top, last_bottom, column_resizeframe_h}

-- The larger, and the smaller, of two.
abbrev pub IsLarger : ℤ → ℤ → ℤ → Type 0
IsLarger x a b = (a ≤ℤ x) × (b ≤ℤ x) × ((x ≡ a) ⊎ (x ≡ b))

abbrev pub IsSmaller : ℤ → ℤ → ℤ → Type 0
IsSmaller x a b = (x ≤ℤ a) × (x ≤ℤ b) × ((x ≡ a) ⊎ (x ≡ b))

-- The frame above ends where the frame starts, keeps its own start and is at least `minh` high; the frame
-- starts where it is asked to, or as early as it may. The first frame starts so too, or is as low as it
-- may be.
abbrev pub MeetsAbove : ℤ → Rectangle → Option Rectangle → Rectangle → Around → Type 0
MeetsAbove minh a none r w =
    (w.above ≡ none)
    × (minh ≤ℤ dy w.here)
    × (IsLarger w.here.min_y r.min_y a.min_y ⊎ (dy w.here ≤ℤ minh))
MeetsAbove minh a (some p) r w =
    (q : Rectangle) × (w.above ≡ some q)
    × (q.max_y ≡ w.here.min_y)
    × (q.min_y ≡ p.min_y)
    × (minh ≤ℤ dy q)
    × IsLarger w.here.min_y r.min_y (p.min_y +ℤ minh)

abbrev pub MeetsBelow : ℤ → Rectangle → Option Rectangle → Rectangle → Around → Type 0
MeetsBelow minh a none r w =
    (w.below ≡ none)
    × (minh ≤ℤ dy w.here)
    × (IsSmaller w.here.max_y r.max_y a.max_y ⊎ (dy w.here ≤ℤ minh))
MeetsBelow minh a (some n) r w =
    (q : Rectangle) × (w.below ≡ some q)
    × (q.min_y ≡ w.here.max_y)
    × (q.max_y ≡ n.max_y)
    × (minh ≤ℤ dy q)
    × IsSmaller w.here.max_y r.max_y (n.max_y -ℤ minh)

-- Between two neighbours the frame's height is not negative, unless the asked rectangle is upside down,
-- ends above where the frame has to start or starts below where it has to end, or the neighbours at
-- their least height leave nothing between them.
abbrev pub NotCrossed : ℤ → Option Rectangle → Option Rectangle → Rectangle → Around → Type 0
NotCrossed minh none n r w = minh ≤ℤ dy w.here
NotCrossed minh (some p) none r w = minh ≤ℤ dy w.here
NotCrossed minh (some p) (some n) r w =
    (w.here.min_y ≤ℤ w.here.max_y)
    ⊎ ((r.max_y <ℤ r.min_y)
        ⊎ ((r.max_y <ℤ (p.min_y +ℤ minh))
            ⊎ (((n.max_y -ℤ minh) <ℤ r.min_y) ⊎ ((n.max_y -ℤ minh) <ℤ (p.min_y +ℤ minh)))))

pub max-min : (a b c d : ℤ) → (max a b ≤ℤ min c d) ⊎ ((c <ℤ a) ⊎ ((c <ℤ b) ⊎ ((d <ℤ a) ⊎ (d <ℤ b))))
unfolding max min
max-min a b c d = ground arith

pub ge-max : (a b : ℤ) → (b ≤ℤ max a b) × (a ≤ℤ max a b)
unfolding max
ge-max a b = (ground arith, ground arith)

pub le-min : (a b : ℤ) → (min a b ≤ℤ b) × (min a b ≤ℤ a)
unfolding min
le-min a b = (ground arith, ground arith)

above_high : (y p m : ℤ) → m ≤ℤ (max y (p +ℤ m) -ℤ p)
above_high y p m = let t = (ge-max y (p +ℤ m)).0 in omega (int_laws, t)

pub below_high : (y n m : ℤ) → m ≤ℤ (n -ℤ min y (n -ℤ m))
below_high y n m = let t = (le-min y (n -ℤ m)).0 in omega (int_laws, t)

pub top_high : (y b m : ℤ) → m ≤ℤ (b -ℤ min y (b -ℤ m))
top_high y b m = let t = (le-min y (b -ℤ m)).0 in omega (int_laws, t)

bottom_high : (t y m : ℤ) → m ≤ℤ (max y (t +ℤ m) -ℤ t)
bottom_high t y m = let h = (ge-max y (t +ℤ m)).0 in omega (int_laws, h)

pub max-IsLarger : (a b : ℤ) → IsLarger (max a b) a b
unfolding max
max-IsLarger a b =
    (ground arith, ground arith, if_both (λ x. (x ≡ a) ⊎ (x ≡ b)) (ltb_ℤ b a) (inl refl) (inr refl))

pub min-IsSmaller : (a b : ℤ) → IsSmaller (min a b) a b
unfolding min
min-IsSmaller a b =
    (ground arith, ground arith, if_both (λ x. (x ≡ a) ⊎ (x ≡ b)) (ltb_ℤ a b) (inl refl) (inr refl))

max-le : (a b c : ℤ) → a ≤ℤ c → b ≤ℤ c → max a b ≤ℤ c
unfolding max
max-le a b c h k = ground arith

-- The top of the first frame, and the bottom of the last one, where they are moved for the least height.
first-asked :
    (r a y m : ℤ) → IsLarger (min (max r a) (y -ℤ m)) r a ⊎ ((y -ℤ min (max r a) (y -ℤ m)) ≤ℤ m)
unfolding min
first-asked r a y m =
    if_both (λ x. IsLarger x r a ⊎ ((y -ℤ x) ≤ℤ m)) (ltb_ℤ (max r a) (y -ℤ m))
      (inl (max-IsLarger r a)) (inr (omega int_laws))

last-asked :
    (r a t m : ℤ) → IsSmaller (max (min r a) (t +ℤ m)) r a ⊎ ((max (min r a) (t +ℤ m) -ℤ t) ≤ℤ m)
unfolding max
last-asked r a t m =
    if_both (λ x. IsSmaller x r a ⊎ ((x -ℤ t) ≤ℤ m)) (ltb_ℤ (t +ℤ m) (min r a))
      (inl (min-IsSmaller r a)) (inr (omega int_laws))

-- With the last frame's bottom behind its top, as low as it is asked to be.
only-asked :
    (r a y m : ℤ) → let t = min (max r a) (y -ℤ m) in IsLarger t r a ⊎ ((max y (t +ℤ m) -ℤ t) ≤ℤ m)
unfolding min
only-asked r a y m =
    if_both (λ x. IsLarger x r a ⊎ ((max y (x +ℤ m) -ℤ x) ≤ℤ m)) (ltb_ℤ (max r a) (y -ℤ m))
      (inl (max-IsLarger r a))
      (inr
        (let h = max-le y ((y -ℤ m) +ℤ m) y (omega arith) (omega int_laws) in omega (int_laws, h)))

-- `column_resizeframe_h` lets the frame above end where the frame starts and the frame below start where
-- it ends, keeps the far edges of these where they were and each of them at least `minh` high. Beside a
-- neighbour the frame's edge is the asked one, or the first that leaves the neighbour this height. Where
-- there is none above or below, the frame is at least `minh` high, and its edge on that side is the asked
-- one, or the column's, or it is just `minh` high. Between two neighbours its height is not negative,
-- unless the asked rectangle is upside down, ends less than `minh` behind the top of the frame above or
-- starts less than `minh` before the bottom of the frame below, or these two edges are less than twice
-- `minh` apart.
pub column_resizeframe_h-Meets :
    (minh : ℤ) (a : Rectangle) (p n : Option Rectangle) (r : Rectangle)
    → MeetsAbove minh a p r (column_resizeframe_h minh a p n r)
      × MeetsBelow minh a n r (column_resizeframe_h minh a p n r)
      × NotCrossed minh p n r (column_resizeframe_h minh a p n r)
unfolding column_resizeframe_h top_for bottom_for first_top last_bottom
column_resizeframe_h-Meets minh a none none r =
    let y1 = min r.max_y a.max_y in
    let top = min (max r.min_y a.min_y) (y1 -ℤ minh) in
    let h = bottom_high top y1 minh in
    (
      (refl, h, only-asked r.min_y a.min_y y1 minh),
      (refl, h, last-asked r.max_y a.max_y top minh),
      h,
    )
column_resizeframe_h-Meets minh a none (some n) r =
    let y1 = min r.max_y (n.max_y -ℤ minh) in
    let h = top_high (max r.min_y a.min_y) y1 minh in
    (
      (refl, h, first-asked r.min_y a.min_y y1 minh),
      (
        record n { min_y = y1 },
        refl,
        refl,
        refl,
        below_high r.max_y n.max_y minh,
        min-IsSmaller r.max_y (n.max_y -ℤ minh),
      ),
      h,
    )
column_resizeframe_h-Meets minh a (some p) none r =
    let y0 = max r.min_y (p.min_y +ℤ minh) in
    let h = bottom_high y0 (min r.max_y a.max_y) minh in
    (
      (
        record p { max_y = y0 },
        refl,
        refl,
        refl,
        above_high r.min_y p.min_y minh,
        max-IsLarger r.min_y (p.min_y +ℤ minh),
      ),
      (refl, h, last-asked r.max_y a.max_y y0 minh),
      h,
    )
column_resizeframe_h-Meets minh a (some p) (some n) r =
    let y0 = max r.min_y (p.min_y +ℤ minh) in
    let y1 = min r.max_y (n.max_y -ℤ minh) in
    (
      (
        record p { max_y = y0 },
        refl,
        refl,
        refl,
        above_high r.min_y p.min_y minh,
        max-IsLarger r.min_y (p.min_y +ℤ minh),
      ),
      (
        record n { min_y = y1 },
        refl,
        refl,
        refl,
        below_high r.max_y n.max_y minh,
        min-IsSmaller r.max_y (n.max_y -ℤ minh),
      ),
      max-min r.min_y (p.min_y +ℤ minh) r.max_y (n.max_y -ℤ minh),
    )
