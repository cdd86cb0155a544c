-- ===== src/Layout/Links/Remove.antt =====
-- unlinking a frame deletes it from the list.
use wmii.Base.{
  ℕ, ◌≡◌, ◌≢◌, refl, true, false, Option, none, some, List, [], ◌∷◌, ◌++◌, ◌==◌, if◌then◌else◌,
  arith, ap, sym, ◌∙◌, subst,
}
use wmii.Layout.Links.{Links, put, put_at, same}
use wmii.Layout.Links.Lists.{
  Fresh, Distinct, Seg, Linked, Apart, put_same, put_other, Linked-put_next, Linked-put_prev,
  Seg-put_next, Seg-put_prev, Linked-split, Linked-join, Linked-enter, Distinct-append, Apart-cons,
  Seg-put_head,
}

-- The last frame of a segment that is not empty.
abbrev Last : List ℕ → Option ℕ → Type 0
Last xs z =
    (k : ℕ) × (z ≡ some k)
    × ((ys : List ℕ) → Apart xs ys → Fresh k ys)
    × ((y : ℕ) → Fresh y xs → (y == k) ≡ false)

Last-of :
    (N P : Links) (p h : Option ℕ) (x : ℕ) (xs : List ℕ) (e z : Option ℕ)
    → Seg N P p h (x ∷ xs) e z
    → Last (x ∷ xs) z
Last-of N P p h x [] e z (a, b, (c, d)) = (x, sym d, (λ ys r. r.0), λ y r. r.0)
Last-of N P p h x (x2 ∷ xs) e z (a, b, c) =
    let (k, q, m, n) = Last-of N P (some x) (N x) x2 xs e z c in
    (k, q, (λ ys r. m ys r.1), λ y r. n y r.1)

-- The last frame's link is written: the segment leaves for elsewhere.
Seg-exit :
    (N P : Links) (p h : Option ℕ) (x : ℕ) (xs : List ℕ) (e z : Option ℕ) (v : Option ℕ)
    → Distinct (x ∷ xs)
    → Seg N P p h (x ∷ xs) e z
    → Seg (put_at N z v) P p h (x ∷ xs) v z
unfolding put_at
Seg-exit N P p h x [] e z v d (a, b, (c, q)) =
    (a, b, (subst (λ t. put_at N t v x ≡ v) q (put_same N x v), q))
Seg-exit N P p h x (x2 ∷ xs) e z v (n, d) (a, b, c) =
    let (k, q, m, o) = Last-of N P (some x) (N x) x2 xs e z c in
    let g : put_at N z v x ≡ N x =
      subst (λ t. put_at N t v x ≡ N x) (sym q) (put_other N k x v (ground (arith, o x n))) in
    (
      a,
      b,
      subst (λ t. Seg (put_at N z v) P (some x) t (x2 ∷ xs) v z) (sym g)
          (Seg-exit N P (some x) (N x) x2 xs e z v d c),
    )

module _ (N P : Links) (f : ℕ) (z n0 : Option ℕ) where
  abbrev pub next_out : Links
  next_out = put (put_at N z n0) f none

  abbrev pub prev_out : Links
  prev_out = put (put_at P n0 z) f none

  -- The frames behind `f` are entered from before it.
  remove-Linked :
      (ys : List ℕ)
      → Fresh f ys
      → ((k : ℕ) → z ≡ some k → Fresh k ys)
      → Distinct ys
      → Linked N P (some f) n0 ys
      → Linked next_out prev_out z n0 ys
  unfolding put_at
  remove-Linked ys n m d w =
      let N1 = put_at N z n0 in
      let P1 = put_at P n0 z in
      let w1 = put_at-Linked z m in
      let w2 = Linked-enter N1 P (some f) z n0 ys d w1 in
      let w3 = Linked-put_next N1 P1 z n0 ys f none n w2 in
      Linked-put_prev (put N1 f none) P1 z n0 ys f none n w3
    where
      put_at-Linked :
          (t : Option ℕ)
          → ((k : ℕ) → t ≡ some k → Fresh k ys)
          → Linked (put_at N t n0) P (some f) n0 ys
      put_at-Linked none m = w
      put_at-Linked (some k) m = Linked-put_next N P (some f) n0 ys k n0 (m k refl) w

  -- The frames before `f` leave for behind it.
  remove-Seg :
      (h : Option ℕ) (x : ℕ) (xs ys : List ℕ)
      → Fresh f (x ∷ xs)
      → Distinct (x ∷ xs)
      → Apart (x ∷ xs) ys
      → Linked N P (some f) n0 ys
      → Seg N P none h (x ∷ xs) (some f) z
      → Seg next_out prev_out none h (x ∷ xs) n0 z
  remove-Seg h x xs ys n d ap l s =
      let N1 = put_at N z n0 in
      let P1 = put_at P n0 z in
      let s1 = Seg-exit N P none h x xs (some f) z n0 d s in
      let s2 = Seg-put_head N1 P none h (x ∷ xs) n0 z N P (some f) n0 ys z ap l s1 in
      let s3 = Seg-put_next N1 P1 none h (x ∷ xs) n0 z f none n s2 in
      Seg-put_prev (put N1 f none) P1 none h (x ∷ xs) n0 z f none n s3

eq_self : (f : ℕ) → (f == f) ≡ true
eq_self f = ground arith

some-none : (k : ℕ) → some k ≢ none
some-none k e = cc

head_moves : (f : ℕ) (h v : Option ℕ) → h ≡ some f → (if same (some f) h then v else h) ≡ v
head_moves f none v e = absurd (some-none f (sym e))
head_moves f (some g) v e = let t : f ≡ g = cc e in rw (sym t, eq_self f) refl

head_stays :
    (f x : ℕ) (h v : Option ℕ)
    → h ≡ some x
    → (f == x) ≡ false
    → (if same (some f) h then v else h) ≡ h
head_stays f x none v e n = refl
head_stays f x (some g) v e n = let t : x ≡ g = cc e in rw (sym t, n) refl

-- `f` is unlinked from a list whose head is `h`.
pub unlink-deletes :
    (N P : Links) (h : Option ℕ) (f : ℕ) (xs ys : List ℕ)
    → Distinct (xs ++ (f ∷ ys))
    → Linked N P none h (xs ++ (f ∷ ys))
    → Linked
        (next_out N P f (P f) (N f))
        (prev_out N P f (P f) (N f))
        none
        (if same (some f) h then N f else h)
        (xs ++ ys)
unlink-deletes N P h f [] ys (n, d) (e, p, w) =
    let t = remove-Linked N P f (P f) (N f) ys n (λ k e. absurd (some-none k (sym e ∙ p))) d w in
    subst (λ g. Linked (next_out N P f (P f) (N f)) (prev_out N P f (P f) (N f)) none g ys)
      (sym (head_moves f h (N f) e))
      (subst (λ q. Linked (next_out N P f (P f) (N f)) (prev_out N P f (P f) (N f)) q (N f) ys) p t)
unlink-deletes N P h f (x ∷ xs) ys d w =
    let (s, l) = Linked-split N P none h (x ∷ xs) f ys w in
    let (dx, (fy, dy), ap) = Distinct-append (x ∷ xs) (f ∷ ys) d in
    let (fx, ax) = Apart-cons (x ∷ xs) f ys ap in
    let (k, q, m, o) = Last-of N P none h x xs (some f) (P f) s in
    let t =
      Linked-join (next_out N P f (P f) (N f)) (prev_out N P f (P f) (N f)) none h (x ∷ xs) ys (N f)
        (P f) (remove-Seg N P f (P f) (N f) h x xs ys fx dx ax l s)
        (remove-Linked N P f (P f) (N f) ys fy
          (λ j e. (let g : k ≡ j = cc (q, e) in subst (λ i. Fresh i ys) g (m ys ax))) dy l) in
    subst
      (λ g.
        Linked (next_out N P f (P f) (N f)) (prev_out N P f (P f) (N f)) none g (x ∷ (xs ++ ys)))
      (sym (head_stays f x h (N f) s.0 fx.0)) t
