-- ===== src/Layout/Links/Lists.antt =====
-- Doubly linked lists: what a chain of links stands for, and what linking and unlinking do to it.
use wmii.Base.{
  ℕ, ◌≡◌, refl, false, Option, none, some, List, [], ◌∷◌, ◌++◌, ◌==◌, arith, sym, ◌∙◌, subst,
}
use wmii.Layout.Links.{Links, put, put_at}

-- `f` is none of the list.
abbrev pub Fresh : ℕ → List ℕ → Type 0
Fresh f [] = Unit {0}
Fresh f (x ∷ l) = ((f == x) ≡ false) × Fresh f l

abbrev pub Distinct : List ℕ → Type 0
Distinct [] = Unit {0}
Distinct (x ∷ l) = Fresh x l × Distinct l

-- From `h`, entered from `p`, the links run through `l` and leave for `e` behind `z`.
abbrev pub Seg : Links → Links → Option ℕ → Option ℕ → List ℕ → Option ℕ → Option ℕ → Type 0
Seg next prev p h [] e z = (h ≡ e) × (p ≡ z)
Seg next prev p h (x ∷ l) e z = (h ≡ some x) × (prev x ≡ p) × Seg next prev (some x) (next x) l e z

-- A list that ends.
abbrev pub Linked : Links → Links → Option ℕ → Option ℕ → List ℕ → Type 0
Linked next prev p h [] = h ≡ none
Linked next prev p h (x ∷ l) = (h ≡ some x) × (prev x ≡ p) × Linked next prev (some x) (next x) l

pub put_same : (g : Links) (k : ℕ) (v : Option ℕ) → put g k v k ≡ v
unfolding put
put_same g k v = ground arith

pub put_other : (g : Links) (k j : ℕ) (v : Option ℕ) → (k == j) ≡ false → put g k v j ≡ g j
unfolding put
put_other g k j v h = ground arith

-- A write to a frame that is not of the list keeps the list.
pub Linked-put_next :
    (next prev : Links) (p h : Option ℕ) (l : List ℕ) (f : ℕ) (v : Option ℕ)
    → Fresh f l
    → Linked next prev p h l
    → Linked (put next f v) prev p h l
Linked-put_next next prev p h [] f v n w = w
Linked-put_next next prev p h (x ∷ l) f v (m, n) (a, b, c) =
    (a, b, rw (put_other next f x v m) (Linked-put_next next prev (some x) (next x) l f v n c))

pub Linked-put_prev :
    (next prev : Links) (p h : Option ℕ) (l : List ℕ) (f : ℕ) (v : Option ℕ)
    → Fresh f l
    → Linked next prev p h l
    → Linked next (put prev f v) p h l
Linked-put_prev next prev p h [] f v n w = w
Linked-put_prev next prev p h (x ∷ l) f v (m, n) (a, b, c) =
    (a, put_other prev f x v m ∙ b, Linked-put_prev next prev (some x) (next x) l f v n c)

pub Seg-put_next :
    (next prev : Links) (p h : Option ℕ) (l : List ℕ) (e z : Option ℕ) (f : ℕ) (v : Option ℕ)
    → Fresh f l
    → Seg next prev p h l e z
    → Seg (put next f v) prev p h l e z
Seg-put_next next prev p h [] e z f v n w = w
Seg-put_next next prev p h (x ∷ l) e z f v (m, n) (a, b, c) =
    (a, b, rw (put_other next f x v m) (Seg-put_next next prev (some x) (next x) l e z f v n c))

pub Seg-put_prev :
    (next prev : Links) (p h : Option ℕ) (l : List ℕ) (e z : Option ℕ) (f : ℕ) (v : Option ℕ)
    → Fresh f l
    → Seg next prev p h l e z
    → Seg next (put prev f v) p h l e z
Seg-put_prev next prev p h [] e z f v n w = w
Seg-put_prev next prev p h (x ∷ l) e z f v (m, n) (a, b, c) =
    (a, put_other prev f x v m ∙ b, Seg-put_prev next prev (some x) (next x) l e z f v n c)

-- A list is a segment up to a frame and the list from it.
pub Linked-split :
    (next prev : Links) (p h : Option ℕ) (xs : List ℕ) (f : ℕ) (ys : List ℕ)
    → Linked next prev p h (xs ++ (f ∷ ys))
    → Seg next prev p h xs (some f) (prev f) × Linked next prev (some f) (next f) ys
Linked-split next prev p h [] f ys (a, b, c) = ((a, sym b), c)
Linked-split next prev p h (x ∷ xs) f ys (a, b, c) =
    let t = Linked-split next prev (some x) (next x) xs f ys c in ((a, b, t.0), t.1)

pub Linked-join :
    (next prev : Links) (p h : Option ℕ) (xs ys : List ℕ) (e z : Option ℕ)
    → Seg next prev p h xs e z
    → Linked next prev z e ys
    → Linked next prev p h (xs ++ ys)
Linked-join next prev p h [] ys e z (a, b) w = rw (a, b) w
Linked-join next prev p h (x ∷ xs) ys e z (a, b, c) w =
    (a, b, Linked-join next prev (some x) (next x) xs ys e z c w)

-- A list entered from elsewhere, its first frame's back link set.
pub Linked-enter :
    (next prev : Links) (p q h : Option ℕ) (l : List ℕ)
    → Distinct l
    → Linked next prev p h l
    → Linked next (put_at prev h q) q h l
unfolding put_at
Linked-enter next prev p q h [] d w = w
Linked-enter next prev p q (some y) (x ∷ l) (n, d) (a, b, c) =
    let g : y ≡ x = cc a in
    (
      a,
      rw g (put_same prev x q),
      subst (λ k. Linked next (put prev k q) (some x) (next x) l) (sym g)
          (Linked-put_prev next prev (some x) (next x) l x q n c),
    )
Linked-enter next prev p q none (x ∷ l) (n, d) (a, b, c) = absurd (cc a)

-- Each frame of the first list is none of the second.
abbrev pub Apart : List ℕ → List ℕ → Type 0
Apart [] ys = Unit {0}
Apart (x ∷ xs) ys = Fresh x ys × Apart xs ys

pub Fresh-append : (f : ℕ) (xs ys : List ℕ) → Fresh f (xs ++ ys) → Fresh f xs × Fresh f ys
Fresh-append f [] ys h = (tt, h)
Fresh-append f (x ∷ xs) ys (h, k) = let t = Fresh-append f xs ys k in ((h, t.0), t.1)

pub Distinct-append :
    (xs ys : List ℕ) → Distinct (xs ++ ys) → Distinct xs × Distinct ys × Apart xs ys
Distinct-append [] ys h = (tt, h, tt)
Distinct-append (x ∷ xs) ys (h, k) =
    let f = Fresh-append x xs ys h in
    let (a, b, c) = Distinct-append xs ys k in ((f.0, a), b, (f.1, c))

pub Apart-cons : (xs : List ℕ) (y : ℕ) (ys : List ℕ) → Apart xs (y ∷ ys) → Fresh y xs × Apart xs ys
Apart-cons [] y ys h = (tt, tt)
Apart-cons (x ∷ xs) y ys ((h, k), r) =
    let t = Apart-cons xs y ys r in ((ground (arith, h), t.0), (k, t.1))

-- The head of a list that is apart from `xs` is written: `xs` stays.
pub Seg-put_head :
    (next prev : Links) (p h : Option ℕ) (xs : List ℕ) (e z : Option ℕ) (next' prev' : Links)
    (q g : Option ℕ) (ys : List ℕ) (v : Option ℕ)
    → Apart xs ys
    → Linked next' prev' q g ys
    → Seg next prev p h xs e z
    → Seg next (put_at prev g v) p h xs e z
unfolding put_at
Seg-put_head next prev p h xs e z next' prev' q none ys v a l w = w
Seg-put_head next prev p h xs e z next' prev' q (some y) [] v a l w = absurd (cc l)
Seg-put_head next prev p h xs e z next' prev' q (some y) (x ∷ ys) v a (m, n, o) w =
    let k : y ≡ x = cc m in rw k (Seg-put_prev next prev p h xs e z x v (Apart-cons xs x ys a).0 w)

pub put_head_other :
    (prev next' prev' : Links) (q g : Option ℕ) (ys : List ℕ) (v : Option ℕ) (k : ℕ)
    → Fresh k ys
    → Linked next' prev' q g ys
    → put_at prev g v k ≡ prev k
unfolding put_at
put_head_other prev next' prev' q none ys v k h w = refl
put_head_other prev next' prev' q (some y) [] v k h w = absurd (cc w)
put_head_other prev next' prev' q (some y) (x ∷ ys) v k (h, r) (m, n, o) =
    let e : y ≡ x = cc m in rw e (put_other prev x k v (ground (arith, h)))
