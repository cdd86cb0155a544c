-- ===== src/Util/Vector.antt =====
-- lib/libstuff/util/vector.c: a growing array. A cell that was never written is `none`.
use wmii.Base.{
  append_nil, ℕ, suc, ◌+◌, ◌*◌, ◌-◌, ◌<◌, ◌≡◌, refl, Option, none, some, List, [], ◌∷◌, ◌++◌, arith,
  ◌==◌, inl, inr, Bool-cases, if◌then◌else◌, length, ap, ◌∙◌, set, replicate, length-append, map,
}

pub record Vector {ℓ} (A : Type ℓ) : Type ℓ where
  pub ary : List (Option A)
  pub n : ℕ
  pub size : ℕ

abbrev pub init {ℓ} : {A : Type ℓ} → Vector A
init = record { ary = []; n = 0; size = 0 }

-- The size that a full array grows to.
bigger : ℕ → ℕ
bigger size = (if size == 0 then 2 else size) * 4

bigger-lt : (size : ℕ) → size < bigger size
unfolding bigger
bigger-lt size = ground arith

module _ {ℓ} {A : Type ℓ} where
  -- `if(v->n == v->size) { if(v->size == 0) v->size = 2; v->size <<= 2; erealloc }`
  unfoldable pub grow : Vector A → Vector A
  grow v =
      let size = (if v.size == 0 then 2 else v.size) * 4 in
      if v.n == v.size
      then record v { ary = v.ary ++ replicate (size - v.size) none; size = size }
      else v

  -- `v->ary[v->n++] = val;`
  unfoldable pub push : Vector A → A → Vector A
  unfolding grow
  push v val = let w = grow v in record w { ary = set w.ary w.n (some val); n = w.n + 1 }

  -- The array holds the values, and behind them `spare` cells that were never written.
  pub record Holds (v : Vector A) (xs : List A) : Type ℓ where
    pub spare : ℕ
    pub cells : v.ary ≡ map some xs ++ replicate spare none
    pub number : v.n ≡ length xs
    pub fits : v.size ≡ length xs + spare

  set_end :
      (xs : List A) (k : ℕ) (x : A)
      → set (map some xs ++ replicate (suc k) none) (length xs) (some x)
        ≡ map some (xs ++ (x ∷ [])) ++ replicate k none
  set_end [] k x = refl
  set_end (y ∷ xs) k x = ap (λ l. some y ∷ l) (set_end xs k x)

  full-cells :
      (v : Vector A) (xs : List A) (spare : ℕ)
      → v.ary ≡ map some xs ++ replicate spare none
      → spare ≡ 0
      → v.ary ≡ map some xs
  full-cells v xs spare e z =
      e ∙ ap (λ k. map some xs ++ replicate k none) z ∙ append_nil (map some xs)

  record Roomy (v : Vector A) (xs : List A) : Type ℓ where
    spare : ℕ
    cells : v.ary ≡ map some xs ++ replicate (suc spare) none
    number : v.n ≡ length xs
    fits : v.size ≡ length xs + suc spare

  grow-Roomy : (v : Vector A) (xs : List A) → Holds v xs → Roomy (grow v) xs
  unfolding grow bigger
  grow-Roomy v xs h = elim (Bool-cases (v.n == v.size)) [
    | inl e ↦
        let z : h.spare ≡ 0 = ground (arith, h.number, h.fits) in
        let more = bigger v.size - v.size in
        let m : more ≡ suc (more - 1) = omega (arith, bigger-lt v.size) in
        rw e (record {
          spare = more - 1;
          cells =
              ap (λ l. l ++ replicate more none) (full-cells v xs h.spare h.cells z)
              ∙ ap (λ k. map some xs ++ replicate k none) m;
          number = h.number;
          fits = omega (arith, bigger-lt v.size, h.fits);
        })
    | inr e ↦
        let m : h.spare ≡ suc (h.spare - 1) = ground (arith, h.number, h.fits) in
        rw e (record {
          spare = h.spare - 1;
          cells = h.cells ∙ ap (λ k. map some xs ++ replicate k none) m;
          number = h.number;
          fits = omega (arith, h.fits);
        })
  ]

  -- `vector_*push` on an array that holds `xs` leaves one that holds `xs` and the new value behind
  -- them: the write is inside the array, whether or not it had to grow.
  push-Holds :
      (v : Vector A) (xs : List A) (val : A) → Holds v xs → Holds (push v val) (xs ++ (val ∷ []))
  unfolding push
  push-Holds v xs val h =
      let r = grow-Roomy v xs h in
      record {
        spare = r.spare;
        cells =
            ap (λ l. set l (grow v).n (some val)) r.cells
            ∙ ap (λ i. set (map some xs ++ replicate (suc r.spare) none) i (some val)) r.number
            ∙ set_end xs r.spare val;
        number = omega (arith, r.number, length-append xs (val ∷ []));
        fits = omega (arith, r.fits, length-append xs (val ∷ []));
      }
