-- ===== src/Map/Chain.antt =====
-- Chains keyed by a number (`map_get`): the entries stand in strictly ascending order of `hash`.
use wmii.Base.{
  ℕ, ◌<◌, ◌≤◌, ◌≡◌, ◌≢◌, refl, true, false, Option, none, some, [], ◌∷◌, ◌==◌, leb, arith,
  if◌then◌else◌, get_elem?, Bool-cases, inl, inr, sym, ◌∙◌,
}
use wmii.Map.{Entry, Bucket, fresh, seek, insert_at, deref, has_hash, Found, map_getp}

module _ {ℓ} {V : Type ℓ} where
  abbrev pub Above : ℕ → Bucket V → Type 0
  Above h [] = Unit {0}
  Above h (e ∷ b) = (h < e.hash) × Above h b

  abbrev pub Ascending : Bucket V → Type 0
  Ascending [] = Unit {0}
  Ascending (e ∷ b) = Above e.hash b × Ascending b

  -- The entry that the abstract table has under a number.
  unfoldable pub find : Bucket V → ℕ → Option (Entry V)
  find [] v = none
  find (e ∷ b) v = if e.hash == v then some e else find b v

  -- The entry if its number is the one looked for.
  abbrev only : ℕ → Option (Entry V) → Option (Entry V)
  only v none = none
  only v (some e) = if e.hash == v then some e else none

  find-Above : (h v : ℕ) (b : Bucket V) → Above h b → v ≤ h → find b v ≡ none
  unfolding find
  find-Above h v [] k p = refl
  find-Above h v (e ∷ b) k p = ground (arith, find-Above h v b k.1 p)

  seek-find : (b : Bucket V) (v : ℕ) → Ascending b → only v (get_elem? b (seek b v)) ≡ find b v
  unfolding seek find
  seek-find [] v h = refl
  seek-find (e ∷ b) v h = elim (Bool-cases (leb v e.hash)) [
    | inl k ↦ rw k (ground (arith, find-Above e.hash v b h.0))
    | inr k ↦ rw k (ground (arith, seek-find b v h.1))
  ]

  Above-weaken : (h k : ℕ) (b : Bucket V) → h ≤ k → Above k b → Above h b
  Above-weaken h k [] p a = tt
  Above-weaken h k (e ∷ b) p a = (omega arith, Above-weaken h k b p a.1)

  -- An insertion at the place that `seek` finds.
  Above-insert :
      (h : ℕ) (b : Bucket V) (v : ℕ) (e : Entry V)
      → Above h b
      → h < e.hash
      → Above h (insert_at b (seek b v) e)
  unfolding seek insert_at
  Above-insert h [] v e a p = (p, tt)
  Above-insert h (x ∷ b) v e a p = elim (Bool-cases (leb v x.hash)) [
    | inl k ↦ rw k (p, a)
    | inr k ↦ rw k (a.0, Above-insert h b v e a.1 p)
  ]

  less :
      (e : Entry V) (b : Bucket V) (v : ℕ)
      → leb v e.hash ≡ true
      → has_hash v (get_elem? (e ∷ b) (seek (e ∷ b) v)) ≡ false
      → v < e.hash
  unfolding seek
  less e b v k n = let n' : has_hash v (some e) ≡ false = rw k at n in ground arith

  -- An insertion under a new number keeps the order, is found under its number, and moves no other.
  record Inserts (b : Bucket V) (v : ℕ) (b' : Bucket V) : Type ℓ where
    ordered : Ascending b'
    there : get_elem? b' (seek b v) ≡ some (fresh v none)
    self : find b' v ≡ some (fresh v none)
    others : (w : ℕ) → w ≢ v → find b' w ≡ find b w

  insert-Inserts :
      (b : Bucket V) (v : ℕ)
      → Ascending b
      → has_hash v (get_elem? b (seek b v)) ≡ false
      → Inserts b v (insert_at b (seek b v) (fresh v none))
  unfolding find seek insert_at
  insert-Inserts [] v h n = record {
    ordered = (tt, tt);
    there = refl;
    self = ground arith;
    others = λ w k. ground arith;
  }
  insert-Inserts (e ∷ b) v h n = elim (Bool-cases (leb v e.hash)) [
    | inl k ↦
        let lt : v < e.hash = less e b v k n in
        rw k (record {
          ordered = ((lt, Above-weaken v e.hash b (omega arith) h.0), h);
          there = rw k refl;
          self = ground arith;
          others = λ w p. ground arith;
        })
    | inr k ↦ rw k (
        let n' : has_hash v (get_elem? b (seek b v)) ≡ false = rw k at n in
        let ih = insert-Inserts b v h.1 n' in
        record {
          ordered = (Above-insert e.hash b v (fresh v none) h.0 (ground arith), ih.ordered);
          there = rw k ih.there;
          self = ground (arith, ih.self);
          others = λ w p. ground (arith, ih.others w p);
        })
  ]

  has_hash-only : (v : ℕ) (o : Option (Entry V)) → has_hash v o ≡ true → o ≡ only v o
  has_hash-only v none h = cc
  has_hash-only v (some e) h = rw h

  only-none : (v : ℕ) (o : Option (Entry V)) → has_hash v o ≡ false → only v o ≡ none
  only-none v none h = refl
  only-none v (some e) h = rw h

  some-none : (o : Option (Entry V)) (v : ℕ) → has_hash v o ≡ true → o ≢ none
  some-none none v h p = cc
  some-none (some e) v h p = cc

  none-some : (e : Entry V) → none ≢ some e
  none-some e p = cc

  -- What `map_getp` answers with and without `create`.
  pub record Gets (b : Bucket V) (v : ℕ) (looked made : Found V) : Type ℓ where
    pub kept : looked.bucket ≡ b
    pub answer : deref b looked.place ≡ find b v
    pub ordered : Ascending made.bucket
    pub created : deref made.bucket made.place ≡ find made.bucket v
    pub under : (e : Entry V) → find b v ≡ some e → find made.bucket v ≡ some e
    pub new : find b v ≡ none → find made.bucket v ≡ some (fresh v none)
    pub others : (w : ℕ) → w ≢ v → find made.bucket w ≡ find b w

  -- On an ascending chain `map_getp` without `create` changes nothing and points to the entry under
  -- the number, or to nil if there is none; with `create` the chain stays ascending, the pointer is at
  -- the entry under the number, which is the old one if there was one and a fresh one if not, and
  -- every other number keeps its entry.
  pub map_getp-Gets :
      (b : Bucket V) (v : ℕ) → Ascending b → Gets b v (map_getp b v false) (map_getp b v true)
  unfolding map_getp
  map_getp-Gets b v h = elim (Bool-cases (has_hash v (get_elem? b (seek b v)))) [
    | inl k ↦
        let e = has_hash-only v (get_elem? b (seek b v)) k ∙ seek-find b v h in
        rw k (record {
          kept = refl;
          answer = e;
          ordered = h;
          created = e;
          under = λ x p. p;
          new = λ p. absurd (some-none (get_elem? b (seek b v)) v k (e ∙ p));
          others = λ w p. refl;
        })
    | inr k ↦
        let i = insert-Inserts b v h k in
        let n : find b v ≡ none = sym (seek-find b v h) ∙ only-none v (get_elem? b (seek b v)) k in
        rw k (record {
          kept = refl;
          answer = sym n;
          ordered = i.ordered;
          created = i.there ∙ sym i.self;
          under = λ x p. absurd (none-some x (sym n ∙ p));
          new = λ p. i.self;
          others = i.others;
        })
  ]
