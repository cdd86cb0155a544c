-- ===== src/Menu/Caret.antt =====
-- Typing at the menu's caret, and deleting what was typed.
use wmii.Base.{
  append_nil, ℕ, zero, suc, ◌+◌, ◌*◌, ◌≤◌, ◌<◌, ◌≡◌, refl, Bool, true, false, none, List, [], ◌∷◌,
  ◌++◌, inl, inr, ◌==◌, ltb, if◌then◌else◌, length, take, drop, arith, ap, sym, ◌∙◌, Bool-cases,
  subst, length-append, length-take, length-drop,
}
use native.Mathlib.Nat.{suc-add, add-zero, zero-add}
use wmii.Base.Str.{CString}
use wmii.Menu.{Input, enlarge, start_from, delete_to, caret_insert}

-- Enough rounds give a size that is large enough.
pub le-enlarge :
    (fuel size need : ℕ) → 0 < size → need ≤ size + fuel → need ≤ enlarge fuel size need
unfolding enlarge
le-enlarge zero size need p h = omega arith
le-enlarge (suc fuel) size need p h =
    let t = le-enlarge fuel (size * 4) need (omega arith) (omega arith) in ground (arith, t)

module _ {ℓ} {A : Type ℓ} where
  take-append : (xs ys : List A) → take (length xs) (xs ++ ys) ≡ xs
  take-append [] ys = refl
  take-append (x ∷ xs) ys = ap (◌∷◌ x) (take-append xs ys)

  drop-append : (xs ys : List A) → drop (length xs) (xs ++ ys) ≡ ys
  drop-append [] ys = refl
  drop-append (x ∷ xs) ys = drop-append xs ys

  drop-two : (xs ys zs : List A) → drop (length xs + length ys) (xs ++ (ys ++ zs)) ≡ zs
  drop-two [] ys zs = rw (zero-add (length ys)) (drop-append ys zs)
  drop-two (x ∷ xs) ys zs = rw (suc-add (length xs) (length ys)) (drop-two xs ys zs)

one_round : (size need : ℕ) → need ≤ enlarge need (if size == 0 then 1 else size) need
one_round size need = elim (Bool-cases (size == 0)) [
  | inl e ↦ rw e (le-enlarge need 1 need (omega arith) (omega arith))
  | inr e ↦
      (let h : 0 < size = ground (arith, e) in rw e (le-enlarge need size need h (omega arith)))
]

-- `caret_insert` lengthens the text that it starts from by the string, and the buffer that it leaves has
-- room for the text and its terminating NUL.
caret_insert-fits :
    (i : Input) (s : CString) (clear : Bool)
    → (length (caret_insert i s clear).text ≡ length (start_from i clear).text + length s)
      × (length (caret_insert i s clear).text < (caret_insert i s clear).size)
unfolding caret_insert
caret_insert-fits i s clear =
    let j = start_from i clear in
    let e : length (take j.at j.text ++ (s ++ drop j.at j.text)) ≡ length j.text + length s =
      omega (
        arith,
        length-append (take j.at j.text) (s ++ drop j.at j.text),
        length-append s (drop j.at j.text),
        length-take j.at j.text,
        length-drop j.at j.text,
      ) in
    let t = one_round j.size (length j.text + length s + 1) in (e, omega (arith, e, t))

-- An input with `before` and `after` around its caret, and no selection.
abbrev pub around : CString → CString → ℕ → Input
around before after size = record {
  text = before ++ after;
  at = length before;
  at_end = none;
  size = size;
}

inserted :
    (b a s : CString) → take (length b) (b ++ a) ++ (s ++ drop (length b) (b ++ a)) ≡ b ++ (s ++ a)
inserted b a s = rw (take-append b a, drop-append b a) refl

Restores : CString → CString → Input → Type 0
Restores b a i = (i.text ≡ b ++ a) × (i.at ≡ length b)

-- Deleting back to where the insertion began.
delete-inserted :
    (b s a : CString) (size : ℕ)
    → Restores b a (
        delete_to
          (record { text = b ++ (s ++ a); at = length b + length s; at_end = none; size = size })
          (length b))
unfolding delete_to Restores
delete-inserted b [] [] size =
    let e : (length b == length (b ++ [])) ≡ true = rw (append_nil b) (ground arith) in
    rw (e, add-zero (length b)) (take-append b [] ∙ sym (append_nil b), refl)
delete-inserted b [] (c ∷ a) size =
    let e : (length b == length (b ++ (c ∷ a))) ≡ false = ground (arith, length-append b (c ∷ a)) in
    let f : ltb (length b) (length b) ≡ false = ground arith in
    rw (add-zero (length b), e, f) (rw (take-append b (c ∷ a), drop-append b (c ∷ a)) refl, refl)
delete-inserted b (c ∷ s) a size =
    let e : (length b == length (b ++ (c ∷ (s ++ a)))) ≡ false =
      ground (arith, length-append b (c ∷ (s ++ a))) in
    let f : ltb (length b) (length b + suc (length s)) ≡ true = ground arith in
    rw (e, f) (rw (take-append b (c ∷ (s ++ a)), drop-two b (c ∷ s) a) refl, refl)

-- With no selection, deleting back to where `caret_insert` put a string restores the text and the
-- caret.
pub caret_insert-delete :
    (b s a : CString) (size : ℕ)
    → ((delete_to (caret_insert (around b a size) s false) (length b)).text ≡ b ++ a)
      × ((delete_to (caret_insert (around b a size) s false) (length b)).at ≡ length b)
unfolding caret_insert start_from Restores
caret_insert-delete b s a size =
    let n =
      enlarge (length (b ++ a) + length s + 1) (if size == 0 then 1 else size)
        (length (b ++ a) + length s + 1) in
    subst
      (λ t. Restores b a (
        delete_to (record { text = t; at = length b + length s; at_end = none; size = n })
          (length b)))
      (sym (inserted b a s)) (delete-inserted b s a n)
