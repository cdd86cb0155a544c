-- ===== src/Keys/Sequence.antt =====
-- The strokes of a binding fire it.
use wmii.Base.{
  ◌≡◌, refl, sym, ap, ◌∙◌, subst, Bool, true, false, not, ◌||◌, List, [], ◌∷◌, ◌++◌, Option, none,
  some, if◌then◌else◌, arith, Bool-cases, ◌⊎◌, inl, inr,
}
use wmii.Keys.{
  Stroke, Key, passed_on, same_stroke, step_key, advance, push_match, match_keys, Reply, fired,
  by_next, answer, kpress_seq, kpress,
}

abbrev pub strokes : Key → List Stroke
strokes k = k.first ∷ k.next

-- Both sequences have a stroke at some place, and it is not the same: neither begins the other.
unfoldable pub apart : List Stroke → List Stroke → Bool
unfolding same_stroke
apart [] ts = false
apart (s ∷ ss) [] = false
apart (s ∷ ss) (t ∷ ts) = not (same_stroke s t) || apart ss ts

abbrev pub Every : (Key → Type 0) → List Key → Type 0
Every P [] = Unit
Every P (k ∷ ks) = P k × Every P ks

-- The binding stands at one place of the list, and `P` holds of every other.
abbrev pub Once : (Key → Type 0) → Key → List Key → Type 0
Once P b [] = ⊥
Once P b (k ∷ ks) = ((k ≡ b) × Every P ks) ⊎ (P k × Once P b ks)

abbrev pub Apart : Key → Key → Type 0
Apart b k = apart (strokes k) (strokes b) ≡ true

-- No stroke of the sequence is followed by the same stroke.
abbrev pub NoDouble : Stroke → List Stroke → Type 0
NoDouble s [] = Unit
NoDouble s (t ∷ ts) = (same_stroke s t ≡ false) × NoDouble t ts

-- Apart, but for the stroke that both stand at: what holds of the keys that have matched so far.
abbrev Alike : Key → Key → Type 0
Alike b k = Apart b k × (same_stroke k.first b.first ≡ true)

same_stroke_refl : (s : Stroke) → same_stroke s s ≡ true
unfolding same_stroke
same_stroke_refl s = ground arith

same_stroke_eq : (s t : Stroke) → same_stroke s t ≡ true → s ≡ t
unfolding same_stroke
same_stroke_eq s t h = ground arith

apart_nil : (ss : List Stroke) → apart ss [] ≡ false
unfolding apart
apart_nil [] = refl
apart_nil (s ∷ ss) = refl

-- One call of `match_keys`, from `b` at one stroke to `b'` at the stroke that is pressed.
module _ (seq : Bool) (b b' : Key) (P : Key → Type 0) (steps : advance seq b ≡ some b')
    (moves : (k k' : Key)
      → P k
      → advance seq k ≡ some k'
      → same_stroke k'.first b'.first ≡ true
      → Apart b' k') where
  push_match-Every :
      (k : Key) (o : Option Key) (found : List Key)
      → advance seq k ≡ o
      → P k
      → Every (Alike b') found
      → Every (Alike b') (push_match b'.first o found)
  push_match-Every k none found e p h = h
  push_match-Every k (some k') found e p h = elim (Bool-cases (same_stroke k'.first b'.first)) [
    | inl t ↦ rw t ((moves k k' p e t, t), h)
    | inr t ↦ rw t h
  ]

  push_match-Once :
      (k : Key) (o : Option Key) (found : List Key)
      → advance seq k ≡ o
      → P k
      → Once (Alike b') b' found
      → Once (Alike b') b' (push_match b'.first o found)
  push_match-Once k none found e p h = h
  push_match-Once k (some k') found e p h = elim (Bool-cases (same_stroke k'.first b'.first)) [
    | inl t ↦ rw t (inr ((moves k k' p e t, t), h))
    | inr t ↦ rw t h
  ]

  push_match-this :
      (found : List Key)
      → Every (Alike b') found
      → Once (Alike b') b' (push_match b'.first (advance seq b) found)
  push_match-this found h =
      subst (λ o. Once (Alike b') b' (push_match b'.first o found)) (sym steps)
        (rw (same_stroke_refl b'.first) (inl (refl, h)))

  match_keys-after :
      (ks found : List Key)
      → Every P ks
      → Once (Alike b') b' found
      → Once (Alike b') b' (match_keys seq b'.first ks found)
  unfolding match_keys
  match_keys-after [] found p h = h
  match_keys-after (k ∷ ks) found (p, ps) h =
      match_keys-after ks (push_match b'.first (advance seq k) found) ps
        (push_match-Once k (advance seq k) found refl p h)

  match_keys-Once :
      (ks found : List Key)
      → Once P b ks
      → Every (Alike b') found
      → Once (Alike b') b' (match_keys seq b'.first ks found)
  unfolding match_keys
  match_keys-Once [] found o h = absurd o
  match_keys-Once (k ∷ ks) found (inl (e, ps)) h =
      match_keys-after ks (push_match b'.first (advance seq k) found) ps (
        subst (λ u. Once (Alike b') b' (push_match b'.first (advance seq u) found)) (sym e)
          (push_match-this found h))
  match_keys-Once (k ∷ ks) found (inr (p, o)) h =
      match_keys-Once ks (push_match b'.first (advance seq k) found) o
        (push_match-Every k (advance seq k) found refl p h)

-- What `answer` does once the binding is among the keys found.
module _ (b : Key) (go : Key → List Key → Reply × List Stroke) (input : List Stroke) where
  Alike-end : (k : Key) → b.next ≡ [] → Alike b k → ⊥
  unfolding apart
  Alike-end k e (p, q) =
      let t : apart k.next b.next ≡ false = ap (apart k.next) e ∙ apart_nil k.next in
      ground (arith, t)

  answer-fired :
      (l : List Key) → b.next ≡ [] → Once (Alike b) b l → answer go input l ≡ (fired b.name, input)
  answer-fired [] e o = absurd o
  answer-fired (k ∷ []) e (inl (h, ps)) =
      ap (λ u. by_next u (go u []) input u.next) h ∙ ap (by_next b (go b []) input) e
  answer-fired (k ∷ []) e (inr (p, o)) = absurd o
  answer-fired (k ∷ (l ∷ ks)) e (inl (h, (p, ps))) = absurd (Alike-end l e p)
  answer-fired (k ∷ (l ∷ ks)) e (inr (p, o)) = absurd (Alike-end k e p)

  answer-waits :
      (l : List Key) (s : Stroke) (ss : List Stroke)
      → b.next ≡ s ∷ ss
      → Once (Alike b) b l
      → (k : Key) × (ks : List Key) × (l ≡ k ∷ ks) × (answer go input l ≡ go k ks)
  answer-waits [] s ss e o = absurd o
  answer-waits (k ∷ []) s ss e (inl (h, ps)) =
      (k, [], refl, ap (by_next k (go k []) input) (ap (λ u. u.next) h ∙ e))
  answer-waits (k ∷ []) s ss e (inr (p, o)) = absurd o
  answer-waits (k ∷ (l ∷ ks)) s ss e o = (k, (l ∷ ks), refl, refl)

strokes_of : Option Key → List Stroke
strokes_of none = []
strokes_of (some k) = strokes k

-- A key that has moved on has the strokes that were left.
step_key-strokes : (k k' : Key) (ss : List Stroke) → step_key k ss ≡ some k' → ss ≡ strokes k'
unfolding strokes_of
step_key-strokes k k' [] e = ap strokes_of e
step_key-strokes k k' (s ∷ ss) e = ap strokes_of e

apart_tail :
    (s t : Stroke) (ss ts : List Stroke)
    → apart (s ∷ ss) (t ∷ ts) ≡ true
    → same_stroke s t ≡ true
    → apart ss ts ≡ true
unfolding apart
apart_tail s t ss ts h e = ground arith

Alike-moves :
    (b b' : Key)
    → advance true b ≡ some b'
    → (k k' : Key) → Alike b k
    → advance true k ≡ some k'
    → same_stroke k'.first b'.first ≡ true
    → Apart b' k'
Alike-moves b b' e k k' (p, q) f g =
    subst (λ ts. apart (strokes k') ts ≡ true) (step_key-strokes b b' b.next e)
      (subst (λ ss. apart ss b.next ≡ true) (step_key-strokes k k' k.next f)
        (apart_tail k.first b.first k.next b.next p q))

Once-first : (b k : Key) (ks : List Key) → Once (Alike b) b (k ∷ ks) → k.first ≡ b.first
Once-first b k ks (inl (e, h)) = ap (λ u. u.first) e
Once-first b k ks (inr ((p, q), h)) = same_stroke_eq k.first b.first q

kpress_seq-step :
    (b k : Key) (ks : List Key) (s : Stroke) (ss input : List Stroke)
    → b.next ≡ s ∷ ss
    → same_stroke b.first s ≡ false
    → Once (Alike b) b (k ∷ ks)
    → let b' : Key = record b { first = s; next = ss } in
      let l = match_keys true s (k ∷ ks) [] in
      (kpress_seq (s ∷ input) k ks ≡ answer (kpress_seq input) input l) × Once (Alike b') b' l
unfolding kpress_seq
kpress_seq-step b k ks s ss input e d o =
    let b' : Key = record b { first = s; next = ss } in
    let l = match_keys true s (k ∷ ks) [] in
    let other : same_stroke k.first s ≡ false =
      ap (λ u. same_stroke u s) (Once-first b k ks o) ∙ d in
    let moved : advance true b ≡ some b' = ap (step_key b) e in
    (
      ap (λ c. if c then (passed_on s, input) else answer (kpress_seq input) input l) other,
      match_keys-Once true b b' (Alike b) moved (Alike-moves b b' moved) (k ∷ ks) [] o tt,
    )

-- With the other keys alike so far, the strokes that are left fire the binding.
kpress_seq-fires :
    (b k : Key) (ks : List Key) (s : Stroke) (ss rest : List Stroke)
    → b.next ≡ s ∷ ss
    → NoDouble b.first (s ∷ ss)
    → Once (Alike b) b (k ∷ ks)
    → kpress_seq (s ∷ (ss ++ rest)) k ks ≡ (fired b.name, rest)
kpress_seq-fires b k ks s [] rest e (d, ds) o =
    let b' : Key = record b { first = s; next = [] } in
    let (eq, once) = kpress_seq-step b k ks s [] rest e d o in
    eq ∙ answer-fired b' (kpress_seq rest) rest (match_keys true s (k ∷ ks) []) refl once
kpress_seq-fires b k ks s (t ∷ ss) rest e (d, ds) o =
    let b' : Key = record b { first = s; next = t ∷ ss } in
    let input = t ∷ (ss ++ rest) in
    let l = match_keys true s (k ∷ ks) [] in
    let (eq, once) = kpress_seq-step b k ks s (t ∷ ss) input e d o in
    let (k', ks', same, waits) = answer-waits b' (kpress_seq input) input l t ss refl once in
    eq ∙ waits ∙ kpress_seq-fires b' k' ks' t ss rest refl ds (subst (Once (Alike b') b') same once)

plain_moves :
    (b k k' : Key)
    → Apart b k
    → advance false k ≡ some k'
    → same_stroke k'.first b.first ≡ true
    → Apart b k'
unfolding strokes_of
plain_moves b k k' p e g = subst (λ ss. apart ss (strokes b) ≡ true) (ap strokes_of e) p

first_press :
    (b : Key) (keys : List Key) (input : List Stroke)
    → Once (Apart b) b keys
    → let l = match_keys false b.first keys [] in
      (kpress keys b.first input ≡ answer (kpress_seq input) input l) × Once (Alike b) b l
unfolding kpress
first_press b [] input o = absurd o
first_press b (k ∷ ks) input o =
    (refl, match_keys-Once false b b (Apart b) refl (plain_moves b) (k ∷ ks) [] o tt)

after_first :
    (b : Key) (keys : List Key) (next rest : List Stroke)
    → b.next ≡ next
    → NoDouble b.first next
    → Once (Apart b) b keys
    → kpress keys b.first (next ++ rest) ≡ (fired b.name, rest)
after_first b keys [] rest e d o =
    let (eq, once) = first_press b keys rest o in
    eq ∙ answer-fired b (kpress_seq rest) rest (match_keys false b.first keys []) e once
after_first b keys (s ∷ ss) rest e d o =
    let input = s ∷ (ss ++ rest) in
    let l = match_keys false b.first keys [] in
    let (eq, once) = first_press b keys input o in
    let (k', ks', same, waits) = answer-waits b (kpress_seq input) input l s ss e once in
    eq ∙ waits ∙ kpress_seq-fires b k' ks' s ss rest e d (subst (Once (Alike b) b) same once)

-- Where a binding stands once among the bindings, no other begins with its strokes or is a beginning of
-- them, and no stroke of it follows the same stroke, pressing its strokes fires it: `kpress` takes just
-- these strokes and raises the event of its name.
pub kpress-fires :
    (b : Key) (keys : List Key) (rest : List Stroke)
    → Once (Apart b) b keys
    → NoDouble b.first b.next
    → kpress keys b.first (b.next ++ rest) ≡ (fired b.name, rest)
kpress-fires b keys rest o d = after_first b keys b.next rest refl d o
