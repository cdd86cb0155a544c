-- ===== src/Util/Tokens/Agree.antt =====
-- What `tokenize` and `stokenize` store are the fields of the text.
use Prim.Native.Nat.{min}
use wmii.Base.{
  append_nil, ℕ, zero, suc, ◌+◌, ◌<◌, ◌≤◌, ◌≡◌, refl, Bool, List, [], ◌∷◌, ◌++◌, arith, ◌==◌,
  Bool-cases, ◌⊎◌, inl, inr, length, ap, take, ◌∙◌, sym,
}
use wmii.Base.Str.{CString, contains}
use wmii.Util.Tokens.{run, skip, keep, tokens, tokenize, stokenize, fields}

module _ (is_delim : ℕ → Bool) where
  skip-length : (s : CString) → length (skip is_delim s) ≤ length s
  unfolding skip
  skip-length [] = omega arith
  skip-length (c ∷ s) = ground (arith, skip-length s)

  fields-skip : (s : CString) → fields is_delim [] s ≡ fields is_delim [] (skip is_delim s)
  unfolding fields skip
  fields-skip [] = refl
  fields-skip (c ∷ s) = ground (arith, fields-skip s)

  append_cons : (cur tok : CString) (c : ℕ) → (cur ++ (c ∷ [])) ++ tok ≡ cur ++ (c ∷ tok)
  append_cons [] tok c = refl
  append_cons (d ∷ cur) tok c = ap (λ l. d ∷ l) (append_cons cur tok c)

  fields-run :
      (cur s : CString)
      → fields is_delim cur s
        ≡ keep (cur ++ (run is_delim s).0) (fields is_delim [] (run is_delim s).1)
  unfolding fields run
  fields-run cur [] = rw (append_nil cur)
  fields-run cur (c ∷ s) = elim (Bool-cases (is_delim c)) [
    | inl e ↦ rw (e, append_nil cur) (rw (e, fields))
    | inr e ↦ rw (e, fields-run (cur ++ (c ∷ [])) s, append_cons cur (run is_delim s).0 c)
  ]

  -- The first token of a text whose delimiters are skipped, and the fields behind it.
  fields-first :
      (s : CString)
      → fields is_delim [] s
        ≡ keep
            (run is_delim (skip is_delim s)).0
            (fields is_delim [] (run is_delim (skip is_delim s)).1)
  fields-first s = fields-skip s ∙ fields-run [] (skip is_delim s)

  run-length : (s : CString) → length (run is_delim s).0 + length (run is_delim s).1 ≡ length s
  unfolding run
  run-length [] = omega arith
  run-length (c ∷ s) = ground (arith, run-length s)

  -- The text that `skip` leaves does not begin with a delimiter.
  skip-head : (s : CString) → (run is_delim (skip is_delim s)).0 ≡ [] → skip is_delim s ≡ []
  unfolding run skip
  skip-head [] h = refl
  skip-head (c ∷ s) h = ground (arith, skip-head s)

  skip_nil : skip is_delim [] ≡ []
  unfolding skip
  skip_nil = refl

  -- Each round takes at least a byte.
  round-less : (c : ℕ) (s : CString) → length (run is_delim (skip is_delim (c ∷ s))).1 ≤ length s
  unfolding run skip
  round-less c s = elim (Bool-cases (is_delim c)) [
    | inl e ↦ rw e (omega (arith, run-length (skip is_delim s), skip-length s))
    | inr e ↦ rw (e, run) (rw e (omega (arith, run-length s)))
  ]

  -- What the fields of a text are, by whether its first token is there.
  first-keep :
      (s : CString) → (skip is_delim s ≡ []) ⊎ (1 ≤ length (run is_delim (skip is_delim s)).0)
  first-keep s = first-case (run is_delim (skip is_delim s)).0 refl
    where
      first-case :
          (t : CString)
          → (run is_delim (skip is_delim s)).0 ≡ t
          → (skip is_delim s ≡ []) ⊎ (1 ≤ length (run is_delim (skip is_delim s)).0)
      first-case [] e = inl (skip-head s e)
      first-case (c ∷ t) e = inr (rw e (omega arith))

  fields-none : (s : CString) → skip is_delim s ≡ [] → fields is_delim [] s ≡ []
  unfolding fields
  fields-none s e = fields-skip s ∙ ap (fields is_delim []) e

length-keep :
    (t : CString) (ts : List CString) → 1 ≤ length t → length (keep t ts) ≡ suc (length ts)
length-keep [] ts h = absurd (omega arith)
length-keep (c ∷ t) ts h = refl

take-keep :
    (n : ℕ) (t : CString) (ts us : List CString)
    → take n ts ≡ take n us
    → 1 ≤ length t
    → take (suc n) (keep t ts) ≡ take (suc n) (keep t us)
take-keep n [] ts us e h = absurd (omega arith)
take-keep n (c ∷ t) ts us e h = ap (λ l. (c ∷ t) ∷ l) e

-- Tokens and fields agree up to the last place of `res`, and in number.
record Agree (n : ℕ) (ts fs : List CString) : Type 0 where
  same : take n ts ≡ take n fs
  number : length ts ≡ min (suc n) (length fs)

module _ (is_delim : ℕ → Bool) where
  tokens-nil : (fuel room : ℕ) → tokens is_delim fuel room [] ≡ []
  unfolding tokens
  tokens-nil zero room = refl
  tokens-nil (suc fuel) zero = refl
  tokens-nil (suc fuel) (suc zero) = refl
  tokens-nil (suc fuel) (suc (suc room)) = refl

  Agree-none :
      (fuel n : ℕ) (s : CString)
      → skip is_delim s ≡ []
      → Agree n (tokens is_delim fuel (suc n) s) (fields is_delim [] s)
  unfolding tokens
  Agree-none zero n s e =
      rw (fields-none is_delim s e) (record { same = refl; number = omega arith })
  Agree-none (suc fuel) zero s e =
      rw (fields-none is_delim s e) (rw e (record { same = refl; number = omega arith }))
  Agree-none (suc fuel) (suc n) [] e =
      rw (fields-none is_delim [] e) (record { same = refl; number = omega arith })
  Agree-none (suc fuel) (suc n) (c ∷ s) e =
      rw (fields-none is_delim (c ∷ s) e)
        (rw e (rw (tokens-nil fuel (suc n)) (record { same = refl; number = omega arith })))

  Agree-last :
      (fuel : ℕ) (s : CString)
      → 1 ≤ length (run is_delim (skip is_delim s)).0
      → Agree 0 (tokens is_delim (suc fuel) 1 s) (fields is_delim [] s)
  unfolding tokens
  Agree-last fuel s h =
      let (tok, q) = run is_delim (skip is_delim s) in
      record {
        same = refl;
        number = rw (fields-first is_delim s) (
            omega (
              arith,
              length-keep (skip is_delim s) []
                  (omega (arith, run-length is_delim (skip is_delim s))),
              length-keep tok (fields is_delim [] q) h,
            ));
      }

  Agree-step :
      (fuel n c : ℕ) (s : CString)
      → 1 ≤ length (run is_delim (skip is_delim (c ∷ s))).0
      → (let q = (run is_delim (skip is_delim (c ∷ s))).1 in
          Agree n (tokens is_delim fuel (suc n) q) (fields is_delim [] q))
      → Agree
          (suc n)
          (tokens is_delim (suc fuel) (suc (suc n)) (c ∷ s))
          (fields is_delim [] (c ∷ s))
  unfolding tokens
  Agree-step fuel n c s h ih =
      let (tok, q) = run is_delim (skip is_delim (c ∷ s)) in
      rw (fields-first is_delim (c ∷ s)) (record {
        same = take-keep n tok (tokens is_delim fuel (suc n) q) (fields is_delim [] q) ih.same h;
        number = omega (
          arith,
          length-keep tok (tokens is_delim fuel (suc n) q) h,
          length-keep tok (fields is_delim [] q) h,
          ih.number,
        );
      })

  some_token :
      (fuel n : ℕ) (s : CString)
      → length s < suc fuel
      → 1 ≤ length (run is_delim (skip is_delim s)).0
      → ((k : ℕ) (t : CString)
          → length t < fuel
          → Agree k (tokens is_delim fuel (suc k) t) (fields is_delim [] t))
      → Agree n (tokens is_delim (suc fuel) (suc n) s) (fields is_delim [] s)
  some_token fuel zero s m h ih = Agree-last fuel s h
  some_token fuel (suc n) [] m h ih = Agree-none (suc fuel) (suc n) [] (skip_nil is_delim)
  some_token fuel (suc n) (c ∷ s) m h ih =
      Agree-step fuel n c s h
        (ih n (run is_delim (skip is_delim (c ∷ s))).1 (omega (arith, round-less is_delim c s)))

  tokens-Agree :
      (fuel n : ℕ) (s : CString)
      → length s < fuel
      → Agree n (tokens is_delim fuel (suc n) s) (fields is_delim [] s)
  tokens-Agree zero n s m = absurd (omega arith)
  tokens-Agree (suc fuel) n s m = elim (first-keep is_delim s) [
    | inl e ↦ Agree-none (suc fuel) n s e
    | inr h ↦ some_token fuel n s m h (λ k t p. tokens-Agree fuel k t p)
  ]

take-long {ℓ} : {A : Type ℓ} (n : ℕ) (ts : List A) → length ts ≤ n → take n ts ≡ ts
take-long zero [] h = refl
take-long zero (t ∷ ts) h = absurd (omega arith)
take-long (suc n) [] h = refl
take-long (suc n) (t ∷ ts) h = ap (λ l. t ∷ l) (take-long n ts (omega arith))

-- A list as long as the other that agrees with it on all its places is the other.
take-all {ℓ} :
    {A : Type ℓ} (n : ℕ) (ts us : List A)
    → length ts ≤ n
    → length us ≤ n
    → take n ts ≡ take n us
    → ts ≡ us
take-all n ts us p q e = sym (take-long n ts p) ∙ e ∙ take-long n us q

-- `tokenize` stores as many tokens as the text has fields, but no more than the array holds; all but
-- the last place of the array are the fields, and where the array is longer than the fields all are.
tokenize-fields :
    (n : ℕ) (s : CString) (delim : ℕ)
    → let fs = fields (λ c. c == delim) [] s in
      let ts = tokenize (suc n) s delim in
      (length ts ≡ min (suc n) (length fs)) × (take n ts ≡ take n fs) × (length fs ≤ n → ts ≡ fs)
unfolding tokenize
tokenize-fields n s delim =
    let a = tokens-Agree (λ c. c == delim) (suc (length s)) n s (omega arith) in
    (
      a.number,
      a.same,
      λ h.
          take-all n (tokenize (suc n) s delim) (fields (λ c. c == delim) [] s)
            (omega (arith, a.number)) h a.same,
    )

-- `stokenize` stores as many tokens as the text has fields between delimiters of the set, but no more
-- than the array holds; all but the last place of the array are the fields, and where the array is
-- longer than the fields all are.
stokenize-fields :
    (n : ℕ) (s delim : CString)
    → let fs = fields (λ c. contains delim c) [] s in
      let ts = stokenize (suc n) s delim in
      (length ts ≡ min (suc n) (length fs)) × (take n ts ≡ take n fs) × (length fs ≤ n → ts ≡ fs)
unfolding stokenize
stokenize-fields n s delim =
    let a = tokens-Agree (λ c. contains delim c) (suc (length s)) n s (omega arith) in
    (
      a.number,
      a.same,
      λ h.
          take-all n (stokenize (suc n) s delim) (fields (λ c. contains delim c) [] s)
            (omega (arith, a.number)) h a.same,
    )
