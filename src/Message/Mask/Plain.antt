-- ===== src/Message/Mask/Plain.antt =====
-- Text without a slash: `mask` returns on every call, and the loop over it yields the signed tokens
-- of an independent one-pass splitter.
use wmii.Base.{
  append_nil, ℕ, zero, suc, ◌+◌, ◌<◌, ◌≤◌, ◌≡◌, ◌≢◌, refl, true, false, some, List, [], ◌∷◌, ◌++◌,
  arith, ◌==◌, Bool-cases, ap, sym, ◌∙◌, inl, inr, if◌then◌else◌, length,
}
use wmii.Base.Str.{CString, contains}
use wmii.Message.Mask.{
  is_sep, peek, past, until_sep, cut, plain_round, start_round, Outcome, finished, token, null_read,
  out_of_fuel, stop, round, mask, settle, mask-settle, drain,
}

-- The specification: `cur` is the token so far (reversed into place by appending), `add` its sign.
abbrev emit : ℕ → CString → List (ℕ × CString) → List (ℕ × CString)
emit add [] ts = ts
emit add (c ∷ t) ts = (add, c ∷ t) ∷ ts

unfoldable pub split : ℕ → CString → CString → List (ℕ × CString)
split add cur [] = emit add cur []
split add cur (c ∷ s) =
    let next = split c [] s in
    let more = split add (cur ++ (c ∷ [])) s in if is_sep c then emit add cur next else more

-- What is left to read when `*s` is `s` and `*old` is `old`.
abbrev resume : CString → ℕ → List (ℕ × CString)
resume s old = if old == 0 then [] else split old [] s

-- The rounds that are left, at most.
abbrev cost : CString → ℕ → ℕ
cost s old = if old == 0 then 0 else length s + 1

-- Nothing is left once a separator is the NUL; else the rest follows it.
abbrev after : CString → List (ℕ × CString)
after [] = []
after (c ∷ s) = split c [] s

-- `q` stands at a separator or at the end.
abbrev AtSep : CString → Type 0
AtSep [] = Unit {0}
AtSep (c ∷ s) = is_sep c ≡ true

append_cons : (cur tok : CString) (c : ℕ) → (cur ++ (c ∷ [])) ++ tok ≡ cur ++ (c ∷ tok)
append_cons [] tok c = refl
append_cons (d ∷ cur) tok c = ap (λ l. d ∷ l) (append_cons cur tok c)

split-until_sep :
    (add : ℕ) (cur p : CString)
    → split add cur p ≡ emit add (cur ++ (until_sep p).0) (after (until_sep p).1)
unfolding split until_sep
split-until_sep add cur [] = rw (append_nil cur)
split-until_sep add cur (c ∷ s) = elim (Bool-cases (is_sep c)) [
  | inl e ↦ rw (e, append_nil cur)
  | inr e ↦ rw (e, split-until_sep add (cur ++ (c ∷ [])) s, append_cons cur (until_sep s).0 c)
]

record Spans (p tok q : CString) : Type 0 where
  shorter : length tok + length q ≡ length p
  at_sep : AtSep q
  plain_tok : contains tok b'/' ≡ false
  plain_rest : contains q b'/' ≡ false

until_sep-Spans : (p : CString) → contains p b'/' ≡ false → Spans p (until_sep p).0 (until_sep p).1
unfolding until_sep contains
until_sep-Spans [] h = record {
  shorter = omega arith;
  at_sep = tt;
  plain_tok = refl;
  plain_rest = refl;
}
until_sep-Spans (c ∷ s) h = elim (Bool-cases (is_sep c)) [
  | inl e ↦ rw e (record { shorter = omega arith; at_sep = e; plain_tok = refl; plain_rest = h })
  | inr e ↦ rw e (
      let ih = until_sep-Spans s (ground arith) in
      record {
        shorter = omega (arith, ih.shorter);
        at_sep = ih.at_sep;
        plain_tok = ground (arith, ih.plain_tok);
        plain_rest = ih.plain_rest;
      })
]

-- What a call owes: the next signed token of the specification, or the end.
Answers : CString → ℕ → Outcome → Type 0
Answers p old finished = resume p old ≡ []
Answers p old (token t add s old') =
    (resume p old ≡ (add, t) ∷ resume s old')
    × (cost s old' < cost p old)
    × (contains s b'/' ≡ false)
    × (t ≢ [])
Answers p old null_read = ⊥
Answers p old out_of_fuel = ⊥

plain_start :
    (p : CString) (add : ℕ) → contains p b'/' ≡ false → start_round p add ≡ plain_round p add
unfolding start_round contains
plain_start [] add h = refl
plain_start (c ∷ s) add h = ground arith

-- A round on plain text either cuts the next token or drops an empty one.
plain_round_lem :
    (p : CString) (add : ℕ)
    → contains p b'/' ≡ false
    → plain_round p add ≡ cut (until_sep p).0 add (until_sep p).1
unfolding plain_round
plain_round_lem p add h = rw (until_sep-Spans p h).plain_tok

after-resume : (q : CString) → AtSep q → after q ≡ resume (past q) (peek q)
after-resume [] h = refl
after-resume (c ∷ s) h = ground arith

cost-past : (q : CString) → cost (past q) (peek q) ≤ length q
cost-past [] = omega arith
cost-past (c ∷ s) = ground arith

contains-past : (q : CString) → contains q b'/' ≡ false → contains (past q) b'/' ≡ false
unfolding contains
contains-past [] h = h
contains-past (c ∷ s) h = ground arith

-- The next round starts where the specification goes on, and there is less to read.
record Goes (add : ℕ) (p tok q : CString) : Type 0 where
  text : split add [] p ≡ emit add tok (resume (past q) (peek q))
  less : cost (past q) (peek q) ≤ length p
  plain : contains (past q) b'/' ≡ false

until_sep-Goes :
    (add : ℕ) (p : CString) → contains p b'/' ≡ false → Goes add p (until_sep p).0 (until_sep p).1
until_sep-Goes add p h =
    let sp = until_sep-Spans p h in
    record {
      text = rw (split-until_sep add [] p, after-resume (until_sep p).1 sp.at_sep);
      less = omega (arith, sp.shorter, cost-past (until_sep p).1);
      plain = contains-past (until_sep p).1 sp.plain_rest;
    }

Answers-back :
    (p : CString) (old : ℕ) (p' : CString) (old' : ℕ) (o : Outcome)
    → resume p old ≡ resume p' old'
    → cost p' old' ≤ cost p old
    → Answers p' old' o
    → Answers p old o
unfolding Answers
Answers-back p old p' old' finished e c a = e ∙ a
Answers-back p old p' old' (token t add s k) e c a = (e ∙ a.0, omega (arith, a.1), a.2, a.3)
Answers-back p old p' old' null_read e c a = a
Answers-back p old p' old' out_of_fuel e c a = a

settle-Answers :
    (fuel : ℕ) (p : CString) (old : ℕ)
    → ((p' : CString) (old' : ℕ)
        → cost p' old' < fuel
        → contains p' b'/' ≡ false
        → Answers p' old' (mask fuel p' old'))
    → (tok q : CString) → (old == 0) ≡ false
    → length p < fuel
    → Goes old p tok q
    → Answers p old (settle fuel (cut tok old q))
unfolding cut Answers
settle-Answers fuel p old ih [] q e m g =
    Answers-back p old (past q) (peek q) (mask fuel (past q) (peek q)) (rw e g.text)
      (rw e (omega (arith, g.less))) (ih (past q) (peek q) (omega (arith, g.less)) g.plain)
settle-Answers fuel p old ih (c ∷ t) q e m g =
    (rw e g.text, rw e (omega (arith, g.less)), g.plain, λ k. ground arith)

round-end : (p : CString) (old : ℕ) → (old == 0) ≡ true → round p old ≡ stop finished
unfolding round
round-end p old e = rw e

round-cut :
    (p : CString) (old : ℕ)
    → (old == 0) ≡ false
    → contains p b'/' ≡ false
    → round p old ≡ cut (until_sep p).0 old (until_sep p).1
unfolding round
round-cut p old e h = rw e (plain_start p old h ∙ plain_round_lem p old h)

Answers-end : (p : CString) (old : ℕ) → (old == 0) ≡ true → Answers p old finished
unfolding Answers
Answers-end p old e = rw e

mask-Answers :
    (fuel : ℕ) (p : CString) (old : ℕ)
    → cost p old < fuel
    → contains p b'/' ≡ false
    → Answers p old (mask fuel p old)
mask-Answers zero p old m h = absurd (omega arith)
mask-Answers (suc fuel) p old m h = elim (Bool-cases (old == 0)) [
  | inl e ↦ rw (mask-settle, round-end p old e) (Answers-end p old e)
  | inr e ↦
      rw (mask-settle, round-cut p old e h)
        (settle-Answers fuel p old (mask-Answers fuel) (until_sep p).0 (until_sep p).1 e
          (ground arith) (until_sep-Goes old p h))
]

drain-step :
    (rounds fuel : ℕ) (p : CString) (old : ℕ)
    → ((s : CString) (k : ℕ)
        → cost s k < cost p old
        → contains s b'/' ≡ false
        → drain rounds fuel s k ≡ some (resume s k))
    → (o : Outcome) → mask fuel p old ≡ o
    → Answers p old o
    → drain (suc rounds) fuel p old ≡ some (resume p old)
unfolding drain Answers
drain-step rounds fuel p old ih finished e a = rw (e, drain) (ap some (sym a))
drain-step rounds fuel p old ih (token t add s k) e a =
    rw (e, drain) (rw (ih s k a.1 a.2) (ap some (sym a.0)))
drain-step rounds fuel p old ih null_read e a = absurd a
drain-step rounds fuel p old ih out_of_fuel e a = absurd a

drain-resume :
    (rounds fuel : ℕ) (p : CString) (old : ℕ)
    → cost p old < rounds
    → cost p old < fuel
    → contains p b'/' ≡ false
    → drain rounds fuel p old ≡ some (resume p old)
drain-resume zero fuel p old m n h = absurd (omega arith)
drain-resume (suc rounds) fuel p old m n h =
    drain-step rounds fuel p old
      (λ s k less plain. drain-resume rounds fuel s k (omega arith) (omega arith) plain)
      (mask fuel p old) refl (mask-Answers fuel p old n h)

-- On text with no slash, fuel of two more than the length lets the loop over `mask` end, and what
-- it yields are the signed tokens of the one-pass splitter, from any sign that is not NUL.
pub drain-split :
    (p : CString) (old : ℕ)
    → contains p b'/' ≡ false
    → old ≢ 0
    → drain (length p + 2) (length p + 2) p old ≡ some (split old [] p)
drain-split p old h k =
    let e : (old == 0) ≡ false = ground arith in
    drain-resume (length p + 2) (length p + 2) p old (rw e (omega arith)) (rw e (omega arith)) h
    ∙ ap some (rw e)
