-- ===== src/Keys/Table.antt =====
-- `getkey` against look-up by name.
use wmii.Base.{
  ◌≡◌, refl, sym, ap, ◌∙◌, subst, true, false, List, [], ◌∷◌, Option, none, some, if◌then◌else◌,
  arith, Option-cases, inl, inr,
}
use wmii.Base.Str.{CString, streq, strcmp_refl}
use wmii.Util.Tokens.{tokenize}
use wmii.Keys.{Stroke, Key, Lib, Got, add_key, or_parsed, name2key, parse_seq, getkey}

-- What a call leaves: where it returns a key, the table leads the name to it, and where it fails the
-- table is the old one; every other name leads where it did.
pub record Leads (name : CString) (keys : List Key) (g : Got) : Type 0 where
  pub found : (k : Key) → g.key ≡ some k → name2key name g.keys ≡ some k
  pub failed : g.key ≡ none → g.keys ≡ keys
  pub others :
      (other : CString) → streq name other ≡ false → name2key other g.keys ≡ name2key other keys

streq_refl : (s : CString) → streq s s ≡ true
streq_refl s = ground (arith, strcmp_refl s)

module _ (lib : Lib) (name : CString) (keys : List Key) (fits : lib.utflcpy 128 name ≡ name) where
  Leads-old :
      (k : Key)
      → name2key name keys ≡ some k
      → Leads name keys (record { keys = keys; key = some k })
  Leads-old k e = record { found = λ l h. e ∙ h; failed = λ h. refl; others = λ other h. refl }

  Leads-none : Leads name keys (record { keys = keys; key = none })
  Leads-none = record { found = λ l h. cc; failed = λ h. refl; others = λ other h. refl }

  Leads-new : (o : Option (List Stroke)) → Leads name keys (add_key lib name keys o)
  unfolding name2key
  Leads-new none = Leads-none
  Leads-new (some []) = Leads-none
  Leads-new (some (s ∷ ss)) =
      let k : Key = record { name = lib.utflcpy 128 name; first = s; next = ss } in
      let self : streq k.name name ≡ true = ap (λ n. streq n name) fits ∙ streq_refl name in
      record {
        found = λ l h. ap (λ b. if b then some k else name2key name keys) self ∙ h;
        failed = λ h. cc;
        others = λ other h.
            ap (λ b. if b then some k else name2key other keys) (ap (λ n. streq n other) fits ∙ h);
      }

-- `getkey` of a name that its buffers hold: where it returns a key, looking the name up in the new table
-- gives this key, and where it returns none the table is unchanged; every other name leads where it did.
getkey-Leads :
    (lib : Lib) (name : CString) (keys : List Key)
    → lib.utflcpy 128 name ≡ name
    → Leads name keys (getkey lib name keys)
unfolding getkey
getkey-Leads lib name keys fits = elim (Option-cases (name2key name keys)) [
  | inl e ↦
      subst (λ o. Leads name keys (or_parsed lib name keys o)) (sym e)
        (Leads-new lib name keys fits (parse_seq lib (tokenize 8 (lib.utflcpy 128 name) b',')))
  | inr (k, e) ↦
      subst (λ o. Leads name keys (or_parsed lib name keys o)) (sym e)
        (Leads-old lib name keys fits k e)
]
