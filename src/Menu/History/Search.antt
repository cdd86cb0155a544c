-- ===== src/Menu/History/Search.antt =====
-- What `history_search` keeps of the ring, and the way back from an entry to what was typed.
use wmii.Base.{
  ℕ, ◌≡◌, refl, sym, ap, ◌∙◌, Bool, true, false, Option, none, some, List, [], ◌∷◌, if◌then◌else◌,
  if_both, Bool-cases, inl, inr,
}
use wmii.Base.Str.{CString}
use wmii.Menu.History.{
  History, Found, Dir, search_back, search_on, forward, forward_at, backward, keep_typed,
  history_search,
}
use Dir.{forward_dir, backward_dir}

-- The entries by `next`, from the oldest on.
unfoldable pub rev_onto : List CString → List CString → List CString
rev_onto [] newer = newer
rev_onto (s ∷ older) newer = rev_onto older (s ∷ newer)

abbrev pub entries : History → List CString
entries h = rev_onto h.older h.newer

module _ (same : CString → CString → ℕ → Bool) (string : CString) (n : ℕ) where
  abbrev Keeps : List CString → Found → Type 0
  Keeps es f = entries f.history ≡ es

  search_back-Keeps :
      (es : List CString) (typed : Option CString) (stay : Found) (newer older : List CString)
      → Keeps es stay
      → rev_onto older newer ≡ es
      → Keeps es (search_back same string n typed stay newer older)
  unfolding search_back rev_onto
  search_back-Keeps es typed stay newer [] k e = k
  search_back-Keeps es typed stay newer (s ∷ older) k e =
      if_both (Keeps es) (same s string n)
        {x = record {
          string = some s;
          history = record { older = older; newer = s ∷ newer; typed = typed };
        }}
        e (search_back-Keeps es typed stay (s ∷ newer) older k e)

  search_on-Keeps :
      (es : List CString) (typed : Option CString) (stay : Found) (older newer : List CString)
      → Keeps es stay
      → rev_onto older newer ≡ es
      → Keeps es (search_on same string n typed stay older newer)
  unfolding search_on rev_onto
  search_on-Keeps es none stay older [] k e = e
  search_on-Keeps es (some t) stay older [] k e =
      if_both (Keeps es) (same t string n)
        {x = record {
          string = some t;
          history = record { older = older; newer = []; typed = some t };
        }}
        e k
  search_on-Keeps es typed stay older (s ∷ newer) k e =
      if_both (Keeps es) (same s string n)
        {x = record {
          string = some s;
          history = record { older = older; newer = s ∷ newer; typed = typed };
        }}
        e (search_on-Keeps es typed stay (s ∷ older) newer k e)

  -- `history_search` leaves the entries of the ring and their order as they are, in both directions and
  -- whether or not it finds one.
  history_search-entries :
      (input : CString) (h : History) (d : Dir)
      → entries (history_search same input h d string n).history ≡ entries h
  unfolding history_search forward backward rev_onto
  history_search-entries input h backward_dir =
      search_back-Keeps (entries h) (keep_typed input h.newer h.typed)
        (record {
          string = some string;
          history = record h { typed = keep_typed input h.newer h.typed };
        })
        h.newer h.older refl refl
  history_search-entries input h forward_dir = from h.newer refl
    where
      from : (l : List CString) → h.newer ≡ l → Keeps (entries h) (forward_at same h string n l)
      from [] e = refl
      from (s ∷ newer) e =
          search_on-Keeps (entries h) h.typed (record { string = some string; history = h })
            (s ∷ h.older) newer refl (ap (rev_onto h.older) (sym e))

  abbrev Misses : List CString → Type 0
  Misses [] = Unit {0}
  Misses (s ∷ l) = (same s string n ≡ false) × Misses l

  module _ (input : CString) where
    abbrev back_at : List CString → Found
    back_at older = record {
      string = some input;
      history = record { older = older; newer = []; typed = some input };
    }

    search_on-Misses :
        (stay : Found) (older newer : List CString)
        → same input string n ≡ true
        → Misses newer
        → search_on same string n (some input) stay older newer ≡ back_at (rev_onto newer older)
    unfolding search_on rev_onto
    search_on-Misses stay older [] h m = ap (λ b. if b then back_at older else stay) h
    search_on-Misses stay older (s ∷ newer) h (e, m) =
        ap
          (λ b.
            if b
            then record {
              string = some s;
              history = record { older = older; newer = s ∷ newer; typed = some input };
            }
            else search_on same string n (some input) stay (s ∷ older) newer)
          e
        ∙ search_on-Misses stay (s ∷ older) newer h m

    search_back-forward :
        (stay : Found) (newer older : List CString)
        → same input string n ≡ true
        → Misses newer
        → forward same stay.history string n ≡ back_at (rev_onto newer older)
        → forward same (search_back same string n (some input) stay newer older).history string n
          ≡ back_at (rev_onto newer older)
    unfolding search_back rev_onto forward
    search_back-forward stay newer [] h m k = k
    search_back-forward stay newer (s ∷ older) h m k = elim (Bool-cases (same s string n)) [
      | inl e ↦
          ap
            (λ b.
              forward same
                (if b
                  then record {
                    string = some s;
                    history = record { older = older; newer = s ∷ newer; typed = some input };
                  }
                  else search_back same string n (some input) stay (s ∷ newer) older).history
                string n)
            e
          ∙ search_on-Misses _ (s ∷ older) newer h m
      | inr e ↦
          ap
            (λ b.
              forward same
                (if b
                  then record {
                    string = some s;
                    history = record { older = older; newer = s ∷ newer; typed = some input };
                  }
                  else search_back same string n (some input) stay (s ∷ newer) older).history
                string n)
            e
          ∙ search_back-forward stay (s ∷ newer) older h (e, m) k
    ]

    -- From what is typed, where it agrees with the text that is searched for: a search back, which finds
    -- an entry or none, and a search forward return what was typed, to the place in the ring where the
    -- first began.
    pub history_search-back_forward :
        (older : List CString) (typed : Option CString)
        → same input string n ≡ true
        → let h : History = record { older = older; newer = []; typed = typed } in
          history_search same input
            (history_search same input h backward_dir string n).history
            forward_dir
            string
            n
          ≡ back_at older
    unfolding history_search backward rev_onto
    history_search-back_forward older typed h =
        search_back-forward
          (record {
            string = some string;
            history = record { older = older; newer = []; typed = some input };
          })
          [] older h tt refl
