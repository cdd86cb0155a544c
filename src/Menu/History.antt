-- ===== src/Menu/History.antt =====
-- cmd/menu/history.c, `history_search`: the way through the ring of what was entered before.
pub mod Search
use wmii.Base.{ℕ, Bool, true, false, Option, none, some, List, [], ◌∷◌, if◌then◌else◌}
use wmii.Base.Str.{CString}

-- The ring from `histsel` on: `newer` is `histsel` and what follows by `next`, up to the entry before
-- `hist`, and is empty where `histsel` is `hist`; `older` is what comes before by `prev`. `typed` is
-- `hist.string`.
pub record History : Type 0 where
  pub older : List CString
  pub newer : List CString
  pub typed : Option CString

-- What is returned, `none` for nil, and where `histsel` then is.
pub record Found : Type 0 where
  pub string : Option CString
  pub history : History

-- `input` is `input.string`, which is kept where `histsel` is `hist`.
abbrev pub keep_typed : CString → List CString → Option CString → Option CString
keep_typed input [] typed = some input
keep_typed input (s ∷ newer) typed = typed

-- `compare(s, string, n) == 0`, which is strncmp or strncasecmp.
module _ (same : CString → CString → ℕ → Bool) where
  -- `for(i=histsel->prev; i != &hist; i=i->prev)`; `stay` is what follows where it finds nothing.
  unfoldable pub search_back :
      CString → ℕ → Option CString → Found → List CString → List CString → Found
  search_back string n typed stay newer [] = stay
  search_back string n typed stay newer (s ∷ older) =
      let rest = search_back string n typed stay (s ∷ newer) older in
      if same s string n
      then record {
        string = some s;
        history = record { older = older; newer = s ∷ newer; typed = typed };
      }
      else rest

  -- `for(i=histsel->next; i != hist.next; i=i->next)`, which comes past `hist` last.
  abbrev pub at_typed : CString → ℕ → Found → List CString → Option CString → Found
  at_typed string n stay older none = record {
    string = none;
    history = record { older = older; newer = []; typed = none };
  }
  at_typed string n stay older (some t) =
      if same t string n
      then record {
        string = some t;
        history = record { older = older; newer = []; typed = some t };
      }
      else stay

  unfoldable pub search_on :
      CString → ℕ → Option CString → Found → List CString → List CString → Found
  search_on string n typed stay older [] = at_typed string n stay older typed
  search_on string n typed stay older (s ∷ newer) =
      let rest = search_on string n typed stay (s ∷ older) newer in
      if same s string n
      then record {
        string = some s;
        history = record { older = older; newer = s ∷ newer; typed = typed };
      }
      else rest

  abbrev pub forward_at : History → CString → ℕ → List CString → Found
  forward_at h string n [] = record { string = h.typed; history = h }
  forward_at h string n (s ∷ newer) =
      search_on string n h.typed (record { string = some string; history = h }) (s ∷ h.older) newer

  unfoldable pub forward : History → CString → ℕ → Found
  unfolding search_on
  forward h string n = forward_at h string n h.newer

  unfoldable pub backward : CString → History → CString → ℕ → Found
  unfolding search_back
  backward input h string n =
      let typed = keep_typed input h.newer h.typed in
      search_back string n typed
        (record { string = some string; history = record h { typed = typed } }) h.newer h.older

-- `history_search(dir, string, n)`, for `dir` FORWARD or BACKWARD.
pub data Dir : Type 0 where
  forward_dir backward_dir : Dir

unfoldable pub history_search :
    (CString → CString → ℕ → Bool) → CString → History → Dir → CString → ℕ → Found
unfolding forward backward
history_search same input h forward_dir string n = forward same h string n
history_search same input h backward_dir string n = backward same input h string n
