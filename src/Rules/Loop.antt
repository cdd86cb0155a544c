-- ===== src/Rules/Loop.antt =====
-- `update_rules` reads its whole text: the rounds that its model allows are enough.
use wmii.Base.{ℕ, ◌≤◌, ◌≡◌, Option, none, some, List, length}
use wmii.Base.Str.{CString}
use wmii.Rules.{Lib, Rule}

-- The text that is left is no longer than `n`.
abbrev Within : ℕ → Option (CString × CString) → Type 0
Within n none = Unit
Within n (some (w, s)) = length s ≤ n

abbrev JunkWithin : ℕ → Option CString → Type 0
JunkWithin n none = Unit
JunkWithin n (some s) = length s ≤ n

-- A reading that has ended, with no more left than `n`.
abbrev Read : ℕ → Option (CString × CString) → Type 0
Read n none = ⊥
Read n (some (w, s)) = length s ≤ n

-- The rules of a loop that has ended.
abbrev IsEnded : Option (List Rule) → Type 0
IsEnded none = ⊥
IsEnded (some rules) = Unit

module _ (lib : Lib) where
  -- What one round comes to, where every way on from a text as short as what may be left ends, and comes
  -- to the same by `go` and by `go'`.
  module _ (n : ℕ) (go go' : CString → Option (List Rule))
      (same : (t : CString) → length t ≤ n → (go t ≡ go' t) × IsEnded (go t)) where
    abbrev Agree : Option (List Rule) → Option (List Rule) → Type 0
    Agree o o' = (o ≡ o') × IsEnded o
