-- ===== src/Client/Views/Merge.antt =====
-- `client_setviews` leaves one frame for each tag, and keeps those that were there.
use Prim.Native.Nat.{Ordering}
use wmii.Base.{◌≢◌, sym, subst, List, [], ◌∷◌, inl, inr}
use wmii.Base.Str.{CString, strcmp, Ordering-cases}
use wmii.Client.Views.{Frame, by_cmp, pass_below}

-- What the inner loop leaves does not begin below the tag.
abbrev pub Reached : CString → List Frame → Type 0
Reached tag [] = Unit
Reached tag (f ∷ fs) = strcmp f.view tag ≢ Ordering.lt

pub pass_below-Reached : (tag : CString) (fs : List Frame) → Reached tag (pass_below tag fs).rest
unfolding pass_below
pass_below-Reached tag [] = tt
pass_below-Reached tag (f ∷ fs) = elim (Ordering-cases (strcmp f.view tag)) [
  | inl e ↦
      subst (λ o. Reached tag (by_cmp o f fs (pass_below tag fs)).rest) (sym e)
        (pass_below-Reached tag fs)
  | inr (inl e) ↦
      subst (λ o. Reached tag (by_cmp o f fs (pass_below tag fs)).rest) (sym e) (λ h. cc)
  | inr (inr e) ↦
      subst (λ o. Reached tag (by_cmp o f fs (pass_below tag fs)).rest) (sym e) (λ h. cc)
]
