-- ===== src/Client/Tags/Chosen.antt =====
-- The views that `client_applytags` puts a client on.
use wmii.Base.{
  ◌≡◌, refl, sym, ap, ◌∙◌, Bool, true, false, not, ◌&&◌, ◌||◌, List, [], ◌∷◌, arith, ◌⊎◌, inl, inr,
}
use wmii.Base.Str.{CString, codes, strcmp_refl}
use wmii.Util.Lists.{left, center, right, comm, grep, mem, Ascending}
use wmii.Util.Lists.Comm.{chosen, comm-mem}
use wmii.Util.Lists.Uniq.{IsSorted, uniq-Ascending}
use wmii.Util.Lists.Order.{comm-Ascending, grep-Ascending, grep-mem}
use wmii.Client.Tags.{Lib, Tagging, matches, or_orphans, sorted_toks, retags, chosen_views}

-- qsort sorts the list, and keeps its strings.
pub record Sorts (lib : Lib) (l : List CString) : Type 0 where
  pub sorted : IsSorted (lib.qsort l)
  pub same : (z : CString) → mem z (lib.qsort l) ≡ mem z l

-- A view that a tag names, or that the first pattern matches and the second does not.
abbrev pub wanted : Lib → List CString → Tagging → CString → Bool
wanted lib names t z =
    mem z t.toks || (mem z names && (matches lib t.tagre z && not (matches lib t.tagvre z)))

mem_head : (x : CString) (l : List CString) → mem x (x ∷ l) ≡ true
unfolding mem
mem_head x l = ground (arith, strcmp_refl x)

-- A list that is not empty holds a string.
empty_or : (l : List CString) → (l ≡ []) ⊎ ((z : CString) × (mem z l ≡ true))
empty_or [] = inl refl
empty_or (x ∷ l) = inr (x, mem_head x l)

-- CRight alone, and all three.
chosen_right : (a b : Bool) → chosen 4 a b ≡ (not a && b)
unfolding left center right
chosen_right true true = refl
chosen_right true false = refl
chosen_right false true = refl
chosen_right false false = refl

chosen_all : (a b : Bool) → chosen 7 a b ≡ (a || b)
unfolding left center right
chosen_all true true = refl
chosen_all true false = refl
chosen_all false true = refl
chosen_all false false = refl

regroup : (n a b : Bool) → ((n && a) && not b) ≡ (n && (a && not b))
regroup true a b = refl
regroup false a b = refl

fill_in : (a b : Bool) → ((not a && b) || a) ≡ (a || b)
fill_in true b = refl
fill_in false true = refl
fill_in false false = refl

-- The two outcomes.
abbrev pub Chosen : Lib → List CString → Tagging → List CString → Type 0
Chosen lib names t l =
    (Ascending l × ((z : CString) → mem z l ≡ wanted lib names t z))
    ⊎ ((l ≡ codes "orphans" ∷ []) × ((z : CString) → wanted lib names t z ≡ false))

module _ (lib : Lib) (names : List CString) (t : Tagging) (s : Sorts lib t.toks)
    (up : Ascending names) where
  chosen_toks : List CString
  chosen_toks = sorted_toks lib t

  toks-Ascending : Ascending chosen_toks
  unfolding chosen_toks sorted_toks
  toks-Ascending = (uniq-Ascending (lib.qsort t.toks) s.sorted).0

  toks-mem : (z : CString) → mem z chosen_toks ≡ mem z t.toks
  unfolding chosen_toks sorted_toks
  toks-mem z = (uniq-Ascending (lib.qsort t.toks) s.sorted).1 z ∙ s.same z

  chosen_retags : List CString
  chosen_retags = retags lib names t chosen_toks

  once : List CString
  once = grep (matches lib t.tagre) false names

  once-Ascending : Ascending once
  unfolding once
  once-Ascending = grep-Ascending (matches lib t.tagre) false names up

  twice-Ascending : Ascending (grep (matches lib t.tagvre) true once)
  twice-Ascending = grep-Ascending (matches lib t.tagvre) true once once-Ascending

  retags-Ascending : Ascending chosen_retags
  unfolding chosen_retags retags once
  retags-Ascending =
      comm-Ascending 4 chosen_toks (grep (matches lib t.tagvre) true once) toks-Ascending
        twice-Ascending

  -- A view of the patterns is one that no tag names.
  retags-mem :
      (z : CString)
      → mem z chosen_retags ≡ (
          not (mem z t.toks)
          && (mem z names && (matches lib t.tagre z && not (matches lib t.tagvre z))))
  unfolding chosen_retags retags once
  retags-mem z =
      let found = grep (matches lib t.tagvre) true once in
      comm-mem 4 chosen_toks found z toks-Ascending twice-Ascending
      ∙ chosen_right (mem z chosen_toks) (mem z found)
      ∙ ap (λ b. not b && mem z found) (toks-mem z)
      ∙ ap (λ b. not (mem z t.toks) && b)
          (grep-mem (matches lib t.tagvre) true once z
            ∙ ap (λ b. b && not (matches lib t.tagvre z))
                (grep-mem (matches lib t.tagre) false names z)
            ∙ regroup (mem z names) (matches lib t.tagre z) (matches lib t.tagvre z))

  -- The union of the two lists.
  both-Chosen :
      Ascending (comm 7 chosen_retags chosen_toks)
      × ((z : CString) → mem z (comm 7 chosen_retags chosen_toks) ≡ wanted lib names t z)
  both-Chosen = (
    comm-Ascending 7 chosen_retags chosen_toks retags-Ascending toks-Ascending,
    λ z.
        comm-mem 7 chosen_retags chosen_toks z retags-Ascending toks-Ascending
        ∙ chosen_all (mem z chosen_retags) (mem z chosen_toks)
        ∙ ap (λ b. b || mem z chosen_toks) (retags-mem z)
        ∙ ap
            (λ b.
              (not (mem z t.toks)
                && (mem z names && (matches lib t.tagre z && not (matches lib t.tagvre z))))
              || b)
            (toks-mem z)
        ∙ fill_in (mem z t.toks)
            (mem z names && (matches lib t.tagre z && not (matches lib t.tagvre z))),
  )

  outcome :
      (re toks : List CString)
      → Ascending (comm 7 re toks) × ((z : CString) → mem z (comm 7 re toks) ≡ wanted lib names t z)
      → Chosen lib names t (comm 7 re (or_orphans re toks))
  unfolding comm mem right
  outcome [] [] h = inr (refl, λ z. sym (h.1 z))
  outcome [] (u ∷ us) h = inl h
  outcome (r ∷ rs) us h = inl h

-- Where qsort sorts the tags and the names of the views ascend, the views that `client_applytags` hands to
-- `client_setviews` ascend, and are those that a stored tag names or that exist and match the client's
-- first pattern and not its second; or there is no such view, and it hands over "orphans" alone.
pub chosen_views-Chosen :
    (lib : Lib) (names : List CString) (t : Tagging)
    → Sorts lib t.toks
    → Ascending names
    → Chosen lib names t (chosen_views lib names t)
unfolding chosen_views chosen_retags chosen_toks
chosen_views-Chosen lib names t s up =
    outcome lib names t s up (chosen_retags lib names t s up) (chosen_toks lib names t s up)
      (both-Chosen lib names t s up)
