-- ===== src/Tests/Client.antt =====
-- Tags and views of a client at concrete inputs.
use wmii.Base.{
  ℕ, ◌≡◌, refl, false, ◌≤◌, none, some, List, [], ◌∷◌, arith, length, map, ap, get_or, inr,
}
use wmii.Base.Str.{CString, codes, strcmp}
use wmii.Util.Tokens.{trim}
use wmii.Util.Lists.{mem}
use wmii.Client.Views.{Frame, Creation, client_setviews}
use wmii.Client.Views.Kept.{frame_for, client_setviews-keeps}
use wmii.Client.Tags.{Lib, off, Tagging, apply_tokens, chosen_views}
use wmii.Client.Tags.Toks.{Ordinary, named, apply_tokens-fits, apply_tokens-mem}
use wmii.Client.Tags.Chosen.{Chosen, chosen_views-Chosen}

abbrev create : CString → Frame
create tag = record { id = 9; view = tag }

abbrev creation : Creation
creation = record { create = create; behind = λ tag fs. fs }

-- A client on the views a and c, with the tags b and c.
abbrev on_a_c : List Frame
on_a_c = record { id = 1; view = codes "a" } ∷ (record { id = 2; view = codes "c" } ∷ [])

abbrev b_c : List CString
b_c = codes "b" ∷ (codes "c" ∷ [])

client_setviews-keeps_example :
    (client_setviews creation b_c on_a_c).frames ≡ map (frame_for create on_a_c) b_c
unfolding strcmp
client_setviews-keeps_example =
    client_setviews-keeps creation (λ tag fs. refl) b_c on_a_c ((refl, tt), (tt, tt))
      ((refl, tt), (tt, tt))

abbrev lib : Lib
lib = record {
  bsearch = λ s l. mem s l;
  qsort = λ l. l;
  utflcpy = λ n s. s;
  regexec = λ re s. false;
}

abbrev start : Tagging
start = record { toks = codes "a" ∷ []; tagre = none; tagvre = none; floating = off }

first_byte : {t : CString} → codes "a" ≡ (b'/' ∷ t) → ⊥
first_byte e = let h : 97 ≡ b'/' = ap (λ l. get_or l 0 0) e in omega (arith, h)

a-Ordinary : Ordinary lib (codes "a")
unfolding strcmp trim mem
a-Ordinary = record {
  no_slash = λ t e. first_byte e;
  not_tilde = refl;
  trimmed = refl;
  not_sel = refl;
  not_bad = refl;
}

abbrev drop_a : List (ℕ × CString)
drop_a = (b'-', codes "a") ∷ []

apply_tokens-mem_example :
    (toks : List CString) × (apply_tokens lib (codes "x") drop_a start
      ≡ some (record start { toks = toks }))
    × ((z : CString) → mem z toks ≡ named z (mem z (codes "a" ∷ [])) drop_a)
apply_tokens-mem_example =
    apply_tokens-mem lib (codes "x") drop_a start (inr refl, a-Ordinary, tt) (omega arith)

abbrev dropped : Tagging
dropped = record { toks = []; tagre = none; tagvre = none; floating = off }

apply_tokens-fits_example :
    (length dropped.toks ≤ 31) × (length start.toks ≡ 31 → dropped.toks ≡ start.toks)
unfolding apply_tokens strcmp trim mem
apply_tokens-fits_example =
    apply_tokens-fits lib (codes "x") drop_a start dropped (omega arith) refl

chosen_views-Chosen_example : Chosen lib b_c start (chosen_views lib b_c start)
unfolding strcmp
chosen_views-Chosen_example =
    chosen_views-Chosen lib b_c start (record { sorted = (tt, tt); same = λ z. refl })
      ((refl, tt), (tt, tt))
