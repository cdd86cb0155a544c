-- ===== src/Tests/Message.antt =====
-- Message parsing at concrete inputs.
use wmii.Base.{◌≢◌, ℕ, ◌≡◌, ◌↔◌, refl, Option, none, some, [], ◌∷◌, ◌<◌, ◌-◌, get_or, arith}
use wmii.Base.Str.{CString, codes, contains, strcmp}
use wmii.Message.Mask.{mask, token, null_read, finished, out_of_fuel, drain}
use wmii.Message.Mask.Plain.{split, drain-split}
use wmii.Message.Mask.Slashes.{mask_hangs, mask_regex}
use wmii.Message.Search.{found, bsearch_loop}
use wmii.Message.Search.Tables.{incmodetab}
use wmii.Message.Search.Sound.{bsearch-decides}
use wmii.Message.Search.Known.{ascending, ascending-IsSorted}

drain-split_example : drain 5 5 (codes "a+b") b'+' ≡ some (split b'+' [] (codes "a+b"))
unfolding contains
drain-split_example = drain-split (codes "a+b") b'+' refl (λ e. omega arith)

mask_hangs_example : mask 9 (codes "a/b+c") b'+' ≡ out_of_fuel
unfolding contains
mask_hangs_example =
    mask_hangs 9 b'a' (codes "/b") b'+' (codes "c") b'+' (refl, (refl, (refl, tt)))
      (λ e. omega arith) refl refl (λ e. omega arith)

mask_regex_example :
    (mask 1 (codes "/x/+y") b'+' ≡ token (codes "/x/") b'+' (codes "y") b'+')
    × (mask 1 (codes "/x/") b'+' ≡ token (codes "/x/") b'+' [] 0)
    × (mask 1 (codes "/x") b'+' ≡ null_read)
    × (mask 2 (codes "/x/z") b'+' ≡ finished)
    × (mask 1 (codes "/x/z+y") b'+' ≡ out_of_fuel)
unfolding contains
mask_regex_example =
    mask_regex 0 (codes "x") b'z' [] b'+' (codes "y") b'+' refl (refl, tt) (λ e. omega arith) refl
      (λ e. omega arith)

bsearch-decides_example :
    (bsearch_loop 4 (codes "show") incmodetab 0 3 ≢ wmii.Message.Search.out_of_fuel)
    × ((bsearch_loop 4 (codes "show") incmodetab 0 3 ≡ found 1)
        ↔ ((1 < 3) × (get_or incmodetab 1 [] ≡ codes "show")))
unfolding ascending strcmp
bsearch-decides_example =
    bsearch-decides (codes "show") incmodetab 4 1 (ascending-IsSorted incmodetab refl) (omega arith)

-- A table of two words.
abbrev look : CString → Option ℕ
look [] = none
look (c ∷ s) = some (c - b'a')
