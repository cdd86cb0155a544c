-- ===== src/Tests/Util.antt =====
-- The utilities, maps, bars and the menu at concrete inputs.
use wmii.Base.{
  ℕ, Bool, ◌||◌, ltb, if◌then◌else◌, map, ◌≡◌, refl, true, false, none, some, List, [], ◌∷◌, ◌++◌,
  ◌+◌, take, arith,
}
use wmii.Base.Str.{CString, codes, strcmp}
use wmii.Util.Strlcat.{strlcat, strlcat_result, left_over, strlcat_lem}
use wmii.Map.{Bucket, map_getp}
use wmii.Map.Chain.{Gets, map_getp-Gets}
use wmii.Bar.{Bar, bar_create}
use wmii.Bar.Sorted.{Created, bar_create-Created}
use wmii.Menu.{delete_to, caret_insert}
use wmii.Menu.Caret.{around, caret_insert-delete}
use wmii.Util.Strcasestr.{Lib, strcasestr}
use wmii.Util.Strcasestr.First.{starts_with, occurs, strcasestr-FindsFirst}
use wmii.Menu.Items.{Item, filter_list}
use wmii.Menu.Items.Ranked.{keep, filter_list-ranked}
use wmii.Menu.History.{Dir, history_search}
use wmii.Menu.History.Search.{history_search-back_forward}
use wmii.Util.Unquote.{unquote_from}
use wmii.Util.Unquote.Quoted.{quoted, unquote_from-quoted}
use Dir.{forward_dir, backward_dir}

strlcat_lem_example :
    (strlcat 4 (codes "a" ++ (0 ∷ (7 ∷ 7 ∷ []))) (codes "xyz")
      ≡ codes "a" ++ (take 2 (codes "xyz") ++ (0 ∷ left_over (7 ∷ 7 ∷ []) (codes "xyz"))))
    × (strlcat_result 4 (codes "a" ++ (0 ∷ (7 ∷ 7 ∷ []))) (codes "xyz") ≡ 1 + 3)
    × (strlcat 2 (codes "ab") (codes "xyz") ≡ codes "ab")
    × (strlcat_result 2 (codes "ab") (codes "xyz") ≡ 2 + 3)
strlcat_lem_example =
    strlcat_lem (codes "a") (7 ∷ 7 ∷ []) (codes "xyz") (codes "ab") ((λ e. omega arith), tt)
      ((λ e. omega arith), ((λ e. omega arith), tt)) (omega arith) (omega arith)

abbrev chain : Bucket ℕ
chain = record { hash = 3; key = none; val = some 7 } ∷ []

map_getp-Gets_example : Gets chain 5 (map_getp chain 5 false) (map_getp chain 5 true)
map_getp-Gets_example = map_getp-Gets chain 5 (tt, tt)

abbrev bars : List Bar
bars = record { id = 1; name = codes "a" } ∷ record { id = 2; name = codes "c" } ∷ []

bar_create-Created_example : Created bars (codes "b") (bar_create (λ s. s) bars 3 (codes "b"))
unfolding strcmp
bar_create-Created_example =
    bar_create-Created (λ s. s) bars 3 (codes "b") refl ((refl, tt), (tt, tt))

caret_insert-delete_example :
    ((delete_to (caret_insert (around (codes "ab") (codes "c") 8) (codes "xy") false) 2).text
      ≡ codes "ab" ++ codes "c")
    × ((delete_to (caret_insert (around (codes "ab") (codes "c") 8) (codes "xy") false) 2).at ≡ 2)
caret_insert-delete_example = caret_insert-delete (codes "ab") (codes "xy") (codes "c") 8

unquote_from-quoted_example :
    unquote_from 3 2 (quoted (codes "it's" ∷ ([] ∷ []))) ≡ codes "it's" ∷ ([] ∷ [])
unquote_from-quoted_example =
    unquote_from-quoted 3 2 (codes "it's" ∷ ([] ∷ [])) (omega arith) (omega arith)

-- tolower of an ASCII letter.
abbrev lower : ℕ → ℕ
lower c = if ltb c b'A' || ltb b'Z' c then c else c + 32

abbrev ascii_case : Lib
ascii_case = record {
  tolower = lower;
  same_start = λ (s t : CString) (n : ℕ). starts_with (map lower t) (map lower s);
}

abbrev item : CString → Item
item s = record { string = s; retstring = s }

filter_list-ranked_example :
    filter_list
      (strcasestr ascii_case)
      (item (codes "xab") ∷ (item (codes "ABC") ∷ (item (codes "Ab") ∷ [])))
      (codes "ab")
    ≡ item (codes "Ab") ∷ (item (codes "ABC") ∷ (item (codes "xab") ∷ []))
unfolding keep starts_with occurs strcmp
filter_list-ranked_example =
    filter_list-ranked lower (strcasestr ascii_case)
      (strcasestr-FindsFirst ascii_case (λ s t. refl)) (codes "ab")
      (item (codes "xab") ∷ (item (codes "ABC") ∷ (item (codes "Ab") ∷ [])))

abbrev prefix : CString → CString → ℕ → Bool
prefix s t n = starts_with (take n t) s

history_search-back_forward_example :
    history_search prefix
      (codes "ls")
      (history_search prefix
        (codes "ls")
        (record { older = codes "cd" ∷ (codes "ls -l" ∷ []); newer = []; typed = none })
        backward_dir
        (codes "ls")
        2).history
      forward_dir
      (codes "ls")
      2
    ≡ record {
      string = some (codes "ls");
      history = record {
        older = codes "cd" ∷ (codes "ls -l" ∷ []);
        newer = [];
        typed = some (codes "ls");
      };
    }
unfolding starts_with
history_search-back_forward_example =
    history_search-back_forward prefix (codes "ls") 2 (codes "ls")
      (codes "cd" ∷ (codes "ls -l" ∷ [])) none refl
