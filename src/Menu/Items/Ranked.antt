-- ===== src/Menu/Items/Ranked.antt =====
-- What `filter_list` returns, for a search that finds the first place of a text.
use wmii.Base.{
  ℕ, zero, suc, ◌≡◌, refl, sym, ap, ◌∙◌, Bool, true, false, not, ◌&&◌, ◌||◌, Option, none, some,
  List, [], ◌∷◌, ◌++◌, ◌==◌, if◌then◌else◌, length, map, arith, append_assoc, append_nil,
  length-map,
}
use wmii.Base.Str.{CString, strcmp, streq}
use wmii.Util.Strcasestr.{next_offset}
use wmii.Util.Strcasestr.First.{starts_with, occurs, first_at, FindsFirst}
use wmii.Menu.Items.{Item, Linked, link_item, group_from, filter_list}

-- The items that are the text, that only start with it, and that hold it elsewhere.
abbrev pub whole : (ℕ → ℕ) → CString → Item → Bool
whole fold t i = streq (map fold t) (map fold i.string)

abbrev pub start_only : (ℕ → ℕ) → CString → Item → Bool
start_only fold t i =
    starts_with (map fold t) (map fold i.string) && not (streq (map fold t) (map fold i.string))

abbrev pub inside_only : (ℕ → ℕ) → CString → Item → Bool
inside_only fold t i =
    occurs (map fold t) (map fold i.string) && not (starts_with (map fold t) (map fold i.string))

unfoldable pub keep : (Item → Bool) → List Item → List Item
keep p [] = []
keep p (i ∷ is) = let rest = keep p is in if p i then i ∷ rest else rest

abbrev one_if : Bool → Item → List Item
one_if true i = i ∷ []
one_if false i = []

abbrev is_zero : Option ℕ → Bool
is_zero none = false
is_zero (some zero) = true
is_zero (some (suc n)) = false

abbrev is_later : Option ℕ → Bool
is_later none = false
is_later (some zero) = false
is_later (some (suc n)) = true

is_zero-next_offset : (o : Option ℕ) → is_zero (next_offset o) ≡ false
is_zero-next_offset none = refl
is_zero-next_offset (some n) = refl

is_zero-first_at : (t s : CString) → is_zero (first_at t s) ≡ starts_with t s
unfolding first_at
is_zero-first_at t [] = zero_if (starts_with t [])
  where
    zero_if : (b : Bool) → is_zero (if b then some 0 else none) ≡ b
    zero_if true = refl
    zero_if false = refl
is_zero-first_at t (c ∷ s) = zero_if (starts_with t (c ∷ s))
  where
    zero_if : (b : Bool) → is_zero (if b then some 0 else next_offset (first_at t s)) ≡ b
    zero_if true = refl
    zero_if false = is_zero-next_offset (first_at t s)

abbrev is_found : Option ℕ → Bool
is_found none = false
is_found (some n) = true

is_found-first_at : (t s : CString) → is_found (first_at t s) ≡ occurs t s
unfolding first_at occurs
is_found-first_at t [] = found_if (starts_with t [])
  where
    found_if : (b : Bool) → is_found (if b then some 0 else none) ≡ b
    found_if true = refl
    found_if false = refl
is_found-first_at t (c ∷ s) =
    found_if (starts_with t (c ∷ s)) ∙ ap (λ b. starts_with t (c ∷ s) || b) (is_found-first_at t s)
  where
    found_on : (o : Option ℕ) → is_found (next_offset o) ≡ is_found o
    found_on none = refl
    found_on (some n) = refl

    found_if :
        (b : Bool)
        → is_found (if b then some 0 else next_offset (first_at t s))
          ≡ (b || is_found (first_at t s))
    found_if true = refl
    found_if false = found_on (first_at t s)

later_parts : (o : Option ℕ) → is_later o ≡ (is_found o && not (is_zero o))
later_parts none = refl
later_parts (some zero) = refl
later_parts (some (suc n)) = refl

-- A text of the same length that starts with the other one is that one.
start-length : (t s : CString) → (starts_with t s && (length s == length t)) ≡ streq t s
unfolding starts_with strcmp
start-length [] [] = refl
start-length [] (d ∷ s) = ground arith
start-length (c ∷ t) [] = refl
start-length (c ∷ t) (d ∷ s) = ground (arith, start-length t s)

-- One item, and the groups that it is linked into.
module _ (len : ℕ) (i : Item) where
  exact-link :
      (o : Option ℕ) (g : Linked)
      → (link_item o len i g).exact ≡ g.exact ++ one_if (is_zero o && (length i.string == len)) i
  exact-link none g = sym (append_nil g.exact)
  exact-link (some (suc n)) g = sym (append_nil g.exact)
  exact-link (some zero) g = exact_if (length i.string == len)
    where
      exact_if :
          (b : Bool)
          → (if b
              then record g { exact = g.exact ++ (i ∷ []) }
              else record g { start = g.start ++ (i ∷ []) }).exact
            ≡ g.exact ++ one_if b i
      exact_if true = refl
      exact_if false = sym (append_nil g.exact)

  start-link :
      (o : Option ℕ) (g : Linked)
      → (link_item o len i g).start
        ≡ g.start ++ one_if (is_zero o && not (length i.string == len)) i
  start-link none g = sym (append_nil g.start)
  start-link (some (suc n)) g = sym (append_nil g.start)
  start-link (some zero) g = start_if (length i.string == len)
    where
      start_if :
          (b : Bool)
          → (if b
              then record g { exact = g.exact ++ (i ∷ []) }
              else record g { start = g.start ++ (i ∷ []) }).start
            ≡ g.start ++ one_if (not b) i
      start_if true = sym (append_nil g.start)
      start_if false = refl

  substr-link :
      (o : Option ℕ) (g : Linked) → (link_item o len i g).substr ≡ g.substr ++ one_if (is_later o) i
  substr-link none g = sym (append_nil g.substr)
  substr-link (some (suc n)) g = refl
  substr-link (some zero) g = substr_if (length i.string == len)
    where
      substr_if :
          (b : Bool)
          → (if b
              then record g { exact = g.exact ++ (i ∷ []) }
              else record g { start = g.start ++ (i ∷ []) }).substr
            ≡ g.substr ++ []
      substr_if true = sym (append_nil g.substr)
      substr_if false = sym (append_nil g.substr)

keep-cons :
    (p : Item → Bool) (i : Item) (is : List Item) → keep p (i ∷ is) ≡ one_if (p i) i ++ keep p is
unfolding keep
keep-cons p i is = cons_if (p i)
  where
    cons_if : (b : Bool) → (if b then i ∷ keep p is else keep p is) ≡ one_if b i ++ keep p is
    cons_if true = refl
    cons_if false = refl

-- What a group is after the whole loop, from what it is after one item.
group-cons :
    (p : Item → Bool) (i : Item) (is l m r : List Item) (b : Bool)
    → p i ≡ b
    → m ≡ l ++ one_if b i
    → r ≡ m ++ keep p is
    → r ≡ l ++ keep p (i ∷ is)
group-cons p i is l m r b e h k =
    k
    ∙ ap (λ x. x ++ keep p is) (h ∙ ap (λ x. l ++ one_if x i) (sym e))
    ∙ append_assoc l (one_if (p i) i) (keep p is)
    ∙ ap (λ x. l ++ x) (sym (keep-cons p i is))

and_not : (a b : Bool) → (a && not (a && b)) ≡ (a && not b)
and_not true b = refl
and_not false b = refl

-- The search tells the three kinds apart.
module _ (fold : ℕ → ℕ) (find : CString → CString → Option ℕ) (h : FindsFirst fold find)
    (t : CString) where
  same_length :
      (i : Item)
      → (length i.string == length t) ≡ (length (map fold i.string) == length (map fold t))
  same_length i =
      ap (λ n. n == length t) (sym (length-map i.string fold))
      ∙ ap (λ n. length (map fold i.string) == n) (sym (length-map t fold))

  zero_start : (i : Item) → starts_with (map fold t) (map fold i.string) ≡ is_zero (find i.string t)
  zero_start i = sym (ap is_zero (h i.string t) ∙ is_zero-first_at (map fold t) (map fold i.string))

  whole_kind :
      (i : Item) → whole fold t i ≡ (is_zero (find i.string t) && (length i.string == length t))
  whole_kind i =
      sym (start-length (map fold t) (map fold i.string))
      ∙ ap (λ b. starts_with (map fold t) (map fold i.string) && b) (sym (same_length i))
      ∙ ap (λ b. b && (length i.string == length t)) (zero_start i)

  start_kind :
      (i : Item)
      → start_only fold t i ≡ (is_zero (find i.string t) && not (length i.string == length t))
  start_kind i =
      ap (λ b. starts_with (map fold t) (map fold i.string) && not b) (whole_kind i)
      ∙ ap (λ b. b && not (is_zero (find i.string t) && (length i.string == length t)))
          (zero_start i)
      ∙ and_not (is_zero (find i.string t)) (length i.string == length t)

  inside_kind : (i : Item) → inside_only fold t i ≡ is_later (find i.string t)
  inside_kind i =
      ap (λ b. occurs (map fold t) (map fold i.string) && not b) (zero_start i)
      ∙ ap (λ b. b && not (is_zero (find i.string t)))
          (sym (ap is_found (h i.string t) ∙ is_found-first_at (map fold t) (map fold i.string)))
      ∙ sym (later_parts (find i.string t))

  group_from-keep :
      (is : List Item) (g : Linked)
      → ((group_from find is t g).exact ≡ g.exact ++ keep (whole fold t) is)
        × ((group_from find is t g).start ≡ g.start ++ keep (start_only fold t) is)
        × ((group_from find is t g).substr ≡ g.substr ++ keep (inside_only fold t) is)
  unfolding group_from keep
  group_from-keep [] g =
      (sym (append_nil g.exact), sym (append_nil g.start), sym (append_nil g.substr))
  group_from-keep (i ∷ is) g =
      let m = link_item (find i.string t) (length t) i g in
      let (e, s, u) = group_from-keep is m in
      (
        group-cons (whole fold t) i is g.exact m.exact (group_from find is t m).exact
            (is_zero (find i.string t) && (length i.string == length t)) (whole_kind i)
            (exact-link (length t) i (find i.string t) g) e,
        group-cons (start_only fold t) i is g.start m.start (group_from find is t m).start
            (is_zero (find i.string t) && not (length i.string == length t)) (start_kind i)
            (start-link (length t) i (find i.string t) g) s,
        group-cons (inside_only fold t) i is g.substr m.substr (group_from find is t m).substr
            (is_later (find i.string t)) (inside_kind i)
            (substr-link (length t) i (find i.string t) g) u,
      )

  -- Where the search finds the first place of a text, `filter_list` returns the items that are the
  -- filter, then those that only start with it, then those that hold it elsewhere, each in the order in
  -- which they stand.
  pub filter_list-ranked :
      (items : List Item)
      → filter_list find items t
        ≡ keep (whole fold t) items
          ++ (keep (start_only fold t) items ++ keep (inside_only fold t) items)
  unfolding filter_list
  filter_list-ranked items =
      let (e, s, u) = group_from-keep items (record { exact = []; start = []; substr = [] }) in
      ap
        (λ x.
          x
          ++ ((group_from find items t (record { exact = []; start = []; substr = [] })).start
              ++ (group_from find items t (record { exact = []; start = []; substr = [] })).substr))
        e
      ∙ ap
          (λ x.
            keep (whole fold t) items
            ++ (x
                ++ (group_from find items t
                    (record { exact = []; start = []; substr = [] })).substr))
          s
      ∙ ap (λ x. keep (whole fold t) items ++ (keep (start_only fold t) items ++ x)) u
