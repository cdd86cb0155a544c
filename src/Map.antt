-- ===== src/Map.antt =====
-- lib/libstuff/map.c: hash tables with chained buckets, keyed by a number or by a string. A bucket is
-- the list of its entries in the order of their `next` pointers; a returned `MapEnt **` is the bucket
-- with an index into it, and `NM` is `none`.
pub mod Chain
use Prim.Native.Nat.{Ordering, bit_xor}
use wmii.Base.{
  ℕ, zero, suc, ◌+◌, ◌-◌, ◌*◌, ◌%◌, ◌^◌, Bool, true, false, Option, none, some, List, [], ◌∷◌, ◌==◌,
  ◌&&◌, ◌||◌, not, leb, ltb, if◌then◌else◌, get_or, get_elem?, set, length, drop,
}
use wmii.Base.Str.{CString, strcmp}

-- `struct MapEnt`; `key` is nil for an entry that `map_get` made.
pub record Entry {ℓ} (V : Type ℓ) : Type ℓ where
  pub hash : ℕ
  pub key : Option CString
  pub val : Option V

-- `ulong`
abbrev pub word : ℕ
word = 2 ^ 64

-- `char` is signed: a byte from 128 on is sign-extended before the exclusive or.
abbrev pub widen : ℕ → ℕ
widen c = if ltb c 128 then c else c + word - 256

-- `h += h << 5; h ^= *str++;`
unfoldable pub hash_from : ℕ → CString → ℕ
hash_from h [] = h
hash_from h (c ∷ s) = hash_from (bit_xor ((h + h * 32 % word) % word) (widen c)) s

unfoldable pub hash : CString → ℕ
unfolding hash_from
hash s = hash_from 5381 s

abbrev pub Bucket {ℓ} : Type ℓ → Type ℓ
Bucket V = List (Entry V)

-- What a lookup leaves: the bucket, how many entries it inserted, and where `e` points.
pub record Found {ℓ} (V : Type ℓ) : Type ℓ where
  pub bucket : Bucket V
  pub inserted : ℕ
  pub place : Option ℕ

abbrev pub found {ℓ} : {V : Type ℓ} → Bucket V → ℕ → Option ℕ → Found V
found b n p = record { bucket = b; inserted = n; place = p }

module _ {ℓ} {V : Type ℓ} where
  abbrev pub fresh : ℕ → Option CString → Entry V
  fresh h key = record { hash = h; key = key; val = none }

  -- `for(; *e; e = &(*e)->next) if((*e)->hash >= val) break;`: the index where it stops.
  unfoldable pub seek : Bucket V → ℕ → ℕ
  seek [] val = 0
  seek (e ∷ b) val = if leb val e.hash then 0 else suc (seek b val)

  -- `insert` at the place that `e` points to.
  unfoldable pub insert_at : Bucket V → ℕ → Entry V → Bucket V
  insert_at b zero e = e ∷ b
  insert_at [] (suc i) e = e ∷ []
  insert_at (x ∷ b) (suc i) e = x ∷ insert_at b i e

  -- `*e = te->next;`
  unfoldable pub remove_at : Bucket V → ℕ → Bucket V
  remove_at [] i = []
  remove_at (x ∷ b) zero = b
  remove_at (x ∷ b) (suc i) = x ∷ remove_at b i

  -- What a pointer with this result reads: `*e`, nil for `&NM` and at the end of the chain.
  abbrev pub deref : Bucket V → Option ℕ → Option (Entry V)
  deref b none = none
  deref b (some i) = get_elem? b i

  abbrev pub has_hash : ℕ → Option (Entry V) → Bool
  has_hash val none = false
  has_hash val (some e) = e.hash == val

  -- `map_getp` on its bucket.
  unfoldable pub map_getp : Bucket V → ℕ → Bool → Found V
  unfolding seek insert_at
  map_getp b val create =
      let i = seek b val in
      if has_hash val (get_elem? b i)
      then found b 0 (some i)
      else if create
      then found (insert_at b i (fresh val none)) 1 (some i)
      else found b 0 none

  -- The second loop of `hash_getp` over the rest of a chain, from index `i` on: where it stops, and
  -- whether the test that follows it inserts there; `none` is a strcmp of a nil key.
  unfoldable pub walk : Bucket V → ℕ → CString → ℕ → Option (ℕ × Bool)
  unfolding strcmp
  walk [] h str i = some (i, true)
  walk (e ∷ b) h str i =
      let rest = walk b h str (i + 1) in
      if ltb h e.hash then some (i, true) else elim e.key [
        | none ↦ none
        | some key ↦ elim (strcmp key str) [
          | Ordering.eq ↦ some (i, false)
          | Ordering.gt ↦ some (i, true)
          | Ordering.lt ↦ rest
        ]
      ]

  -- `if(create) insert(map, e, h, estrdup(str));`; without `create` the pointer stays where it is.
  unfoldable pub after_walk : Bucket V → ℕ → CString → Bool → Option (ℕ × Bool) → Option (Found V)
  unfolding insert_at
  after_walk b h str create none = none
  after_walk b h str create (some (j, false)) = some (found b 0 (some j))
  after_walk b h str create (some (j, true)) =
      some (
        if create
        then found (insert_at b j (fresh h (some str))) 1 (some j)
        else found b 0 (some j))

  abbrev pub set_key : Bucket V → ℕ → CString → Bucket V
  set_key [] i str = []
  set_key (e ∷ b) zero str = record e { key = some str } ∷ b
  set_key (e ∷ b) (suc i) str = e ∷ set_key b i str

  -- The two branches of `hash_getp`, by the entry that `map_getp` found; `f` is what it left.
  unfoldable pub by_entry : Found V → ℕ → ℕ → CString → Bool → Option (Entry V) → Option (Found V)
  unfolding walk after_walk
  by_entry f i h str create none = some f
  by_entry f i h str create (some e) = elim e.key [
    | none ↦ some (found (set_key f.bucket i str) f.inserted (some i))
    | some key ↦ after_walk f.bucket h str create (walk (drop i f.bucket) h str i)
  ]

  unfoldable pub by_place : Found V → ℕ → CString → Bool → Option ℕ → Option (Found V)
  unfolding by_entry
  by_place f h str create none = some f
  by_place f h str create (some i) = by_entry f i h str create (get_elem? f.bucket i)

  -- `hash_getp` on the bucket of `h = hash(str)`; `none` is a read through nil.
  unfoldable pub hash_getp : Bucket V → ℕ → CString → Bool → Option (Found V)
  unfolding map_getp by_place
  hash_getp b h str create = let f = map_getp b h create in by_place f h str create f.place

-- `struct Map`: `nhash` buckets and the number of entries.
pub record Map {ℓ} (V : Type ℓ) : Type ℓ where
  pub bucket : List (Bucket V)
  pub nmemb : ℕ

module _ {ℓ} {V : Type ℓ} where
  abbrev pub slot : Map V → ℕ → ℕ
  slot m h = h % length m.bucket

  abbrev pub update : Map V → ℕ → Found V → Map V
  update m h f = record {
    bucket = set m.bucket (slot m h) f.bucket;
    nmemb = (m.nmemb + f.inserted) % 2 ^ 32;
  }

  -- `map_get`: the table, and the entry whose value is pointed to.
  unfoldable pub map_get : Map V → ℕ → Bool → Map V × Option (Entry V)
  unfolding map_getp
  map_get m val create =
      let f = map_getp (get_or m.bucket (slot m val) []) val create in
      (update m val f, deref f.bucket f.place)

  unfoldable pub hash_get : Map V → CString → Bool → Option (Map V × Option (Entry V))
  unfolding hash hash_getp
  hash_get m str create =
      elim (hash_getp (get_or m.bucket (slot m (hash str)) []) (hash str) str create) [
        | none ↦ none
        | some f ↦ some (update m (hash str) f, deref f.bucket f.place)
      ]

  -- What `map_rm` and `hash_rm` do with the pointer: unlink the entry and count it off.
  unfoldable pub unlink : Map V → ℕ → Found V → Option ℕ → Map V × Option (Entry V)
  unfolding remove_at
  unlink m h f none = (m, none)
  unlink m h f (some i) = elim (get_elem? f.bucket i) [
    | none ↦ (m, none)
    | some e ↦ (
      record { bucket = set m.bucket (slot m h) (remove_at f.bucket i); nmemb = m.nmemb - 1 },
      some e,
    )
  ]

  unfoldable pub map_rm : Map V → ℕ → Map V × Option (Entry V)
  unfolding map_getp unlink
  map_rm m val =
      let f = map_getp (get_or m.bucket (slot m val) []) val false in unlink m val f f.place

  unfoldable pub hash_rm : Map V → CString → Option (Map V × Option (Entry V))
  unfolding hash hash_getp unlink
  hash_rm m str = elim (hash_getp (get_or m.bucket (slot m (hash str)) []) (hash str) str false) [
    | none ↦ none
    | some f ↦ some (unlink m (hash str) f f.place)
  ]
