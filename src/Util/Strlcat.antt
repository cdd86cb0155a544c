-- ===== src/Util/Strlcat.antt =====
-- lib/libstuff/util/strlcat.c. The buffer is its `size` cells, NULs included.
use native.Mathlib.Numerals.{add-one}
use wmii.Base.{
  ℕ, zero, suc, ◌+◌, ◌<◌, ◌≡◌, ◌≢◌, ◌^◌, refl, List, [], ◌∷◌, ◌++◌, arith, ◌==◌, if◌then◌else◌,
  length, ap, take, ◌∙◌,
}
use wmii.Base.Int.{ℤ, pos, negsuc, ◌-ℤ◌, to_uint}
use wmii.Base.Str.{CString}

-- `*d = '\0'`
unfoldable pub terminate : List ℕ → List ℕ
terminate [] = []
terminate (c ∷ cells) = 0 ∷ cells

-- The second loop, from `d` on, with `n` still to write; then the NUL.
unfoldable pub copy : ℕ → List ℕ → CString → List ℕ
unfolding terminate
copy zero cells src = terminate cells
copy (suc n) cells [] = terminate cells
copy (suc n) [] (c ∷ src) = []
copy (suc n) (x ∷ cells) (c ∷ src) = c ∷ copy n cells src

-- `if(len > 0)`: with no room left neither a byte nor the NUL is written.
unfoldable pub append_at : ℕ → List ℕ → CString → List ℕ
unfolding copy
append_at zero cells src = cells
append_at (suc len) cells src = copy (suc len) cells src

-- The first loop, `while(n-- > 0 && *d != '\0') d++`, and what follows it.
unfoldable pub strlcat : ℕ → List ℕ → CString → List ℕ
unfolding append_at
strlcat zero cells src = cells
strlcat (suc n) [] src = []
strlcat (suc n) (c ∷ cells) src =
    if c == 0 then append_at n (c ∷ cells) src else c ∷ strlcat n cells src

-- `len`: what the first loop leaves in `n`; -1 where it found no NUL.
unfoldable pub room_left : ℕ → List ℕ → ℤ
room_left zero cells = negsuc 0
room_left (suc n) [] = negsuc 0
room_left (suc n) (c ∷ cells) = if c == 0 then pos n else room_left n cells

-- `return size - n - 1;`, where the second loop has taken the source's length from `n`.
unfoldable pub strlcat_result : ℕ → List ℕ → CString → ℕ
unfolding room_left to_uint ◌-ℤ◌
strlcat_result size cells src =
    to_uint (pos size -ℤ (room_left size cells -ℤ pos (length src)) -ℤ pos 1)

-- No byte of the text is NUL.
abbrev pub NoNul : CString → Type 0
NoNul [] = Unit {0}
NoNul (c ∷ s) = (c ≢ 0) × NoNul s

-- What stands behind the terminating NUL once `src` has been written over the padding.
unfoldable pub left_over : List ℕ → CString → List ℕ
left_over [] src = []
left_over (x ∷ pad) [] = x ∷ pad
left_over (x ∷ pad) (c ∷ src) = left_over pad src

copy_lem :
    (x : ℕ) (pad : List ℕ) (src : CString)
    → copy (length pad) (x ∷ pad) src ≡ take (length pad) src ++ (0 ∷ left_over pad src)
unfolding copy left_over
copy_lem x [] src = refl
copy_lem x (y ∷ pad) [] = refl
copy_lem x (y ∷ pad) (c ∷ src) = ap (λ l. c ∷ l) (copy_lem y pad src)

append_at_lem :
    (pad : List ℕ) (src : CString)
    → append_at (length pad) (0 ∷ pad) src ≡ take (length pad) src ++ (0 ∷ left_over pad src)
unfolding append_at left_over
append_at_lem [] src = refl
append_at_lem (y ∷ pad) src = copy_lem 0 (y ∷ pad) src

tail_sum :
    (a p s : ℕ)
    → a + p + s + 1 < 2 ^ 31
    → to_uint (pos (a + p + 1) -ℤ (pos p -ℤ pos s) -ℤ pos 1) ≡ a + s
unfolding to_uint ◌-ℤ◌
tail_sum a p s m = ground arith

full_sum : (f s : ℕ) → f + s + 1 < 2 ^ 31 → to_uint (pos f -ℤ (negsuc 0 -ℤ pos s) -ℤ pos 1) ≡ f + s
unfolding to_uint ◌-ℤ◌
full_sum f s m = ground arith

strlcat_cells :
    (k : ℕ) (a : CString) (pad : List ℕ) (src : CString)
    → k ≡ length a + length pad
    → NoNul a
    → strlcat (suc k) (a ++ (0 ∷ pad)) src ≡ a ++ (take (length pad) src ++ (0 ∷ left_over pad src))
unfolding strlcat
strlcat_cells k [] pad src e h =
    ap (λ n. append_at n (0 ∷ pad) src) (omega arith) ∙ append_at_lem pad src
strlcat_cells zero (c ∷ a) pad src e h = absurd (omega arith)
strlcat_cells (suc k) (c ∷ a) pad src e h =
    ground (arith, h.0, strlcat_cells k a pad src (omega arith) h.1)

room_left_lem :
    (k : ℕ) (a : CString) (pad : List ℕ)
    → k ≡ length a + length pad
    → NoNul a
    → room_left (suc k) (a ++ (0 ∷ pad)) ≡ pos (length pad)
unfolding room_left
room_left_lem k [] pad e h = ap pos (omega arith)
room_left_lem zero (c ∷ a) pad e h = absurd (omega arith)
room_left_lem (suc k) (c ∷ a) pad e h = ground (arith, h.0, room_left_lem k a pad (omega arith) h.1)

room_left_none : (cells : List ℕ) → NoNul cells → room_left (length cells) cells ≡ negsuc 0
unfolding room_left
room_left_none [] h = refl
room_left_none (c ∷ cells) h = ground (arith, h.0, room_left_none cells h.1)

strlcat_none :
    (cells : List ℕ) (src : CString) → NoNul cells → strlcat (length cells) cells src ≡ cells
unfolding strlcat
strlcat_none [] src h = refl
strlcat_none (c ∷ cells) src h = ground (arith, h.0, strlcat_none cells src h.1)

-- On a buffer that holds the text `a` and its NUL, `strlcat` leaves as much of `a` and the source
-- as fits before a NUL, and changes nothing behind that NUL; on one with no NUL in it it changes
-- nothing. It returns the length that it tried to make, `a` (or the whole buffer) and the source.
-- The lengths together are below 2^31.
pub strlcat_lem :
    (a : CString) (pad : List ℕ) (src : CString) (full : List ℕ)
    → NoNul a
    → NoNul full
    → length a + length pad + length src + 1 < 2 ^ 31
    → length full + length src + 1 < 2 ^ 31
    → (strlcat (length a + length pad + 1) (a ++ (0 ∷ pad)) src
        ≡ a ++ (take (length pad) src ++ (0 ∷ left_over pad src)))
      × (strlcat_result (length a + length pad + 1) (a ++ (0 ∷ pad)) src ≡ length a + length src)
      × (strlcat (length full) full src ≡ full)
      × (strlcat_result (length full) full src ≡ length full + length src)
unfolding strlcat_result
strlcat_lem a pad src full h k m n = (
  ap (λ j. strlcat j (a ++ (0 ∷ pad)) src) (add-one (length a + length pad))
      ∙ strlcat_cells (length a + length pad) a pad src refl h,
  ap (λ z. to_uint (pos (length a + length pad + 1) -ℤ (z -ℤ pos (length src)) -ℤ pos 1))
        (ap (λ j. room_left j (a ++ (0 ∷ pad))) (add-one (length a + length pad))
          ∙ room_left_lem (length a + length pad) a pad refl h)
      ∙ tail_sum (length a) (length pad) (length src) m,
  strlcat_none full src k,
  ap (λ z. to_uint (pos (length full) -ℤ (z -ℤ pos (length src)) -ℤ pos 1)) (room_left_none full k)
      ∙ full_sum (length full) (length src) n,
)
