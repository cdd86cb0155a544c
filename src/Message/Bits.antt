-- ===== src/Message/Bits.antt =====
-- cmd/wmii/message.c, `setmask`: signed words switch the bits of a mask. A mask is its bits, the lowest
-- first; `look` is `_bsearch` in the mask's table.
pub mod Signs
use mathlib.Core.Option
use wmii.Base.{
  ℕ, zero, suc, ◌≡◌, refl, Bool, true, false, Option, none, some, List, [], ◌∷◌, ◌==◌, ◌||◌, not,
  if◌then◌else◌, map,
}
use wmii.Base.Str.{CString}
use wmii.Message.Mask.{drain, is_sep, peek}

abbrev pub Bits : Type 0
Bits = List Bool

-- What a sign does to a bit: `^` inverts it, `+` sets it, `-` clears it.
unfoldable pub switch : ℕ → Bool → Bool
switch add b =
    if add == b'^'
    then not b
    else (if add == b'+' then true else (if add == b'-' then false else b))

unfoldable pub switch_at : Bits → ℕ → ℕ → Bits
unfolding switch
switch_at [] i add = []
switch_at (b ∷ bs) zero add = switch add b ∷ bs
switch_at (b ∷ bs) (suc i) add = b ∷ switch_at bs i add

-- The loop; `none` is `error(Ebadvalue)`, which leaves the mask as it was.
unfoldable pub switch_all : (CString → Option ℕ) → Bits → List (ℕ × CString) → Option Bits
unfolding switch_at
switch_all look bits [] = some bits
switch_all look bits (t ∷ ts) = elim (look t.1) [
  | none ↦ none
  | some i ↦ switch_all look (switch_at bits i t.0) ts
]

-- The mask that the signs start from: the old one, if the text begins with a sign.
unfoldable pub start_bits : Bits → CString → Bits
start_bits old s = if is_sep (peek s) then old else map (λ b. false) old

unfoldable pub setmask : (CString → Option ℕ) → ℕ → Bits → CString → Option Bits
unfolding switch_all drain start_bits
setmask look fuel old s = elim (drain fuel fuel s b'+') [
  | none ↦ none
  | some ts ↦ switch_all look (start_bits old s) ts
]
