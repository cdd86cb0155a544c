-- ===== src/Util/Number.antt =====
-- lib/libstuff/util/getbase.c, getulong.c, getlong.c, getint.c and strend.c: numbers in messages.
use wmii.Base.{
  ℕ, ◌+◌, ◌-◌, ◌*◌, ◌≡◌, ◌⊎◌, Bool, ◌&&◌, ◌||◌, not, Option, none, some, [], ◌∷◌, arith, ◌==◌, leb,
  if◌then◌else◌, length, drop, get_or,
}
use wmii.Base.Int.{ℤ, negsuc, ◌*ℤ◌}
use wmii.Base.Str.{CString}

-- `p[i]`, with the terminating NUL.
abbrev pub at : CString → ℕ → ℕ
at p i = get_or p i 0

abbrev pub isdigit : ℕ → Bool
isdigit c = leb b'0' c && leb c b'9'

-- `*sign`, as the source leaves it: 1, -1, or 0 for a sign behind a prefix.
pub data Sign : Type 0 where
  plus minus refused : Sign

-- What `getbase` leaves: the base, where `*s` stands, and the sign.
pub record Prefix : Type 0 where
  pub base : ℕ
  pub text : CString
  pub sign : Sign

-- The part behind the sign.
unfoldable pub radix : CString → ℕ × CString
radix p =
    if (at p 0 == b'0') && (at p 1 == b'x')
    then (16, drop 2 p)
    else if isdigit (at p 0)
    then (if at p 1 == b'r'
        then (at p 0 - b'0', drop 2 p)
        else if isdigit (at p 1) && (at p 2 == b'r')
        then (10 * (at p 0 - b'0') + (at p 1 - b'0'), drop 3 p)
        else (10, p))
    else if at p 0 == b'0'
    then (8, p)
    else (10, p)

-- A second sign behind a base other than ten is refused.
unfoldable pub checked : Sign → ℕ × CString → Prefix
checked sign (base, text) = record {
  base = base;
  text = text;
  sign = if not (base == 10) && ((at text 0 == b'-') || (at text 0 == b'+')) then refused else sign;
}

unfoldable pub getbase : CString → Prefix
unfolding radix checked
getbase s =
    if at s 0 == b'-'
    then checked minus (radix (drop 1 s))
    else if at s 0 == b'+'
    then checked plus (radix (drop 1 s))
    else checked plus (radix s)

-- The C library's strtoul and strtol: the value, and what is left of the text.
pub record Strtol : Type 0 where
  pub strtoul : CString → ℕ → ℕ × CString
  pub strtol : CString → ℕ → ℤ × CString

abbrev pub at_end {ℓ} : {A : Type ℓ} → A × CString → Option A
at_end (v, []) = some v
at_end (v, c ∷ s) = none

module _ (lib : Strtol) where
  open lib use {strtoul, strtol}

  unfoldable pub unsigned : Prefix → Sign → Option ℕ
  unsigned p plus = at_end (strtoul p.text p.base)
  unsigned p minus = none
  unsigned p refused = none

  -- `getulong`: `none` where it returns false.
  unfoldable pub getulong : Option CString → Option ℕ
  unfolding getbase unsigned
  getulong none = none
  getulong (some s) = unsigned (getbase s) (getbase s).sign

  unfoldable pub signed : Prefix → Sign → Option ℤ
  unfolding ◌*ℤ◌
  signed p plus = at_end (strtol p.text p.base)
  signed p minus = let (v, rest) = strtol p.text p.base in at_end (negsuc 0 *ℤ v, rest)
  signed p refused = none

  unfoldable pub getlong : Option CString → Option ℤ
  unfolding getbase signed
  getlong none = none
  getlong (some s) = signed (getbase s) (getbase s).sign

-- `strend(s, n)`: the last `n` bytes.
unfoldable pub strend : CString → ℕ → CString
strend s n = drop (length s - n) s

-- The test for a leading '0' stands behind the test for a digit, so no text is read in octal for its
-- leading zero: base 8 comes only from an explicit "8r" or "08r" behind the sign.
radix_octal :
    (p : CString)
    → (radix p).0 ≡ 8
    → ((at p 0 ≡ b'8') × (at p 1 ≡ b'r')) ⊎ ((at p 0 ≡ b'0') × (at p 1 ≡ b'8') × (at p 2 ≡ b'r'))
unfolding radix
radix_octal p h = ground arith
