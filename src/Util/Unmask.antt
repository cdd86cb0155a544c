-- ===== src/Util/Unmask.antt =====
-- lib/libstuff/util/unmask.c: the names of the bits of a mask, and a separator between them.
use wmii.Base.{ℕ, suc, ◌/◌, ◌%◌, ◌^◌, Bool, false, List, [], ◌∷◌, ◌++◌, ◌==◌, if◌then◌else◌}
use wmii.Base.Str.{CString}

-- `mask & (1<<i)`, of a mask that is not negative.
abbrev pub has_bit : ℕ → ℕ → Bool
has_bit mask i = mask / 2 ^ i % 2 == 1

-- The separator goes before a name once something has been printed.
abbrev pub add_name : CString → ℕ → CString → CString
add_name [] sep name = name
add_name (c ∷ out) sep name = (c ∷ out) ++ (sep ∷ name)

-- `*table[i] && (mask & (1<<i))`
abbrev pub shown : ℕ → ℕ → CString → Bool
shown mask i [] = false
shown mask i (c ∷ name) = has_bit mask i

unfoldable pub unmask_from : ℕ → ℕ → ℕ → CString → List CString → CString
unmask_from mask sep i out [] = out
unmask_from mask sep i out (name ∷ table) =
    unmask_from mask sep (suc i) (if shown mask i name then add_name out sep name else out) table

unfoldable pub unmask : ℕ → List CString → ℕ → CString
unfolding unmask_from
unmask mask table sep = unmask_from mask sep 0 [] table
