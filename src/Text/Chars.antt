-- ===== src/Text/Chars.antt =====
-- Characters as bytes, with the tests and mappings of the C library in the "C" locale, and C strings
-- as lists of their bytes: the 0 that ends one is not in the list.
use p44utils.Prelude.{ℕ, ◌+◌, ◌-◌, Bool, ◌&&◌, ◌||◌, List, [], ◌∷◌, leb, ◌==◌, if◌then◌else◌}

abbrev pub between : ℕ → ℕ → ℕ → Bool
between a b c = leb a c && leb c b

abbrev pub to_upper : ℕ → ℕ
to_upper c = if between 97 122 c then c - 32 else c

abbrev pub to_lower : ℕ → ℕ
to_lower c = if between 65 90 c then c - 65 + 97 else c

abbrev pub is_space : ℕ → Bool
is_space c = c == 32 || between 9 13 c

abbrev pub is_digit : ℕ → Bool
is_digit c = between 48 57 c

abbrev pub is_alpha : ℕ → Bool
is_alpha c = between 65 90 c || between 97 122 c

abbrev pub is_alnum : ℕ → Bool
is_alnum c = is_alpha c || is_digit c

abbrev pub is_eol : ℕ → Bool
is_eol c = c == b'\n' || c == b'\r'

-- The longest start of a list with no character that passes the test, and the rest.
unfoldable pub break_at : (ℕ → Bool) → List ℕ → List ℕ × List ℕ
break_at stops [] = ([], [])
break_at stops (c ∷ s) =
    let (before, rest) = break_at stops s in if stops c then ([], c ∷ s) else (c ∷ before, rest)
