-- ===== src/Text/Shape.antt =====
-- Case, blanks and length of texts (utils.cpp).
use p44utils.Prelude.{
  ℕ, zero, suc, ◌-◌, ◌/◌, Bool, true, false, ◌&&◌, ◌||◌, not, List, [], ◌∷◌, ◌++◌, length, take,
  drop, get_or, leb, ltb, ◌==◌, if◌then◌else◌,
}
use p44utils.Text.Chars.{to_upper, to_lower, is_space, is_eol}

-- A size limit of 0 is none.
unfoldable pub lower_case : ℕ → List ℕ → List ℕ
lower_case max [] = []
lower_case max (c ∷ s) =
    let rest = lower_case (max - 1) s in to_lower c ∷ (if max == 1 then [] else rest)

unfoldable pub upper_case : ℕ → List ℕ → List ℕ
upper_case max [] = []
upper_case max (c ∷ s) =
    let rest = upper_case (max - 1) s in to_upper c ∷ (if max == 1 then [] else rest)

-- The first loop of trimWhiteSpace: the number of leading blanks.
unfoldable pub leading_space : List ℕ → ℕ
leading_space [] = 0
leading_space (c ∷ s) = let rest = leading_space s in if is_space c then suc rest else 0

-- The second loop: the end of the text, looked for from position `e` down.
unfoldable pub trailing_end : ℕ → List ℕ → ℕ
trailing_end zero s = 0
trailing_end (suc e) s =
    let rest = trailing_end e s in if is_space (get_or s e 0) then rest else suc e

-- std::string::substr takes a length that wraps around below 0 as "to the end"; where the first
-- loop has passed the end of the second one, it starts at the end of the text.
unfoldable pub trim_white_space : Bool → Bool → List ℕ → List ℕ
unfolding leading_space trailing_end
trim_white_space leading trailing text =
    let s = if leading then leading_space text else 0 in
    let e = if trailing then trailing_end (length text) text else length text in
    if ltb e s then drop s text else take (e - s) (drop s text)

pub data AbbreviationStyle : Type 0 where
  truncate middle_ellipsis end_ellipsis : AbbreviationStyle

abbrev pub is_truncate : AbbreviationStyle → Bool
is_truncate truncate = true
is_truncate middle_ellipsis = false
is_truncate end_ellipsis = false

abbrev pub is_middle : AbbreviationStyle → Bool
is_middle truncate = false
is_middle middle_ellipsis = true
is_middle end_ellipsis = false

abbrev pub ellipsis : List ℕ
ellipsis = b'.' ∷ b'.' ∷ b'.' ∷ []

-- The result, and the string.
unfoldable pub abbreviate : List ℕ → ℕ → AbbreviationStyle → Bool × List ℕ
abbreviate text max style =
    if ltb max (length text)
    then (
      true,
      if leb max 3 || is_truncate style
          then take max text
          else if is_middle style && leb 7 max
          then (let kept = max - 3 in
              let tail = kept / 2 in
              take (kept - tail) text ++ (ellipsis ++ drop (length text - tail) text))
          else take (max - 3) text ++ ellipsis,
    )
    else (false, text)

abbrev pub is_blank : ℕ → Bool
is_blank c = c == 32 || is_eol c || c == b'\t'

-- The loop of singleLine: `run` is wsrun, `limit` is aEllipsisAtMax.
unfoldable pub single_line_from : Bool → Bool → ℕ → List ℕ → List ℕ
single_line_from compact run limit [] = []
single_line_from compact run limit (c ∷ s) =
    let skips = is_blank c && (run && compact) in
    let rest = single_line_from compact (is_blank c) (if skips then limit else limit - 1) s in
    if skips
    then rest
    else (if is_blank c then 32 else c)
      ∷ (if not (limit == 0) && leb (limit - 1) 3 then ellipsis else rest)

unfoldable pub single_line : List ℕ → Bool → ℕ → List ℕ
unfolding single_line_from
single_line text compact limit = single_line_from compact false limit text

-- pathstring_make_dir
unfoldable pub pathstring_make_dir : List ℕ → List ℕ
pathstring_make_dir [] = []
pathstring_make_dir (c ∷ path) =
    if get_or (c ∷ path) (length path) 0 == b'/' then c ∷ path else c ∷ path ++ b'/' ∷ []
