-- ===== src/Text/Bounds.antt =====
-- The length of shortened texts (utils.cpp).
use p44utils.Prelude.{
  All, Bool, false, not, ◌&&◌, ◌||◌, ◌==◌, ◌≢◌, ◌≤◌, leb, if◌then◌else◌, if_both, if_split, drop,
  take, ◌++◌, length-append, length-take, length-drop, ◌-◌, ◌/◌, [], ◌∷◌, arith, refl, ℕ, ◌≡◌, true,
  List, length, ltb, min,
}
use p44utils.Text.Shape.{
  ellipsis, is_blank, single_line, single_line_from, truncate, middle_ellipsis, end_ellipsis,
  AbbreviationStyle, abbreviate,
}

-- abbreviate answers true exactly when the text is longer than allowed, and the text is then
-- exactly as long as allowed, in each style; a shorter one keeps its length.
pub length-abbreviate :
    (text : List ℕ) (max : ℕ) (style : AbbreviationStyle)
    → let (shortened, result) = abbreviate text max style in
      (shortened ≡ ltb max (length text)) × (length result ≡ min max (length text))
unfolding abbreviate
length-abbreviate text max truncate = ground (arith, length-take max text)
length-abbreviate text max middle_ellipsis =
    let tail = (max - 3) / 2 in
    ground (
      arith,
      length-take max text,
      length-take (max - 3) text,
      length-append (take (max - 3) text) ellipsis,
      length-append (take (max - 3 - tail) text) (ellipsis ++ drop (length text - tail) text),
      length-take (max - 3 - tail) text,
      length-drop (length text - tail) text,
    )
length-abbreviate text max end_ellipsis = ground (
  arith,
  length-take max text,
  length-take (max - 3) text,
  length-append (take (max - 3) text) ellipsis,
)

-- A character that stands in a single line.
abbrev pub IsInline : ℕ → Type 0
IsInline c = (c == 32 || not (is_blank c)) ≡ true

line_char : (c : ℕ) → IsInline (if is_blank c then 32 else c)
line_char c = ground arith

single_line_from-IsInline :
    (compact run : Bool) (limit : ℕ) (s : List ℕ)
    → All IsInline (single_line_from compact run limit s)
unfolding single_line_from
single_line_from-IsInline compact run limit [] = tt
single_line_from-IsInline compact run limit (c ∷ s) =
    let skips = is_blank c && (run && compact) in
    let rest =
      single_line_from-IsInline compact (is_blank c) (if skips then limit else limit - 1) s in
    if_both (All IsInline) skips rest (
      line_char c,
      if_both (All IsInline) (not (limit == 0) && leb (limit - 1) 3) (refl, (refl, (refl, tt)))
          rest,
    )

length-single_line_from :
    (compact run : Bool) (limit : ℕ) (s : List ℕ)
    → limit ≢ 0
    → length (single_line_from compact run limit s) ≤ (if leb limit 4 then 4 else limit)
unfolding single_line_from
length-single_line_from compact run limit [] h = ground arith
length-single_line_from compact run limit (c ∷ s) h =
    let P : List ℕ → Type 0 = λ r. length r ≤ (if leb limit 4 then 4 else limit) in
    if_split P (is_blank c && (run && compact))
      (λ skips. rw skips (length-single_line_from compact (is_blank c) limit s h))
      λ puts. rw puts (
        if_split (λ (r : List ℕ). P ((if is_blank c then 32 else c) ∷ r))
          (not (limit == 0) && leb (limit - 1) 3) (λ short. ground arith)
          λ long.
            let further : limit - 1 ≢ 0 = ground arith in
            let rest = length-single_line_from compact (is_blank c) (limit - 1) s further in
            ground arith)

-- With a limit other than 0 singleLine answers no more characters than the limit, or 4 where the
-- limit is smaller, and no white space but spaces.
pub length-single_line :
    (text : List ℕ) (compact : Bool) (limit : ℕ)
    → limit ≢ 0
    → (length (single_line text compact limit) ≤ (if leb limit 4 then 4 else limit))
      × All IsInline (single_line text compact limit)
unfolding single_line
length-single_line text compact limit h = (
  length-single_line_from compact false limit text h,
  single_line_from-IsInline compact false limit text,
)
