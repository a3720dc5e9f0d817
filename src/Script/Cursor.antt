-- ===== src/Script/Cursor.antt =====
-- Class SourcePos and the moves of class SourceCursor (p44script.cpp). A position is the text from
-- mPtr to mEot, with the line number, the distance from mBol and the distance from mBot. Loops stand
-- on fuel: as many rounds as characters are left.
use p44utils.Prelude.{
  ℕ, zero, suc, ◌+◌, Bool, true, false, not, ◌&&◌, ◌||◌, Option, none, some, List, [], ◌∷◌, take,
  drop, length, get_or, ◌==◌, if◌then◌else◌,
}
use p44utils.Text.Chars.{is_alpha, is_alnum, to_upper}

pub record Cursor : Type 0 where
  pub rest : List ℕ
  pub line : ℕ
  pub column : ℕ
  pub offset : ℕ

-- SourcePos(const string&)
unfoldable pub start_of : List ℕ → Cursor
start_of text = record { rest = text; line = 0; column = 0; offset = 0 }

-- c(aOffset): 0 at the end of the text and behind it.
abbrev pub char_at : ℕ → Cursor → ℕ
char_at k cur = get_or cur.rest k 0

unfoldable pub is_eot : Cursor → Bool
is_eot cur = char_at 0 cur == 0

-- The position behind the character `c`, which a text `rest` follows.
abbrev pub behind : ℕ → List ℕ → Cursor → Cursor
behind c rest cur =
    if c == b'\n'
    then record { rest = rest; line = cur.line + 1; column = 0; offset = cur.offset + 1 }
    else record { rest = rest; line = cur.line; column = cur.column + 1; offset = cur.offset + 1 }

-- The move of `next`.
unfoldable pub over : List ℕ → Cursor → Cursor
over [] cur = cur
over (c ∷ rest) cur = behind c rest cur

unfoldable pub next : Cursor → Bool × Cursor
unfolding is_eot over
next cur = if is_eot cur then (false, cur) else (true, over cur.rest cur)

unfoldable pub advance : ℕ → Cursor → Bool × Cursor
unfolding next
advance zero cur = (true, cur)
advance (suc n) cur =
    let (moved, cur') = next cur in
    let further = advance n cur' in if moved then further else (false, cur')

unfoldable pub next_if : ℕ → Cursor → Bool × Cursor
unfolding next
next_if ch cur = if char_at 0 cur == ch then (true, (next cur).1) else (false, cur)

-- while (test(c())) next();
unfoldable pub next_while : ℕ → (ℕ → Bool) → Cursor → Cursor
unfolding next
next_while zero test cur = cur
next_while (suc f) test cur =
    let further = next_while f test (next cur).1 in if test (char_at 0 cur) then further else cur

abbrev pub is_white_space : ℕ → Bool
is_white_space c = c == 32 || (c == b'\t' || (c == b'\n' || c == b'\r'))

unfoldable pub skip_white_space : Cursor → Cursor
unfolding next_while
skip_white_space cur = next_while (length cur.rest) is_white_space cur

abbrev pub in_line_comment : ℕ → Bool
in_line_comment c = not (c == 0) && (not (c == b'\n') && not (c == b'\r'))

abbrev pub before_star : ℕ → Bool
before_star c = not (c == 0) && not (c == b'*')

-- The loop in a C style comment.
unfoldable pub block_comment : ℕ → Cursor → Cursor
unfolding next_while advance next
block_comment zero cur = cur
block_comment (suc f) cur =
    let star = next_while (length cur.rest) before_star cur in
    let further = block_comment f (next star).1 in
    if char_at 0 cur == 0
    then cur
    else if char_at 1 star == b'/'
    then (advance 2 star).1
    else further

-- What starts at the cursor, white space apart.
abbrev pub starts_line_comment : Cursor → Bool
starts_line_comment cur = char_at 0 cur == b'/' && char_at 1 cur == b'/'

abbrev pub starts_block_comment : Cursor → Bool
starts_block_comment cur = char_at 0 cur == b'/' && char_at 1 cur == b'*'

-- The rounds of skipNonCode.
unfoldable pub skip_rounds : ℕ → Cursor → Cursor
unfolding skip_white_space next_while block_comment advance
skip_rounds zero cur = cur
skip_rounds (suc f) cur =
    let at = skip_white_space cur in
    let inside = (advance 2 at).1 in
    let line_end = next_while (length inside.rest) in_line_comment inside in
    let block_end = block_comment (length inside.rest) inside in
    let further = skip_rounds f (if starts_line_comment at then line_end else block_end) in
    if starts_line_comment at || starts_block_comment at then further else at

unfoldable pub skip_non_code : Cursor → Cursor
unfolding skip_rounds
skip_non_code cur = skip_rounds (suc (length cur.rest)) cur

unfoldable pub next_code_if : ℕ → Cursor → Bool × Cursor
unfolding skip_non_code next_if
next_code_if ch cur = next_if ch (skip_non_code cur)

-- The length of the identifier's characters at the start of a text.
unfoldable pub name_length : List ℕ → ℕ
name_length [] = 0
name_length (c ∷ s) =
    let further = name_length s in if is_alnum c || c == b'_' then suc further else 0

-- mPos.mPtr += o, over characters that are no line ends.
abbrev pub move_by : ℕ → Cursor → Cursor
move_by o cur = record {
  rest = drop o cur.rest;
  line = cur.line;
  column = cur.column + o;
  offset = cur.offset + o;
}

abbrev pub identifier_length : List ℕ → ℕ
identifier_length [] = 0
identifier_length (c ∷ s) = if is_alpha c then suc (name_length s) else 0

-- parseIdentifier with no length to fill: the identifier and the cursor behind it.
unfoldable pub parse_identifier : Cursor → Option (List ℕ × Cursor)
unfolding name_length
parse_identifier cur =
    let o = identifier_length cur.rest in
    if o == 0 then none else some (take o cur.rest, move_by o cur)

-- uequals on `o` characters of the source and a whole identifier.
unfoldable pub same_upper : List ℕ → List ℕ → Bool
same_upper [] [] = true
same_upper [] (d ∷ t) = false
same_upper (c ∷ s) [] = false
same_upper (c ∷ s) (d ∷ t) = to_upper c == to_upper d && same_upper s t

unfoldable pub check_for_identifier : List ℕ → Cursor → Bool × Cursor
unfolding name_length same_upper
check_for_identifier identifier cur =
    let o = identifier_length cur.rest in
    if o == 0
    then (false, cur)
    else if same_upper (take o cur.rest) identifier
    then (true, move_by o cur)
    else (false, cur)
