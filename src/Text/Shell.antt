-- ===== src/Text/Shell.antt =====
-- shellQuote against the shell's rules for quoting (utils.cpp).
use p44utils.Prelude.{
  ℕ, ◌≡◌, refl, ap, ◌∙◌, Bool, true, ◌||◌, Option, none, some, List, [], ◌∷◌, ◌++◌, ◌==◌,
  if◌then◌else◌, arith, append_assoc,
}
use p44utils.Text.Quote.{shell_quoted, shell_quote, quote_out}

abbrev pub Word : Type 0
Word = Option (List ℕ × List ℕ)

abbrev pub with_char : ℕ → Word → Word
with_char c none = none
with_char c (some (word, rest)) = some (c ∷ word, rest)

abbrev with_text : List ℕ → Word → Word
with_text [] w = w
with_text (c ∷ s) w = with_char c (with_text s w)

-- A blank or an operator ends a word of a shell command.
abbrev pub ends_word : ℕ → Bool
ends_word c =
    c == 32
    || (c == b'\t'
        || (c == b'\n'
            || (c == b';'
                || (c == b'&'
                    || (c == b'|' || (c == b'<' || (c == b'>' || (c == b'(' || c == b')'))))))))

-- A character that means something else in a word, or in double quotes: words with one are not
-- looked at here.
abbrev pub is_expanded : ℕ → Bool
is_expanded c = c == b'\\' || (c == b'$' || c == b'`')

pub data Quoting : Type 0 where
  unquoted in_single in_double : Quoting

-- The word that a shell reads: with the quoting at the start, and the text behind the word.
unfoldable pub shell_word : Quoting → List ℕ → Word
shell_word unquoted [] = some ([], [])
shell_word in_single [] = none
shell_word in_double [] = none
shell_word unquoted (c ∷ s) =
    let single = shell_word in_single s in
    let double = shell_word in_double s in
    let more = with_char c (shell_word unquoted s) in
    if ends_word c
    then some ([], c ∷ s)
    else if c == b'\''
    then single
    else if c == b'"'
    then double
    else if is_expanded c
    then none
    else more
shell_word in_single (c ∷ s) =
    let closed = shell_word unquoted s in
    let more = with_char c (shell_word in_single s) in if c == b'\'' then closed else more
shell_word in_double (c ∷ s) =
    let closed = shell_word unquoted s in
    let more = with_char c (shell_word in_double s) in
    if c == b'"' then closed else (if is_expanded c then none else more)

shell_word-shell_quoted :
    (s rest : List ℕ)
    → shell_word in_single (shell_quoted s ++ b'\'' ∷ rest) ≡ with_text s (shell_word unquoted rest)
unfolding shell_word shell_quoted
shell_word-shell_quoted [] rest = refl
shell_word-shell_quoted (c ∷ s) rest = ground (
  arith,
  append_assoc quote_out (c ∷ shell_quoted s) (b'\'' ∷ rest),
  shell_word-shell_quoted s rest,
)

-- A text behind which a word ends.
abbrev pub EndsWord : List ℕ → Type 0
EndsWord [] = Unit {0}
EndsWord (c ∷ s) = ends_word c ≡ true

unquoted_end : (rest : List ℕ) → EndsWord rest → shell_word unquoted rest ≡ some ([], rest)
unfolding shell_word
unquoted_end [] h = refl
unquoted_end (c ∷ s) h = rw h refl

with_text_word : (s rest : List ℕ) → with_text s (some ([], rest)) ≡ some (s, rest)
with_text_word [] rest = refl
with_text_word (c ∷ s) rest = ap (with_char c) (with_text_word s rest)

-- A POSIX shell reads a text that shellQuote has quoted as one word, the text itself, where the
-- end of the text, or a character that ends a word, follows.
pub shell_word-shell_quote :
    (s rest : List ℕ) → EndsWord rest → shell_word unquoted (shell_quote s ++ rest) ≡ some (s, rest)
unfolding shell_quote shell_word
shell_word-shell_quote s rest h =
    ap (λ (l : List ℕ). shell_word in_single l) (append_assoc (shell_quoted s) (b'\'' ∷ []) rest)
    ∙ shell_word-shell_quoted s rest
    ∙ ap (with_text s) (unquoted_end rest h)
    ∙ with_text_word s rest
