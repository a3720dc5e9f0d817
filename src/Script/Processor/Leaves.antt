-- ===== src/Script/Processor/Leaves.antt =====
-- Numbers and quoted strings as terms (s_simpleTerm, p44script.cpp).
use p44utils.Prelude.{
  ℕ, ◌≡◌, ◌<◌, refl, sym, ap, ◌∙◌, Bool, true, false, not, ◌&&◌, ◌||◌, none, some, List, [], ◌∷◌,
  ◌++◌, ◌==◌, arith, All, get_or,
}
use mathlib.Core.Path.{subst}
use p44utils.Text.Chars.{is_digit, is_alpha}
use p44utils.Text.Quote.{cstring_quote}
use p44utils.Script.Cursor.{
  Cursor, next_code_if, next_if, is_eot, char_at, parse_identifier, identifier_length,
}
use p44utils.Script.Operators.{OperatorMode}
use p44utils.Script.Literals.{parse_string_literal}
use p44utils.Script.StringChars.{ReadsDigits}
use p44utils.Script.StringRoundTrip.{parse_string_literal-cstring_quote}
use p44utils.Script.Processor.State.{Processor, Hooks, StackFrame}
use p44utils.Script.Processor.Stack.{pop_with_valid_result, check_and_resume}
use p44utils.Script.Processor.Terms.{number_or_name, simple_term, plain_term, string_result}
use p44utils.Script.Processor.Reading.{skip_non_code-Solid}
use p44utils.Script.Processor.Steps.{Returned, IsPlain, pop_with_valid_result-Returned, Returned-at}
use p44utils.Script.Processor.FirstTerm.{next_if-other}
use p44utils.Script.Processor.Evaluation.{IsLeaf, is_edge}

identifier_length-digit : (l : List ℕ) → is_digit (get_or l 0 0) ≡ true → identifier_length l ≡ 0
identifier_length-digit [] d = refl
identifier_length-digit (c ∷ t) d =
    let other : is_alpha c ≡ false = ground (arith, d) in rw other refl

module _ {V W : Type 0} (mode : OperatorMode) (h : Hooks V W) where
  -- Its own actual value, and no error.
  abbrev pub IsGood : V → Type 0
  IsGood v = (h.values.actual_value v ≡ some v) × (h.values.is_err v ≡ false)

  IsGood-IsPlain : (v : V) → IsGood v → IsPlain mode h v
  IsGood-IsPlain v (a, n) = (a, (rw n refl))

  unchecked :
      (v : V) (q : Processor V W)
      → q.result ≡ some v
      → h.values.is_err v ≡ false
      → check_and_resume h q ≡ q
  unfolding check_and_resume
  unchecked v q e n = rw (e, n) refl

  -- Popping with a check does no more.
  checked :
      (frame : StackFrame V) (below : List (StackFrame V)) (v : V) (q : Processor V W)
      → IsGood v
      → frame.skipping ≡ false
      → q.stack ≡ frame ∷ below
      → q.result ≡ some v
      → Returned mode h frame below v q.src.rest q.expression_flag (pop_with_valid_result h true q)
  unfolding pop_with_valid_result
  checked frame below v q good runs keeps holds =
      let r =
        pop_with_valid_result-Returned mode h frame below v q (IsGood-IsPlain v good) runs keeps
          holds in
      subst (λ (z : Processor V W). Returned mode h frame below v q.src.rest q.expression_flag z)
        (sym (unchecked v (pop_with_valid_result h false q) r.stands.holds good.1)) r

  string_term :
      (q : Processor V W)
      → char_at 0 q.src ≡ b'"'
      → simple_term mode h q
        ≡ pop_with_valid_result h true
            (string_result mode h (parse_string_literal h.scan_hex q.src) q)
  unfolding simple_term
  string_term q e = rw e refl

  pub quoted-IsLeaf :
      (char_is_signed : Bool) (s : List ℕ)
      → ReadsDigits h.scan_hex
      → All (λ (c : ℕ). (c < 256) × ((c == 0) ≡ false)) s
      → IsGood (h.values.text_value s)
      → IsLeaf mode h (cstring_quote char_is_signed s) (h.values.text_value s)
  unfolding cstring_quote
  quoted-IsLeaf char_is_signed s reads bytes good = (
    refl,
    λ l frame below q edge e keeps resumes runs.
        let v = h.values.text_value s in
        let (at, r, rest) =
          parse_string_literal-cstring_quote h.scan_hex char_is_signed reads s l q.src bytes e in
        let read = record q { src = at; result = some v } in
        let first = ap (λ t. get_or t 0 0) e in
        let returned =
          Returned-at mode h frame below v (pop_with_valid_result h true read) rest refl
            (checked frame below v read good resumes keeps refl) in
        subst (λ (z : Processor V W). Returned mode h frame below v l q.expression_flag z)
          (sym (
            string_term q first
            ∙ ap (λ o. pop_with_valid_result h true (string_result mode h o q)) r))
          returned,
  )

  -- parseNumericLiteral reads the text as the value, and no further.
  abbrev pub ReadsNumber : List ℕ → V → Type 0
  ReadsNumber t v =
      (l : List ℕ) (a : Cursor)
      → is_edge l ≡ true
      → a.rest ≡ t ++ l
      → (b : Cursor) × ((h.numeric_literal a ≡ (v, b)) × (b.rest ≡ l))

  no_object : (a : Cursor) → is_digit (char_at 0 a) ≡ true → next_code_if b'{' a ≡ (false, a)
  unfolding next_code_if
  no_object a d =
      ap (next_if b'{') (skip_non_code-Solid a (ground (arith, d)))
      ∙ next_if-other b'{' a (ground (arith, d))

  plain_start :
      (q : Processor V W)
      → is_digit (char_at 0 q.src) ≡ true
      → simple_term mode h q ≡ plain_term mode h q
  unfolding simple_term
  plain_start q d =
      let quote : (char_at 0 q.src == b'"' || char_at 0 q.src == b'\'') ≡ false =
        ground (arith, d) in
      rw (quote, no_object q.src d, next_if-other b'[' q.src (ground (arith, d))) refl

  no_name : (a : Cursor) → is_digit (char_at 0 a) ≡ true → parse_identifier a ≡ none
  unfolding parse_identifier
  no_name a d = rw (identifier_length-digit a.rest d) refl

  read_number :
      (q : Processor V W) (v : V) (b : Cursor)
      → is_digit (char_at 0 q.src) ≡ true
      → h.numeric_literal q.src ≡ (v, b)
      → number_or_name mode h none q
        ≡ pop_with_valid_result h true (record q { result = some v; src = b })
  unfolding number_or_name is_eot
  read_number q v b d r =
      let c = char_at 0 q.src in
      let other : (not (c == 0) && (not (c == b'}') && not (c == b';'))) ≡ true =
        ground (arith, d) in
      rw (r, other) refl

  plain_number :
      (q : Processor V W) (v : V) (b : Cursor)
      → is_digit (char_at 0 q.src) ≡ true
      → h.numeric_literal q.src ≡ (v, b)
      → plain_term mode h q ≡ pop_with_valid_result h true (record q { result = some v; src = b })
  unfolding plain_term
  plain_number q v b d r =
      ap (λ o. number_or_name mode h o q) (no_name q.src d) ∙ read_number q v b d r

  pub number-IsLeaf :
      (c : ℕ) (t : List ℕ) (v : V)
      → is_digit c ≡ true
      → ReadsNumber (c ∷ t) v
      → IsGood v
      → IsLeaf mode h (c ∷ t) v
  number-IsLeaf c t v d reads good = (
    ground (arith, d),
    λ l frame below q edge e keeps resumes runs.
        let (b, (r, rest)) = reads l q.src edge e in
        let first = ap (λ t. is_digit (get_or t 0 0)) e ∙ d in
        let read = record q { result = some v; src = b } in
        subst (λ (z : Processor V W). Returned mode h frame below v l q.expression_flag z)
          (sym (plain_start q first ∙ plain_number q v b first r))
          (Returned-at mode h frame below v (pop_with_valid_result h true read) rest refl
            (checked frame below v read good resumes keeps refl)),
  )
