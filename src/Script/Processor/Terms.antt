-- ===== src/Script/Processor/Terms.antt =====
-- Simple terms and names (p44script.cpp). Where an object or an array starts, the handlers that are
-- left out go on: `other` 0 and 1.
use Prim.Native.Nat.{bit_and}
use p44utils.Prelude.{
  ◌*◌, ℕ, ◌+◌, Bool, true, false, not, ◌&&◌, ◌||◌, Option, none, some, List, [], ◌∷◌, ◌==◌,
  if◌then◌else◌,
}
use p44utils.Script.Cursor.{
  Cursor, char_at, is_eot, next_if, next_code_if, skip_non_code, parse_identifier, same_upper,
}
use p44utils.Script.Operators.{
  OperatorMode, parse_operator, op_assign, op_assign_or_eq, op_self, op_incdec,
}
use p44utils.Script.Literals.{Literal, text, parse_string_literal}
use p44utils.Script.Processor.State.{
  State, Processor, Hooks, bad_string, missing_identifier, s_member, s_valid_result, s_unset_member,
  s_assign_expression,
}
use p44utils.Script.Processor.Stack.{
  push, exit_with_syntax_error, pop_with_valid_result, pop_with_result,
}

abbrev pub op_delete : ℕ
op_delete = 17 * 8

-- Directives of a member access (p44script.hpp).
abbrev pub executable : ℕ
executable = 0x100

abbrev pub lvalue : ℕ
lvalue = 0x10000

abbrev pub create : ℕ
create = 0x20000

abbrev pub has_flag : ℕ → ℕ → Bool
has_flag flags f = not (bit_and flags f == 0)

abbrev pub is_assignment : ℕ → Bool
is_assignment op = op == op_assign || (op == op_assign_or_eq || has_flag op (op_self + op_incdec))

-- What may follow a name: a sub-member, a subscript or a call.
abbrev pub goes_deeper : ℕ → Bool
goes_deeper c = c == b'.' || (c == b'[' || c == b'(')

abbrev pub any_of : List ℕ → List ℕ → List ℕ → Bool
any_of name a b = same_upper name a || same_upper name b

abbrev pub word_true : List ℕ
word_true = b't' ∷ b'r' ∷ b'u' ∷ b'e' ∷ []

abbrev pub word_yes : List ℕ
word_yes = b'y' ∷ b'e' ∷ b's' ∷ []

abbrev pub word_false : List ℕ
word_false = b'f' ∷ b'a' ∷ b'l' ∷ b's' ∷ b'e' ∷ []

abbrev pub word_no : List ℕ
word_no = b'n' ∷ b'o' ∷ []

abbrev pub word_null : List ℕ
word_null = b'n' ∷ b'u' ∷ b'l' ∷ b'l' ∷ []

abbrev pub word_undefined : List ℕ
word_undefined = b'u' ∷ b'n' ∷ b'd' ∷ b'e' ∷ b'f' ∷ b'i' ∷ b'n' ∷ b'e' ∷ b'd' ∷ []

module _ {V W : Type 0} (mode : OperatorMode) (h : Hooks V W) where
  -- The member is requested with the state that goes on set before.
  abbrev pub request : State → ℕ → Processor V W → Processor V W
  request state flags p = h.member_by_identifier flags (record p { current_state = some state })

  abbrev pub request_value : Processor V W → Processor V W
  request_value p = request s_member (if char_at 0 p.src == b'(' then executable else 0) p

  unfoldable pub assign_or_access : ℕ → Processor V W → Processor V W
  unfolding skip_non_code parse_operator push
  assign_or_access flags p =
      let at = record p { src = skip_non_code p.src } in
      let (op, behind) = parse_operator mode at.src in
      if p.pending_operation == op_delete
      then (if goes_deeper (char_at 0 at.src)
          then request_value at
          else request s_unset_member lvalue at)
      else if has_flag flags lvalue && p.precedence == 0
      then (if is_assignment op
          then request s_valid_result flags
              (push h s_assign_expression (record at { src = behind; pending_operation = op }))
          else request_value at)
      else request_value p

  -- A name at the start of a term, with the cursor behind it.
  unfoldable pub named_term : Processor V W → Processor V W
  unfolding assign_or_access pop_with_result same_upper skip_non_code
  named_term p =
      let q = record p { result = none; older_result = none; src = skip_non_code p.src } in
      let constant = λ (v : V). pop_with_result h false (record q { result = some v }) in
      if q.skipping
      then assign_or_access lvalue q
      else if goes_deeper (char_at 0 q.src)
      then assign_or_access 0 q
      else if any_of q.identifier word_true word_yes
      then constant (h.values.bool_value true)
      else if any_of q.identifier word_false word_no
      then constant (h.values.bool_value false)
      else if any_of q.identifier word_null word_undefined
      then constant h.values.null_value
      else assign_or_access lvalue q

  abbrev pub string_result : Option (Literal × Cursor) → Processor V W → Processor V W
  string_result none p = p
  string_result (some (text s, at)) p = record p { src = at; result = some (h.values.text_value s) }
  string_result (some (fault, at)) p = record p {
    src = at;
    result = some (h.values.error_value (bad_string fault) at);
  }

  -- Without an identifier, a number or what is no term; with one, a name.
  unfoldable pub number_or_name : Option (List ℕ × Cursor) → Processor V W → Processor V W
  unfolding named_term is_eot pop_with_valid_result
  number_or_name none p =
      let c = char_at 0 p.src in
      let (v, behind) = h.numeric_literal p.src in
      pop_with_valid_result h true (
        if not (is_eot p.src) && (not (c == b'}') && not (c == b';'))
        then record p { result = some v; src = behind }
        else p)
  number_or_name (some found) p = named_term (record p { identifier = found.0; src = found.1 })

  -- What is neither a string, an object or an array.
  unfoldable pub plain_term : Processor V W → Processor V W
  unfolding number_or_name parse_identifier
  plain_term p = number_or_name (parse_identifier p.src) p

  unfoldable pub simple_term : Processor V W → Processor V W
  unfolding plain_term parse_string_literal next_code_if next_if pop_with_valid_result
  simple_term p =
      let c = char_at 0 p.src in
      let (object, inside) = next_code_if b'{' p.src in
      let (array, behind) = next_if b'[' inside in
      if c == b'"' || c == b'\''
      then pop_with_valid_result h true (string_result (parse_string_literal h.scan_hex p.src) p)
      else if object
      then h.other 0 (record p { src = inside })
      else if array
      then h.other 1 (record p { src = behind })
      else plain_term (record p { src = inside })

  -- A name behind a dot.
  unfoldable pub sub_member : Processor V W → Processor V W
  unfolding parse_identifier skip_non_code exit_with_syntax_error assign_or_access
  sub_member p =
      let at = skip_non_code p.src in
      elim (parse_identifier at) [
        | none ↦ exit_with_syntax_error h missing_identifier (record p { src = at })
        | some found ↦
            assign_or_access (lvalue + create)
              (record p { identifier = found.0; src = skip_non_code found.1 })
      ]
