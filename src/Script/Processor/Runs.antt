-- ===== src/Script/Processor/Runs.antt =====
-- The state machine at concrete expressions, with numbers of one digit (p44script.cpp).
use p44utils.Script.Processor.State.{
  State, StackFrame, s_complete, s_try_statement, s_expr_first_term, s_unset_member, no_helper,
  Processor, Hooks, Values, Fault, trailing_garbage,
}
use p44utils.Script.Processor.Stack.{complete, throw_or_complete}
use p44utils.Script.Processor.Catching.{Misses, Caught, throw_or_complete-Caught}
use p44utils.Script.Processor.Terms.{op_delete}
use p44utils.Script.Processor.Members.{subscript_arg}
use p44utils.Prelude.{
  ◌⊎◌, ℕ, ◌+◌, ◌-◌, ◌*◌, ◌≤◌, ◌≡◌, refl, Bool, true, false, not, ◌&&◌, ◌||◌, none, some, List, [],
  ◌∷◌, ◌++◌, ◌==◌, ltb, leb, ap, if◌then◌else◌,
}
use p44utils.Text.Chars.{is_digit}
use p44utils.Script.Processor.Steps.{IsPlain}
use p44utils.Script.Processor.Parentheses.{AllLeaves}
use p44utils.Script.Cursor.{Cursor, start_of, char_at, next}
use p44utils.Script.Operators.{mode_c}
use p44utils.Script.StringChars.{next-rest}
use p44utils.Script.Runs.{scan_two, scan_two-ReadsDigits}
use p44utils.Script.Processor.Step.{start_in, step_loop, start_expression}
use p44utils.Script.Processor.Leaves.{ReadsNumber}
use p44utils.Script.Processor.Tree.{Tree, leaf, Throughout, binary, times, plus}
use p44utils.Script.Processor.Value.{Completes}
use p44utils.Script.Processor.Expressions.{Leaf, number, step_loop-written, step_loop-unmatched}

pub data Sample : Type 0 where
  numeral : ℕ → Sample
  words : List ℕ → Sample
  truth_value : Bool → Sample
  absent failure : Sample
  wrong : Fault → Cursor → Sample

abbrev size : Sample → ℕ
size (numeral n) = n
size (words w) = 0
size (truth_value b) = if b then 1 else 0
size absent = 0
size failure = 0
size (wrong f a) = 0

abbrev is_wrong : Sample → Bool
is_wrong (wrong f a) = true
is_wrong failure = true
is_wrong v = false

abbrev is_syntax_error : Sample → Bool
is_syntax_error (wrong f a) = true
is_syntax_error v = false

abbrev is_defined : Sample → Bool
is_defined absent = false
is_defined failure = false
is_defined (wrong f a) = false
is_defined v = true

abbrev values : Values Sample
values = record {
  error_value = wrong;
  is_err = is_wrong;
  is_fatal = is_syntax_error;
  is_caught = λ v. false;
  caught = λ v. v;
  has_cursor = λ v. true;
  at_position = λ a v. v;
  actual_value = some;
  made_valid = some;
  calculation_value = λ v. v;
  assignment_value = λ v. v;
  is_lvalue = λ v. false;
  keeps_original = λ v. false;
  defined = is_defined;
  null_value = absent;
  bool_value = truth_value;
  text_value = words;
  integer_value = numeral;
  is_numeric = λ v. true;
  index_of = size;
  string_of = λ v. [];
  indexed_members = λ v. 0;
  truth = λ v. not (size v == 0);
  negated = λ v. numeral (0 - size v);
  equal = λ v w. size v == size w;
  not_equal = λ v w. not (size v == size w);
  divide = λ v w. failure;
  modulo = λ v w. absent;
  multiply = λ v w. numeral (size v * size w);
  add = λ v w. numeral (size v + size w);
  subtract = λ v w. numeral (size v - size w);
  less = λ v w. ltb (size v) (size w);
  greater = λ v w. ltb (size w) (size v);
  at_most = λ v w. leb (size v) (size w);
  at_least = λ v w. leb (size w) (size v);
  both = λ v w. not (size v == 0) && not (size w == 0);
  either = λ v w. not (size v == 0) || not (size w == 0);
}

abbrev digit_literal : Cursor → Sample × Cursor
digit_literal a = (numeral (char_at 0 a - 48), (next a).1)

abbrev pub hooks : Hooks Sample ℕ
hooks = record {
  values = values;
  runs_thread = true;
  numeric_literal = digit_literal;
  scan_hex = scan_two;
  member_by_identifier = λ flags p. p;
  member_if_found = λ flags p. p;
  compiling = false;
  start_of_body_code = λ p. p;
  uninitialized = λ b. absent;
  new_iterator = λ v. v;
  iterator_reset = λ v. v;
  iterator_next = λ v. v;
  obtain_value = λ v. none;
  obtain_key = λ v. none;
  member_by_index = λ i flags p. p;
  new_function_call_context = λ p. p;
  push_function_argument = λ o p. p;
  execute_result = λ p. p;
  member_event_check = λ p. p;
  assign_lvalue = λ v o w. (o, w);
  other = λ n p. p;
}

digit_literal-ReadsNumber :
    (c : ℕ) → (c == 0) ≡ false → ReadsNumber mode_c hooks (c ∷ []) (numeral (c - 48))
digit_literal-ReadsNumber c n l a edge e =
    ((next a).1, (ap (λ (v : Sample). (v, (next a).1)) (rw e refl), next-rest c l a e n))

abbrev two_three_four : Tree Sample
two_three_four =
    binary times
      (binary plus (leaf none (b'2' ∷ []) (numeral 2)) (leaf none (b'3' ∷ []) (numeral 3)))
      (leaf none (b'4' ∷ []) (numeral 4))

-- (2 + 3) * 4
abbrev pub product : List ℕ
product = b'(' ∷ b'2' ∷ 32 ∷ b'+' ∷ 32 ∷ b'3' ∷ b')' ∷ 32 ∷ b'*' ∷ 32 ∷ b'4' ∷ []

abbrev pub processor_at : List ℕ → Processor Sample ℕ
processor_at t = record {
  src = start_of t;
  popped_src = start_of t;
  current_state = none;
  result = none;
  older_result = none;
  precedence = 0;
  pending_operation = 0;
  skipping = false;
  stack = [];
  helper = no_helper;
  identifier = [];
  expression_flag = true;
  implicit_return = true;
  world = 0;
}

numeral-Leaf :
    (c : ℕ) → is_digit c ≡ true → (c == 0) ≡ false → Leaf mode_c hooks (c ∷ []) (numeral (c - 48))
numeral-Leaf c d n = number c [] (numeral (c - 48)) d (digit_literal-ReadsNumber c n) (refl, refl)

leaves_good : AllLeaves (Leaf mode_c hooks) two_three_four
leaves_good =
    ((numeral-Leaf b'2' refl refl, numeral-Leaf b'3' refl refl), numeral-Leaf b'4' refl refl)

settled : Throughout mode_c hooks (IsPlain mode_c hooks) two_three_four
settled = ((refl, refl), (((refl, refl), ((refl, refl), (refl, refl))), (refl, refl)))

step_loop-written_example :
    (n : ℕ) × ((f : ℕ)
      → n ≤ f
      → Completes mode_c hooks
          (λ r. r ≡ some (numeral 20))
          (step_loop mode_c hooks f (start_expression mode_c hooks false (processor_at product))))
unfolding start_of
step_loop-written_example =
    step_loop-written mode_c hooks scan_two-ReadsDigits (λ p. refl) two_three_four
      (processor_at product) leaves_good settled refl

step_loop-unmatched_example :
    (n : ℕ) × ((f : ℕ)
      → n ≤ f
      → Completes mode_c hooks
          (λ r.
            (a : Cursor) × ((a.rest ≡ b')' ∷ b';' ∷ []) × (r ≡ some (wrong trailing_garbage a))))
          (step_loop mode_c hooks f
            (start_expression mode_c hooks false (processor_at (product ++ b')' ∷ b';' ∷ [])))))
unfolding start_of
step_loop-unmatched_example =
    step_loop-unmatched mode_c hooks scan_two-ReadsDigits (λ p. refl) two_three_four (b';' ∷ [])
      (processor_at (product ++ b')' ∷ b';' ∷ [])) leaves_good settled refl refl refl

-- A term in a try statement.
abbrev pub frame_to : State → StackFrame Sample
frame_to state = record {
  src = start_of product;
  skipping = false;
  return_to_state = state;
  result = none;
  helper = no_helper;
  precedence = 1;
  pending_operation = 0;
}

abbrev in_try : Processor Sample ℕ
in_try = record (processor_at product) {
  stack = frame_to s_expr_first_term ∷ frame_to s_try_statement ∷ frame_to s_complete ∷ [];
}

throw_or_complete-Caught_example :
    (Misses s_try_statement in_try.stack
      × (throw_or_complete hooks failure in_try
          ≡ complete hooks (some failure) (record in_try { result = some failure })))
    ⊎ Caught hooks failure in_try (throw_or_complete hooks failure in_try)
throw_or_complete-Caught_example = throw_or_complete-Caught hooks failure in_try refl refl

-- 1 +
dangling_operator :
    (step_loop mode_c hooks 20
      (start_expression mode_c hooks false (processor_at (b'1' ∷ 32 ∷ b'+' ∷ [])))).result
    ≡ some (numeral 2)
unfolding step_loop start_in start_of
dangling_operator = refl

-- unset a[1,2], behind the first subscript
first_subscript :
    (subscript_arg mode_c hooks (record (processor_at (b',' ∷ b'2' ∷ b']' ∷ [])) {
      result = some (numeral 1);
      older_result = some absent;
      pending_operation = op_delete;
    })).current_state
    ≡ some s_unset_member
unfolding subscript_arg start_of
first_subscript = refl
