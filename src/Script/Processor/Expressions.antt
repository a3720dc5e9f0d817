-- ===== src/Script/Processor/Expressions.antt =====
-- The value of a written expression of numbers and strings (class SourceProcessor, p44script.cpp).
use p44utils.Prelude.{ℕ, ◌≤◌, ◌<◌, ◌≡◌, Bool, true, false, ◌∙◌, ap, some, List, [], ◌∷◌, ◌==◌, All}
use p44utils.Text.Chars.{is_digit}
use p44utils.Text.Quote.{cstring_quote}
use p44utils.Script.Cursor.{Cursor}
use p44utils.Script.Operators.{OperatorMode}
use p44utils.Script.StringChars.{ReadsDigits}
use p44utils.Script.Processor.State.{Processor, Hooks, trailing_garbage}
use p44utils.Script.Processor.Step.{step_loop, start_expression}
use p44utils.Script.Processor.Steps.{IsPlain}
use p44utils.Script.Processor.Evaluation.{IsLeaf}
use p44utils.Script.Processor.Leaves.{IsGood, ReadsNumber, quoted-IsLeaf, number-IsLeaf}
use p44utils.Script.Processor.Tree.{Tree, leaf, group, binary, written, value_of, Throughout}
use p44utils.Script.Processor.Parentheses.{
  parenthesized, AllLeaves, value_of-parenthesized, parenthesized-Fits, parenthesized-Throughout,
}
use p44utils.Script.Processor.Value.{Completes, evaluates, ends_in_garbage}

module _ {V W : Type 0} (mode : OperatorMode) (h : Hooks V W) where
  -- A number that parseNumericLiteral reads, or a string as cstringQuote quotes it.
  pub data Leaf : List ℕ → V → Type 0 where
    number :
        (c : ℕ) (t : List ℕ) (v : V)
        → is_digit c ≡ true
        → ReadsNumber mode h (c ∷ t) v
        → IsGood mode h v
        → Leaf (c ∷ t) v
    quoted :
        (char_is_signed : Bool) (s : List ℕ)
        → All (λ (c : ℕ). (c < 256) × ((c == 0) ≡ false)) s
        → IsGood mode h (h.values.text_value s)
        → Leaf (cstring_quote char_is_signed s) (h.values.text_value s)

  module _ (reads_digits : ReadsDigits h.scan_hex)
      (no_event : (p : Processor V W) → h.member_event_check p ≡ p) where
    Leaf-IsLeaf : (t : List ℕ) (v : V) → Leaf t v → IsLeaf mode h t v
    Leaf-IsLeaf t v (number c u w d reads good) = number-IsLeaf mode h c u v d reads good
    Leaf-IsLeaf t v (quoted char_is_signed s bytes good) =
        quoted-IsLeaf mode h char_is_signed s reads_digits bytes good

    leaves : (e : Tree V) → AllLeaves Leaf e → AllLeaves (IsLeaf mode h) e
    leaves (leaf s t v) g = Leaf-IsLeaf t v g
    leaves (group s e) g = leaves e g
    leaves (binary op a b) (ga, gb) = (leaves a ga, leaves b gb)

    -- The state machine started on the text of an expression tree completes and its result is the
    -- value of the tree, for every fuel from some number on: operators bind by their precedence
    -- and to the left, as the text has parentheses only around the operands that need them. Leaves
    -- are numbers, which parseNumericLiteral reads up to a space, a parenthesis or the end, and
    -- strings as cstringQuote quotes them, each with a sign or none; sscanf reads two lower case
    -- digits, no value of the tree or a part is lazy or an error without a position, those of
    -- leaves are no errors, and the check for event sources changes nothing.
    pub step_loop-written :
        (e : Tree V) (p : Processor V W)
        → AllLeaves Leaf e
        → Throughout mode h (IsPlain mode h) e
        → p.src.rest ≡ written (parenthesized 1 e) []
        → (n : ℕ) × ((f : ℕ)
            → n ≤ f
            → Completes mode h
                (λ r. r ≡ some (value_of mode h e))
                (step_loop mode h f (start_expression mode h false p)))
    step_loop-written e p g settled text =
        let (n, runs) =
          evaluates mode h no_event (parenthesized 1 e) p
            (parenthesized-Fits mode h (IsLeaf mode h) 1 e (leaves e g))
            (parenthesized-Throughout mode h (IsPlain mode h) 1 e settled) text in
        (
          n,
          λ f le.
              let (done, holds) = runs f le in
              (done, holds ∙ ap some (value_of-parenthesized mode h 1 e)),
        )

    -- A closing parenthesis behind the text of an expression tree makes the state machine complete
    -- with the error for trailing garbage, whose position is that of the parenthesis, where an
    -- expression is evaluated and its value is no error; leaves are numbers that
    -- parseNumericLiteral reads and strings as cstringQuote quotes them, sscanf reads two lower
    -- case digits, no value of the tree or a part is lazy or an error without a position, those of
    -- leaves are no errors, and the check for event sources changes nothing.
    pub step_loop-unmatched :
        (e : Tree V) (l : List ℕ) (p : Processor V W)
        → AllLeaves Leaf e
        → Throughout mode h (IsPlain mode h) e
        → p.src.rest ≡ written (parenthesized 1 e) (b')' ∷ l)
        → h.values.is_err (value_of mode h e) ≡ false
        → p.expression_flag ≡ true
        → (n : ℕ) × ((f : ℕ)
            → n ≤ f
            → Completes mode h
                (λ r.
                  (a : Cursor) × ((a.rest ≡ b')' ∷ l)
                    × (r ≡ some (h.values.error_value trailing_garbage a))))
                (step_loop mode h f (start_expression mode h false p)))
    step_loop-unmatched e l p g settled text good flag =
        ends_in_garbage mode h no_event (parenthesized 1 e) l p
          (parenthesized-Fits mode h (IsLeaf mode h) 1 e (leaves e g))
          (parenthesized-Throughout mode h (IsPlain mode h) 1 e settled) text
          (ap h.values.is_err (value_of-parenthesized mode h 1 e) ∙ good) flag
