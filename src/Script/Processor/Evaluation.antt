-- ===== src/Script/Processor/Evaluation.antt =====
-- The terms of a written expression, as s_simpleTerm (p44script.cpp) has to read them.
use p44utils.Prelude.{
  ℕ, ◌-◌, ◌≡◌, refl, Bool, true, false, not, ◌&&◌, ◌||◌, none, some, List, [], ◌∷◌, ◌++◌, ◌==◌,
  get_or, arith,
}
use p44utils.Script.Operators.{OperatorMode}
use p44utils.Script.Processor.State.{StackFrame, Processor, Hooks}
use p44utils.Script.Processor.Terms.{simple_term, goes_deeper}
use p44utils.Script.Processor.Reading.{Solid}
use p44utils.Script.Processor.OperatorText.{plain, plain-solid}
use p44utils.Script.Processor.Steps.{Returned}
use p44utils.Script.Processor.Operands.{Follows, at_end, at_paren, at_operator}
use p44utils.Script.Processor.Tree.{
  Tree, leaf, group, binary, strength, written, Fits, operator_text, negative, positive, inverse,
}

-- Neither white space, an operator nor a parenthesis.
abbrev pub starts_term : List ℕ → Bool
starts_term [] = false
starts_term (c ∷ t) = plain c && not (c == b'(')

-- The end of a term: of the text, or a space or a closing parenthesis.
abbrev pub is_edge : List ℕ → Bool
is_edge l = let c = get_or l 0 0 in c == 0 || (c == 32 || c == b')')

pub Follows-edge : {q : ℕ} {l : List ℕ} → Follows q l → is_edge l ≡ true
Follows-edge at_end = refl
Follows-edge (at_paren l) = refl
Follows-edge (at_operator op l s le) = refl

pub is_edge-deeper : (l : List ℕ) → is_edge l ≡ true → goes_deeper (get_or l 0 0) ≡ false
is_edge-deeper l e = ground (arith, e)

pub term_start :
    (t l : List ℕ)
    → starts_term t ≡ true
    → (plain (get_or (t ++ l) 0 0) ≡ true) × ((get_or (t ++ l) 0 0 == b'(') ≡ false)
term_start [] l e = absurd (ground (arith, e))
term_start (c ∷ t) l e = (ground (arith, e), ground (arith, e))

module _ {V W : Type 0} (mode : OperatorMode) (h : Hooks V W) where
  -- A text that the simple term reads as a value.
  abbrev pub IsLeaf : List ℕ → V → Type 0
  IsLeaf t v =
      (starts_term t ≡ true)
      × ((l : List ℕ) (frame : StackFrame V) (below : List (StackFrame V)) (q : Processor V W)
          → is_edge l ≡ true
          → q.src.rest ≡ t ++ l
          → q.stack ≡ frame ∷ below
          → frame.skipping ≡ false
          → q.skipping ≡ false
          → Returned mode h frame below v l q.expression_flag (simple_term mode h q))

  pub written-Solid :
      (q : ℕ) (e : Tree V) (l : List ℕ) → Fits mode h IsLeaf q e → Solid (written e l)
  written-Solid q (leaf none t v) l (starts, reads) =
      plain-solid (get_or (t ++ l) 0 0) (get_or (t ++ l) 1 0) (term_start t l starts).0
  written-Solid q (leaf (some negative) t v) l f = refl
  written-Solid q (leaf (some positive) t v) l f = refl
  written-Solid q (leaf (some inverse) t v) l f = refl
  written-Solid q (group none e) l f = refl
  written-Solid q (group (some negative) e) l f = refl
  written-Solid q (group (some positive) e) l f = refl
  written-Solid q (group (some inverse) e) l f = refl
  written-Solid q (binary op a b) l (lt, (fa, fb)) =
      written-Solid (strength op - 1) a (operator_text op (written b l)) fa
