-- ===== src/Script/Processor/Parentheses.antt =====
-- The parentheses that a tree needs to be written as a text.
use p44utils.Prelude.{
  ℕ, ◌-◌, ◌<◌, ◌≡◌, refl, sym, ap, ◌∙◌, ltb, ltb→lt, none, List, if◌then◌else◌, if_split, if_both,
  arith,
}
use mathlib.Core.Path.{subst}
use p44utils.Script.Operators.{OperatorMode, op_none}
use p44utils.Script.Processor.State.{Hooks}
use p44utils.Script.Processor.Expression.{apply_unary}
use p44utils.Script.Processor.Tree.{
  BinaryOperator, times, over, modulo, plus, minus, same, unequal, less, greater, at_most, at_least,
  both, either, Tree, leaf, group, binary, strength, sign_code, value_of, Fits, Throughout,
}

-- An operation whose operator binds no stronger than `q` is put in parentheses.
abbrev pub enclosed : {V : Type 0} → ℕ → BinaryOperator → Tree V → Tree V
enclosed q op e = if ltb q (strength op) then e else group none e

abbrev pub parenthesized : {V : Type 0} → ℕ → Tree V → Tree V
parenthesized q (leaf s t v) = leaf s t v
parenthesized q (group s e) = group s (parenthesized 1 e)
parenthesized q (binary op a b) =
    enclosed q op (binary op (parenthesized (strength op - 1) a) (parenthesized (strength op) b))

strength_low : (op : BinaryOperator) → 1 < strength op
strength_low times = omega arith
strength_low over = omega arith
strength_low modulo = omega arith
strength_low plus = omega arith
strength_low minus = omega arith
strength_low same = omega arith
strength_low unequal = omega arith
strength_low less = omega arith
strength_low greater = omega arith
strength_low at_most = omega arith
strength_low at_least = omega arith
strength_low both = omega arith
strength_low either = omega arith

-- The leaves have a property.
abbrev pub AllLeaves : {V : Type 0} → (List ℕ → V → Type 0) → Tree V → Type 0
AllLeaves Good (leaf s t v) = Good t v
AllLeaves Good (group s e) = AllLeaves Good e
AllLeaves Good (binary op a b) = AllLeaves Good a × AllLeaves Good b

module _ {V W : Type 0} (mode : OperatorMode) (h : Hooks V W) where
  group_value : (v : V) → apply_unary mode h op_none v ≡ v
  group_value v = if_both (λ (u : V). u ≡ v) (h.values.defined v) refl refl

  enclosed-value_of :
      (q : ℕ) (op : BinaryOperator) (e : Tree V)
      → value_of mode h (enclosed q op e) ≡ value_of mode h e
  enclosed-value_of q op e =
      if_both (λ (t : Tree V). value_of mode h t ≡ value_of mode h e) (ltb q (strength op)) refl
        (group_value (value_of mode h e))

  operands :
      (op : BinaryOperator) (a b c d : Tree V)
      → value_of mode h a ≡ value_of mode h c
      → value_of mode h b ≡ value_of mode h d
      → value_of mode h (binary op a b) ≡ value_of mode h (binary op c d)
  operands op a b c d e f = rw (e, f) refl

  pub value_of-parenthesized :
      (q : ℕ) (e : Tree V) → value_of mode h (parenthesized q e) ≡ value_of mode h e
  value_of-parenthesized q (leaf s t v) = refl
  value_of-parenthesized q (group s e) =
      ap (apply_unary mode h (sign_code s)) (value_of-parenthesized 1 e)
  value_of-parenthesized q (binary op a b) =
      enclosed-value_of q op
        (binary op (parenthesized (strength op - 1) a) (parenthesized (strength op) b))
      ∙ operands op (parenthesized (strength op - 1) a) (parenthesized (strength op) b) a b
          (value_of-parenthesized (strength op - 1) a) (value_of-parenthesized (strength op) b)

  pub parenthesized-Fits :
      (Good : List ℕ → V → Type 0) (q : ℕ) (e : Tree V)
      → AllLeaves Good e
      → Fits mode h Good q (parenthesized q e)
  parenthesized-Fits Good q (leaf s t v) g = g
  parenthesized-Fits Good q (group s e) g = parenthesized-Fits Good 1 e g
  parenthesized-Fits Good q (binary op a b) (ga, gb) =
      let fa = parenthesized-Fits Good (strength op - 1) a ga in
      let fb = parenthesized-Fits Good (strength op) b gb in
      if_split (λ (t : Tree V). Fits mode h Good q t) (ltb q (strength op))
        (λ e. (ltb→lt q (strength op) e, (fa, fb))) (λ e. (strength_low op, (fa, fb)))

  pub parenthesized-Throughout :
      (P : V → Type 0) (q : ℕ) (e : Tree V)
      → Throughout mode h P e
      → Throughout mode h P (parenthesized q e)
  parenthesized-Throughout P q (leaf s t v) x = x
  parenthesized-Throughout P q (group s e) (x, y) =
      (subst P (sym (value_of-parenthesized q (group s e))) x, parenthesized-Throughout P 1 e y)
  parenthesized-Throughout P q (binary op a b) (x, (y, z)) =
      let a' = parenthesized (strength op - 1) a in
      let b' = parenthesized (strength op) b in
      let e =
        operands op a' b' a b (value_of-parenthesized (strength op - 1) a)
          (value_of-parenthesized (strength op) b) in
      let inner : Throughout mode h P (binary op a' b') = (
        subst P (sym e) x,
        (
          parenthesized-Throughout P (strength op - 1) a y,
          parenthesized-Throughout P (strength op) b z,
        ),
      ) in
      if_both (λ (t : Tree V). Throughout mode h P t) (ltb q (strength op)) inner
        (subst P (sym (group_value (value_of mode h (binary op a' b')))) inner.0, inner)
