-- ===== src/Script/Processor/Frames.antt =====
-- A frame pushed by a handler and popped by a later one (push, pop, p44script.cpp).
use p44utils.Prelude.{ℕ, ◌≡◌, ap, ◌∙◌, Bool, false, Option, some, List, ◌∷◌}
use p44utils.Script.Operators.{OperatorMode}
use p44utils.Script.Processor.State.{State, StackFrame, Processor, Hooks}
use p44utils.Script.Processor.Steps.{Stands, Returned}

-- The frame that `push` puts on the stack.
abbrev pub frame_of : {V W : Type 0} → State → Processor V W → StackFrame V
frame_of back p = record {
  src = p.src;
  skipping = p.skipping;
  return_to_state = back;
  result = p.result;
  helper = p.helper;
  precedence = p.precedence;
  pending_operation = p.pending_operation;
}

module _ {V W : Type 0} (mode : OperatorMode) (h : Hooks V W) where
  -- In `state`, with a frame on the stack that goes back to the state `back`.
  pub record Enters (state back : State) (older : Option V) (pending held : ℕ) (left : List ℕ)
      (below : List (StackFrame V)) (precedence : ℕ) (flag : Bool) (q : Processor V W)
      : Type 0 where
    pub frame : StackFrame V
    pub at : q.current_state ≡ some state
    pub holds : q.result ≡ older
    pub leaves : q.src.rest ≡ left
    pub keeps : q.stack ≡ frame ∷ below
    pub binds : q.precedence ≡ precedence
    pub runs : q.skipping ≡ false
    pub ends : q.expression_flag ≡ flag
    pub returns : frame.return_to_state ≡ back
    pub saves : frame.result ≡ older
    pub waits : frame.pending_operation ≡ pending
    pub restores : frame.precedence ≡ held
    pub resumes : frame.skipping ≡ false

  -- The frame popped with a value, what it held restored.
  pub record Back (back : State) (older : Option V) (pending held : ℕ) (v : V) (left : List ℕ)
      (below : List (StackFrame V)) (flag : Bool) (q : Processor V W) : Type 0 where
    pub stands : Stands mode h back (some v) left below held flag q
    pub waiting : q.pending_operation ≡ pending
    pub older_holds : q.older_result ≡ older

  pub Returned-Back :
      {state back : State} {older : Option V} {pending held precedence : ℕ} {left left' : List ℕ}
      {below : List (StackFrame V)} {flag : Bool} {v : V} (q z : Processor V W)
      (e : Enters state back older pending held left below precedence flag q)
      → Returned mode h e.frame below v left' flag z
      → Back back older pending held v left' below flag z
  Returned-Back q z e r = record {
    stands = record {
      at = r.stands.at ∙ ap some e.returns;
      holds = r.stands.holds;
      leaves = r.stands.leaves;
      keeps = r.stands.keeps;
      binds = r.stands.binds ∙ e.restores;
      runs = r.stands.runs;
      ends = r.stands.ends;
    };
    waiting = r.pending ∙ e.waits;
    older_holds = r.older ∙ e.saves;
  }

  -- With stack, precedence and flag under other names.
  pub Stands-at :
      {state : State} {v : Option V} {left : List ℕ} {frames frames' : List (StackFrame V)}
      {precedence precedence' : ℕ} {flag flag' : Bool} (q : Processor V W)
      → frames ≡ frames'
      → precedence ≡ precedence'
      → flag ≡ flag'
      → Stands mode h state v left frames precedence flag q
      → Stands mode h state v left frames' precedence' flag' q
  Stands-at q k b f s = record {
    at = s.at;
    holds = s.holds;
    leaves = s.leaves;
    keeps = s.keeps ∙ k;
    binds = s.binds ∙ b;
    runs = s.runs;
    ends = s.ends ∙ f;
  }
