-- ===== src/Script/Processor/Leaving.antt =====
-- Which frame of the stack break and continue find (unWindStackTo, skipUntilReaching,
-- processStatement, p44script.cpp).
use p44utils.Script.Processor.Statements.Keywords.{error_of}
use p44utils.Prelude.{
  not, Bool-cases, ◌≡◌, refl, ap, ◌⊎◌, inl, inr, true, false, none, some, Option, List, [], ◌∷◌,
  ◌++◌, map, if◌then◌else◌,
}
use p44utils.Script.Processor.State.{State, StackFrame, Processor, Hooks, same_state, outside_loop}
use p44utils.Script.Processor.Stack.{
  complete, throw_or_complete, skip_frames, unwound_to, pop, pop_frame, exit_with_syntax_error,
  check_and_resume,
}
use p44utils.Script.Processor.Catching.{Misses, skipped}
use p44utils.Script.Processor.Statements.Jumps.{loop_state, break_statement, continue_statement}

-- The topmost frame that returns to the state, and what stands around it.
pub record Found {V : Type 0} (state : State) (l : List (StackFrame V)) : Type 0 where
  pub above : List (StackFrame V)
  pub found : StackFrame V
  pub below : List (StackFrame V)
  pub stack_is : l ≡ above ++ found ∷ below
  pub passed_by : Misses state above
  pub returns_there : same_state found.return_to_state state ≡ true

module _ {V W : Type 0} (h : Hooks V W) where
  -- The stack that is made skipping down to the frame.
  abbrev pub left_by_break :
      {state : State} {l : List (StackFrame V)} → Found state l → List (StackFrame V)
  left_by_break f = map skipped f.above ++ skipped f.found ∷ f.below

  abbrev Reached : State → List (StackFrame V) → Type 0
  Reached state l =
      (Misses state l × ((skip_frames h state none l ≡ none) × (unwound_to h state l ≡ none)))
      ⊎ ((f : Found state l) × ((skip_frames h state none l ≡ some (left_by_break f))
            × (unwound_to h state l ≡ some (f.found ∷ f.below))))

  here :
      (state : State) (f : StackFrame V) (l : List (StackFrame V))
      → same_state f.return_to_state state ≡ true
      → Reached state (f ∷ l)
  unfolding skip_frames unwound_to
  here state f l e = inr (
    record { above = []; found = f; below = l; stack_is = refl; passed_by = tt; returns_there = e },
    (rw e refl, rw e refl),
  )

  further :
      (state : State) (f : StackFrame V) (l : List (StackFrame V))
      → same_state f.return_to_state state ≡ false
      → Reached state l
      → Reached state (f ∷ l)
  unfolding skip_frames unwound_to
  further state f l e (inl (m, (s, u))) = inl ((e, m), (rw (e, s) refl, rw (e, u) refl))
  further state f l e (inr (r, (s, u))) = inr (
    record {
      above = f ∷ r.above;
      found = r.found;
      below = r.below;
      stack_is = ap (λ t. f ∷ t) r.stack_is;
      passed_by = (e, r.passed_by);
      returns_there = r.returns_there;
    },
    (rw (e, s) refl, rw (e, u) refl),
  )

  reached : (state : State) (l : List (StackFrame V)) → Reached state l
  unfolding skip_frames unwound_to
  reached state [] = inl (tt, (refl, refl))
  reached state (f ∷ l) = elim (Bool-cases (same_state f.return_to_state state)) [
    | inl e ↦ here state f l e
    | inr e ↦ further state f l e (reached state l)
  ]

  checked :
      (p : Processor V W) (o : Option V)
      → error_of h o ≡ false
      → (elim o [
        | none ↦ p
        | some v ↦
            if not (h.values.is_err v)
            then p
            else if not h.runs_thread
            then complete h (some v) p
            else if not (h.values.is_caught v)
            then throw_or_complete h v p
            else p
      ])
        ≡ p
  checked p none e = refl
  checked p (some v) e = rw e refl

  pub nothing_thrown : (p : Processor V W) → error_of h p.result ≡ false → check_and_resume h p ≡ p
  unfolding check_and_resume
  nothing_thrown p e = checked p p.result e

  -- Where no result is left, break and continue find the same frame, the topmost one that returns
  -- behind the body of a loop, of a foreach where the statement helper is that of a foreach and of
  -- a for or while else: break goes on in the same state with this frame and those above it
  -- skipping, continue drops those above and goes on as the frame says; both keep the frames
  -- below, the position, the result and what is outside. Where there is no such frame both are
  -- syntax errors.
  pub jumps-Found :
      (p : Processor V W)
      → p.result ≡ none
      → (Misses (loop_state p.helper) p.stack
          × ((break_statement h p ≡ exit_with_syntax_error h outside_loop p)
              × (continue_statement h p ≡ exit_with_syntax_error h outside_loop p)))
        ⊎ ((f : Found (loop_state p.helper) p.stack) × ((break_statement h p
                ≡ record p { stack = left_by_break f; skipping = true })
              × (continue_statement h p ≡ pop_frame h f.found f.below p)))
  unfolding break_statement continue_statement pop
  jumps-Found p e = elim (reached (loop_state p.helper) p.stack) [
    | inl (m, (s, u)) ↦ inl (m, (rw (s, break_statement) refl, rw (u, continue_statement) refl))
    | inr (f, (s, u)) ↦ inr (
      f,
      (
        rw (s, break_statement)
            (nothing_thrown (record p { stack = left_by_break f; skipping = true })
              (ap (error_of h) e)),
        rw (u, continue_statement)
            (nothing_thrown (pop_frame h f.found f.below p) (ap (error_of h) e)),
      ),
    )
  ]
