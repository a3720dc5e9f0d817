-- ===== src/Script/Processor/Catching.antt =====
-- Which frame of the stack catches an error (skipUntilReaching, throwOrComplete, p44script.cpp).
use p44utils.Prelude.{
  ◌≡◌, refl, sym, ap, ◌⊎◌, inl, inr, Bool, true, false, none, some, Option, List, [], ◌∷◌, ◌++◌,
  map, if◌then◌else◌, All, if_split,
}
use mathlib.Core.Path.{subst}
use p44utils.Script.Processor.State.{
  State, StackFrame, Processor, Hooks, s_try_statement, same_state,
}
use p44utils.Script.Processor.Stack.{complete, skip_frames, throw_or_complete}

abbrev pub skipped : {V : Type 0} → StackFrame V → StackFrame V
skipped f = record f { skipping = true }

abbrev thrown_in : {V : Type 0} → V → StackFrame V → StackFrame V
thrown_in v f = record f { skipping = true; result = some v }

-- No frame returns to the state.
abbrev pub Misses : {V : Type 0} → State → List (StackFrame V) → Type 0
Misses state l = All (λ (f : StackFrame _). same_state f.return_to_state state ≡ false) l

-- The topmost frame that returns to the state, and the stack with the error in it.
pub record Catches {V : Type 0} (state : State) (v : V) (l l' : List (StackFrame V)) : Type 0 where
  pub above : List (StackFrame V)
  pub catching : StackFrame V
  pub below : List (StackFrame V)
  pub stack_is : l ≡ above ++ catching ∷ below
  pub passed_by : Misses state above
  pub returns_there : same_state catching.return_to_state state ≡ true
  pub stack_after : l' ≡ map skipped above ++ thrown_in v catching ∷ below

neither :
    {A : Type 0} (x y z : A) (b c : Bool)
    → b ≡ false
    → c ≡ false
    → (if b then x else if c then y else z) ≡ z
neither x y z b c e f = rw (e, f) refl

module _ {V W : Type 0} (h : Hooks V W) where
  abbrev Searched : State → V → List (StackFrame V) → Option (List (StackFrame V)) → Type 0
  Searched state v l none = Misses state l
  Searched state v l (some l') = Catches state v l l'

  deeper :
      (state : State) (v : V) (f : StackFrame V) (l : List (StackFrame V))
      (o : Option (List (StackFrame V)))
      → same_state f.return_to_state state ≡ false
      → Searched state v l o
      → Searched state v
          (f ∷ l)
          (elim o [ none ↦ none | some frames ↦ some (record f { skipping = true } ∷ frames) ])
  deeper state v f l none e m = (e, m)
  deeper state v f l (some l') e c = record {
    above = f ∷ c.above;
    catching = c.catching;
    below = c.below;
    stack_is = ap (λ t. f ∷ t) c.stack_is;
    passed_by = (e, c.passed_by);
    returns_there = c.returns_there;
    stack_after = ap (λ t. skipped f ∷ t) c.stack_after;
  }

  skip_frames-Searched :
      (state : State) (v : V) (l : List (StackFrame V))
      → Searched state v l (skip_frames h state (some v) l)
  unfolding skip_frames
  skip_frames-Searched state v [] = tt
  skip_frames-Searched state v (f ∷ l) =
      if_split (λ (o : Option (List (StackFrame V))). Searched state v (f ∷ l) o)
        (same_state f.return_to_state state)
        (λ e. record {
          above = [];
          catching = f;
          below = l;
          stack_is = refl;
          passed_by = tt;
          returns_there = e;
          stack_after = refl;
        })
        (λ e.
          deeper state v f l (skip_frames h state (some v) l) e (skip_frames-Searched state v l))

  -- The processor behind the throw.
  pub record Caught (v : V) (p q : Processor V W) : Type 0 where
    pub catches : Catches s_try_statement (h.values.caught v) p.stack q.stack
    pub skips : q.skipping ≡ true
    pub holds : q.result ≡ some (h.values.caught v)
    pub goes_on : q.current_state ≡ p.current_state

  abbrev ThrowOutcome : V → Processor V W → Processor V W → Type 0
  ThrowOutcome v p q =
      (Misses s_try_statement p.stack × (q ≡ complete h (some v) (record p { result = some v })))
      ⊎ Caught v p q

  throw_outcome :
      (v : V) (p : Processor V W) (o : Option (List (StackFrame V)))
      → Searched s_try_statement (h.values.caught v) p.stack o
      → ThrowOutcome v p (elim o [
        | none ↦ complete h (some v) (record p { result = some v })
        | some frames ↦ record (record p { result = some (h.values.caught v) }) {
          stack = frames;
          skipping = true;
        }
      ])
  throw_outcome v p none m = inl (m, refl)
  throw_outcome v p (some l) c =
      inr (record { catches = c; skips = refl; holds = refl; goes_on = refl })

  throw_step :
      (v : V) (p : Processor V W)
      → h.values.is_fatal v ≡ false
      → p.skipping ≡ false
      → throw_or_complete h v p
        ≡ (elim (skip_frames h s_try_statement (some (h.values.caught v)) p.stack) [
          | none ↦ complete h (some v) (record p { result = some v })
          | some frames ↦ record (record p { result = some (h.values.caught v) }) {
            stack = frames;
            skipping = true;
          }
        ])
  unfolding throw_or_complete
  throw_step v p f s =
      neither (complete h (some v) (record p { result = some v }))
        (record p { result = some (h.values.caught v) }) _ (h.values.is_fatal v) p.skipping f s

  -- An error that is not fatal, thrown while nothing is skipped, goes to the topmost frame of the
  -- stack that returns to a try statement: the result of this frame becomes the error, marked as
  -- caught, it and those above it skip, those below stay as they were, and the processor goes on,
  -- skipping, in the same state with the error as result; where there is no such frame the
  -- processor completes with the error.
  pub throw_or_complete-Caught :
      (v : V) (p : Processor V W)
      → h.values.is_fatal v ≡ false
      → p.skipping ≡ false
      → (Misses s_try_statement p.stack
          × (throw_or_complete h v p ≡ complete h (some v) (record p { result = some v })))
        ⊎ Caught v p (throw_or_complete h v p)
  throw_or_complete-Caught v p f s =
      subst (λ (q : Processor V W). ThrowOutcome v p q) (sym (throw_step v p f s))
        (throw_outcome v p (skip_frames h s_try_statement (some (h.values.caught v)) p.stack)
          (skip_frames-Searched s_try_statement (h.values.caught v) p.stack))
