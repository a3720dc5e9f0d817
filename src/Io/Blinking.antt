-- ===== src/Io/Blinking.antt =====
-- How an indicator blinks and that it ends (digitalio.cpp).
use p44utils.Prelude.{
  Option-cases, ℕ, zero, suc, ◌+◌, ◌≤◌, ◌<◌, ◌≡◌, ◌≢◌, refl, sym, ap, ◌∙◌, ◌⊎◌, inl, inr, Bool,
  true, false, not, ◌&&◌, none, some, ltb, if◌then◌else◌, arith, if_both, if_split,
}
use mathlib.Core.Path.{subst}
use p44utils.Timers.Defs.{MlTimer}
use p44utils.Timers.Retrigger.{from_now_if_late, retrigger_at}
use p44utils.Io.Digital.{is_set, set, is_set-set, set_output}
use p44utils.Io.Indicator.{Indicator, stop, blink_for, timer}

-- An output that blinks and shows the opposite of what comes next.
pub record Blinks (ind : Indicator) : Type 0 where
  pub is_output : ind.io.pin.output ≡ true
  pub shows : is_set ind.io ≡ not ind.next_timed_state
  pub goes_on : 0 < ind.blink_on_time

retrigger_ahead :
    (later interval : ℕ) (tmr : MlTimer)
    → let tmr' = (retrigger_at later (record tmr { tolerance = 0 }) interval from_now_if_late).1 in
      (tmr'.reinsert ≡ true)
      × (tmr.execution_time + interval ≤ tmr'.execution_time)
      × (later ≤ tmr'.execution_time)
unfolding retrigger_at
retrigger_ahead later interval tmr = ground arith

not_twice : (b : Bool) → not (not b) ≡ b
not_twice true = refl
not_twice false = refl

swapped : (b : Bool) (x y : ℕ) → (if not b then y else x) ≡ (if b then x else y)
swapped true x y = refl
swapped false x y = refl

-- As long as the time of blinking is not over the timer of a blinking indicator toggles the output
-- and is set anew, for the time that belongs to the new state, on or off, after its last execution
-- or later, and not before the present; the indicator goes on blinking.
pub timer-Blinks :
    (now later : ℕ) (tmr : MlTimer) (ind : Indicator)
    → Blinks ind
    → (ind.blink_until_time ≡ 0) ⊎ (now ≤ ind.blink_until_time)
    → let (tmr', ind') = timer now later tmr ind in
      Blinks ind'
      × (is_set ind'.io ≡ not (is_set ind.io))
      × (tmr'.reinsert ≡ true)
      × (tmr.execution_time + (if is_set ind'.io then ind.blink_on_time else ind.blink_off_time)
          ≤ tmr'.execution_time)
      × (later ≤ tmr'.execution_time)
      × (ind'.timed_op_ticket ≡ some tmr'.execution_time)
unfolding timer
timer-Blinks now later tmr ind b h =
    let on_going : (ltb 0 ind.blink_until_time && ltb ind.blink_until_time now) ≡ false =
      ground (arith, h) in
    let blinking : ltb 0 ind.blink_on_time ≡ true = ground (arith, b.goes_on) in
    let state = ind.next_timed_state in
    let is : is_set (set state ind.io) ≡ state = is_set-set state ind.io b.is_output in
    let interval = if not state then ind.blink_off_time else ind.blink_on_time in
    let (again, late, ahead) = retrigger_ahead later interval tmr in
    rw (on_going, blinking)
      (
        record {
          is_output = set_output state ind.io b.is_output;
          shows = is ∙ sym (not_twice state);
          goes_on = b.goes_on;
        },
        is ∙ sym (ap not b.shows ∙ not_twice state),
        again,
        subst
            (λ (w : ℕ).
              tmr.execution_time + w
              ≤ (retrigger_at later (record tmr { tolerance = 0 }) interval
                  from_now_if_late).1.execution_time)
            (swapped state ind.blink_on_time ind.blink_off_time
              ∙ ap (λ (s : Bool). if s then ind.blink_on_time else ind.blink_off_time) (sym is))
            late,
        ahead,
        refl,
      )

-- The calls of the handler at the readings of the clock from the `j`th on, `f` of them at most.
unfoldable pub run : (ℕ → ℕ) → ℕ → ℕ → MlTimer → Indicator → Indicator
unfolding timer
run clock zero j tmr ind = ind
run clock (suc f) j tmr ind =
    let (tmr', ind') = timer (clock j) (clock (j + 1)) tmr ind in
    let further = run clock f (j + 2) (record tmr' { reinsert = false }) ind' in
    elim ind.timed_op_ticket [ none ↦ ind | some e ↦ further ]

timer_until :
    (now later : ℕ) (tmr : MlTimer) (ind : Indicator)
    → (ind.blink_until_time ≢ 0)
    → (((timer now later tmr ind).1.timed_op_ticket ≡ none)
        ⊎ ((now ≤ ind.blink_until_time)
            × ((timer now later tmr ind).1.blink_until_time ≡ ind.blink_until_time)))
unfolding timer stop
timer_until now later tmr ind n =
    let P = λ (r : MlTimer × Indicator).
      (r.1.timed_op_ticket ≡ none)
      ⊎ ((now ≤ ind.blink_until_time) × (r.1.blink_until_time ≡ ind.blink_until_time)) in
    if_split P (ltb 0 ind.blink_until_time && ltb ind.blink_until_time now) (λ over. inl refl)
      (λ on_going.
        let in_time : now ≤ ind.blink_until_time = ground (arith, n, on_going) in
        if_both P (ltb 0 ind.blink_on_time) (inr (in_time, refl)) (inr (in_time, refl)))

blink_until :
    (now later on_time period on_ratio : ℕ) (ind : Indicator)
    → 0 < on_time
    → (blink_for now later on_time period on_ratio ind).blink_until_time ≡ now + on_time
unfolding blink_for
blink_until now later on_time period on_ratio ind p = ground arith

run_stopped :
    (clock : ℕ → ℕ) (f j : ℕ) (tmr : MlTimer) (ind : Indicator)
    → ind.timed_op_ticket ≡ none
    → (run clock f j tmr ind).timed_op_ticket ≡ none
unfolding run
run_stopped clock zero j tmr ind e = e
run_stopped clock (suc f) j tmr ind e = rw e refl

run_on :
    (clock : ℕ → ℕ) (f j : ℕ) (tmr : MlTimer) (ind : Indicator) (e : ℕ)
    → ind.timed_op_ticket ≡ some e
    → let (tmr', ind') = timer (clock j) (clock (j + 1)) tmr ind in
      run clock (suc f) j tmr ind ≡ run clock f (j + 2) (record tmr' { reinsert = false }) ind'
unfolding run
run_on clock f j tmr ind e h = rw h refl

-- One call, and then those that follow where it does not stop the blinking.
run_unless :
    (clock : ℕ → ℕ) (f j : ℕ) (tmr : MlTimer) (ind : Indicator)
    → ind.blink_until_time ≢ 0
    → let (tmr', ind') = timer (clock j) (clock (j + 1)) tmr ind in
      (clock j ≤ ind.blink_until_time
        → ind'.blink_until_time ≡ ind.blink_until_time
        → (run clock f (j + 2) (record tmr' { reinsert = false }) ind').timed_op_ticket ≡ none)
      → (run clock (suc f) j tmr ind).timed_op_ticket ≡ none
run_unless clock f j tmr ind n further =
    let (tmr', ind') = timer (clock j) (clock (j + 1)) tmr ind in
    elim (Option-cases ind.timed_op_ticket) [
      | inl e ↦ run_stopped clock (suc f) j tmr ind e
      | inr (t, e) ↦
          subst (λ (r : Indicator). r.timed_op_ticket ≡ none) (sym (run_on clock f j tmr ind t e))
            (elim (timer_until (clock j) (clock (j + 1)) tmr ind n) [
              | inl stopped ↦
                  run_stopped clock f (j + 2) (record tmr' { reinsert = false }) ind' stopped
              | inr (in_time, same) ↦ further in_time same
            ])
    ]

run_ends :
    (clock : ℕ → ℕ) (k f j : ℕ) (tmr : MlTimer) (ind : Indicator)
    → ind.blink_until_time ≢ 0
    → ((i : ℕ) → k ≤ i → ind.blink_until_time < clock i)
    → k ≤ j + f
    → (run clock (suc f) j tmr ind).timed_op_ticket ≡ none
run_ends clock k zero j tmr ind n late h =
    run_unless clock zero j tmr ind n
      (λ in_time same. absurd (omega (arith, late j (omega arith), in_time)))
run_ends clock k (suc f) j tmr ind n late h = run_unless clock (suc f) j tmr ind n (λ in_time same.
    run_ends clock k f (j + 2) _ _ (λ z. n (sym same ∙ z)) (λ i a. omega (arith, late i a, same))
      (omega arith))

-- An indicator that blinks for a time stops: where every reading of the clock from the k-th on is
-- past that time, it has no timer any more after k + 1 calls of its handler.
pub run-blink_for :
    (clock : ℕ → ℕ) (k now later on_time period on_ratio : ℕ) (tmr : MlTimer) (ind : Indicator)
    → 0 < on_time
    → ((i : ℕ) → k ≤ i → now + on_time < clock i)
    → (run clock (suc k) 0 tmr (blink_for now later on_time period on_ratio ind)).timed_op_ticket
      ≡ none
run-blink_for clock k now later on_time period on_ratio tmr ind p past =
    let until = blink_until now later on_time period on_ratio ind p in
    run_ends clock k k 0 tmr (blink_for now later on_time period on_ratio ind)
      (omega (arith, until, p)) (λ i a. omega (arith, past i a, until)) (omega arith)
