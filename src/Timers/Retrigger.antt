-- ===== src/Timers/Retrigger.antt =====
-- retriggerTimer (mainloop.cpp): a handler sets its own timer anew.
use p44utils.Prelude.{
  ℕ, zero, suc, ◌+◌, ◌*◌, ◌≤◌, ◌<◌, ◌≡◌, ◌⊎◌, refl, none, some, Option, true, arith, ltb, leb,
  if◌then◌else◌, inl, inr, if_split, ap,
}
use p44utils.Timers.Defs.{MlTimer, MainLoop, Env, now}

-- The argument aSkip: the constants of class MainLoop, or a number of intervals that is not negative.
pub data Skip : Type 0 where
  absolute from_now_if_late from_now : Skip
  up_to : ℕ → Skip

-- The do loop: `n` rounds are left, and `skipped` are done. `none` stands for the answer -1.
unfoldable pub skip_loop : ℕ → ℕ → ℕ → ℕ → MlTimer → Option ℕ × MlTimer
skip_loop zero interval t skipped tmr = (none, tmr)
skip_loop (suc n) interval t skipped tmr =
    let tmr' = record tmr { execution_time = tmr.execution_time + interval } in
    let rest = skip_loop n interval t (skipped + 1) tmr' in
    if leb t tmr'.execution_time then (some skipped, record tmr' { reinsert = true }) else rest

-- The branches of retriggerTimer at the time `t`, on the timer with its new tolerance.
unfoldable pub retrigger_at : ℕ → MlTimer → ℕ → Skip → Option ℕ × MlTimer
unfolding skip_loop
retrigger_at t tmr interval absolute =
    if ltb interval (t + tmr.tolerance)
    then (some 1, record tmr { execution_time = t; reinsert = true })
    else (some 0, record tmr { execution_time = interval; reinsert = true })
retrigger_at t tmr interval from_now_if_late =
    if ltb (tmr.execution_time + interval + tmr.tolerance) t
    then (some 1, record tmr { execution_time = t + interval; reinsert = true })
    else (some 0, record tmr { execution_time = tmr.execution_time + interval; reinsert = true })
retrigger_at t tmr interval from_now =
    (some 0, record tmr { execution_time = t + interval; reinsert = true })
retrigger_at t tmr interval (up_to s) = skip_loop (suc s) interval t 0 tmr

unfoldable pub retrigger_timer :
    {W : Type 0} → Env W → MlTimer → ℕ → ℕ → Skip → MainLoop W → (Option ℕ × MlTimer) × MainLoop W
unfolding now retrigger_at
retrigger_timer env tmr interval tolerance skip m =
    let (t, m') = now env m in
    (retrigger_at t (record tmr { tolerance = tolerance }) interval skip, m')

-- What `n` intervals from `start` on give: the first of them that reaches the time `t`, or none.
abbrev pub Skips : ℕ → ℕ → ℕ → ℕ → MlTimer → Option ℕ × MlTimer → Type 0
Skips n interval t start tmr (none, tmr') =
    ((n ≡ 0) ⊎ (start + n * interval < t))
    × (tmr' ≡ record tmr { execution_time = start + n * interval })
Skips n interval t start tmr (some k, tmr') =
    (k < n)
    × (t ≤ start + (k + 1) * interval)
    × ((k ≡ 0) ⊎ (start + k * interval < t))
    × (tmr' ≡ record tmr { execution_time = start + (k + 1) * interval; reinsert = true })

skip_loop-Skips :
    (n interval t skipped start all : ℕ) (tmr : MlTimer)
    → all ≡ skipped + n
    → tmr.execution_time ≡ start + skipped * interval
    → (skipped ≡ 0) ⊎ (tmr.execution_time < t)
    → Skips all interval t start tmr (skip_loop n interval t skipped tmr)
unfolding skip_loop
skip_loop-Skips zero interval t skipped start all tmr a e h =
    let same : skipped ≡ all = omega arith in ground (arith, ap (λ (k : ℕ). k * interval) same)
skip_loop-Skips (suc n) interval t skipped start all tmr a e h =
    if_split (Skips all interval t start tmr) (leb t (tmr.execution_time + interval))
      (λ fits. ground arith)
      λ short.
        skip_loop-Skips n interval t (skipped + 1) start all
          (record tmr { execution_time = tmr.execution_time + interval }) (omega arith)
          (omega arith) (inr (ground arith))

-- With a limit of s skipped intervals retriggerTimer finds the first of s + 1 intervals after the
-- timer's last time that reaches the present: it answers how many it left out, sets the timer to
-- that time and has it inserted again. Where none of them reaches the present it answers -1, has
-- nothing inserted, and leaves the timer s + 1 intervals on.
pub retrigger_timer-Skips :
    {W : Type 0} (env : Env W) (tmr : MlTimer) (interval tolerance s : ℕ) (m : MainLoop W)
    → Skips
        (suc s)
        interval
        (env.now_at m.reads)
        tmr.execution_time
        (record tmr { tolerance = tolerance })
        (retrigger_timer env tmr interval tolerance (up_to s) m).0
unfolding retrigger_timer
retrigger_timer-Skips env tmr interval tolerance s m =
    skip_loop-Skips (suc s) interval (env.now_at m.reads) 0 tmr.execution_time (suc s)
      (record tmr { tolerance = tolerance }) (omega arith) (omega arith) (inl refl)

abbrev pub InReach : ℕ → Option ℕ × MlTimer → Type 0
InReach t (none, tmr) = Unit {0}
InReach t (some k, tmr) = (tmr.reinsert ≡ true) × (t ≤ tmr.execution_time + tmr.tolerance)

reaches :
    (n interval t skipped : ℕ) (tmr : MlTimer) → InReach t (skip_loop n interval t skipped tmr)
unfolding skip_loop
reaches zero interval t skipped tmr = tt
reaches (suc n) interval t skipped tmr =
    if_split (InReach t) (leb t (tmr.execution_time + interval)) (λ fits. ground arith)
      λ short.
        reaches n interval t (skipped + 1)
          (record tmr { execution_time = tmr.execution_time + interval })

-- In every mode of retriggerTimer, an answer other than -1 means that the timer will be inserted
-- again, at a time that is not more than its tolerance in the past.
pub retrigger_timer-InReach :
    {W : Type 0} (env : Env W) (tmr : MlTimer) (interval tolerance : ℕ) (skip : Skip)
    (m : MainLoop W)
    → InReach (env.now_at m.reads) (retrigger_timer env tmr interval tolerance skip m).0
unfolding retrigger_timer
retrigger_timer-InReach env tmr interval tolerance absolute m = ground arith
retrigger_timer-InReach env tmr interval tolerance from_now_if_late m = ground arith
retrigger_timer-InReach env tmr interval tolerance from_now m = ground arith
retrigger_timer-InReach env tmr interval tolerance (up_to s) m =
    reaches (suc s) interval (env.now_at m.reads) 0 (record tmr { tolerance = tolerance })
