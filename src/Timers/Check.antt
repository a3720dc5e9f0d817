-- ===== src/Timers/Check.antt =====
-- checkTimers (mainloop.cpp): it ends, keeps the invariant, and runs only timers that are due.
use p44utils.Prelude.{
  ℕ, zero, suc, ◌+◌, ◌-◌, ◌*◌, ◌≤◌, ◌<◌, ◌≡◌, ◌⊎◌, refl, some, List, [], ◌∷◌, true, false, inl, inr,
  Bool, Bool-cases, arith, leb, ◌∙◌, sym, of_result, if_both,
}
use p44utils.Timers.Defs.{
  MlTimer, MainLoop, Env, now, run_timer, check_loop, check_timers, never, schedule_timer,
}
use p44utils.Timers.Order.{NotBefore}
use p44utils.Timers.Loop.{Inv}
use p44utils.Timers.Handlers.{IsActing, run_timer-Inv, run_timer-reads}
use p44utils.Timers.Rounds.{IsDue, restarts, ends, stops, runs, round}

abbrev pending : Bool → ℕ
pending true = 1
pending false = 0

pending-le : (b : Bool) → pending b ≤ 1
pending-le true = omega arith
pending-le false = omega arith

-- What checkTimers answers: the time of the front timer, which is the earliest; Never where the
-- loop is terminated. It says nothing where no timer is left.
abbrev pub Answers : {W : Type 0} → ℕ × MainLoop W → Type 0
Answers (v, m) =
    (m.timers ≡ [])
    ⊎ ((p : MlTimer) × (rest : List MlTimer) × (m.timers ≡ p ∷ rest)
        × ((v ≡ p.execution_time) ⊎ ((v ≡ never) × (m.terminated ≡ true))))

module _ {W : Type 0} (env : Env W) where
  -- The clock has passed a time for good from its reading `k` on.
  abbrev pub PassesAt : ℕ → ℕ → Type 0
  PassesAt k until = (i : ℕ) → k ≤ i → until < env.now_at i

  reads_left :
      (k until : ℕ) (m : MainLoop W) → PassesAt k until → env.now_at m.reads ≤ until → m.reads < k
  reads_left k until m late h = elim (Bool-cases (leb k m.reads)) [
    | inl p ↦ absurd (omega (arith, late m.reads (ground arith)))
    | inr p ↦ ground arith
  ]

  now-reads : (m : MainLoop W) → (now env m).1.reads ≡ suc m.reads
  unfolding now
  now-reads m = refl

  check_loop-Answers :
      (f until next : ℕ) (m : MainLoop W) {r : ℕ × MainLoop W}
      → check_loop env f until next m ≡ some r
      → Answers r
  unfolding check_loop now
  check_loop-Answers zero until next m e = absurd (ground arith)
  check_loop-Answers (suc f) until next m {r} e = elim (round env f until next m) [
    | restarts c q ↦
        check_loop-Answers f until never (record m { timers_changed = false }) (sym q ∙ e)
    | ends c n q ↦ of_result Answers q e (inl n)
    | stops p rest v c n o q ↦ of_result Answers q e (inr (p, rest, n, o))
    | runs p rest c n d q ↦
        check_loop-Answers f until p.execution_time
          (run_timer env p (env.now_at m.reads) rest (now env m).1) (sym q ∙ e)
  ]

  module _ (w : IsActing env) where
    check_loop_ends :
        (f until next k : ℕ) (m : MainLoop W)
        → PassesAt k until
        → 2 * (k - m.reads) + pending m.timers_changed < f
        → (r : ℕ × MainLoop W) × (check_loop env f until next m ≡ some r)
    check_loop_ends zero until next k m late h = absurd (omega arith)
    check_loop_ends (suc f) until next k m late h = elim (round env f until next m) [
      | restarts c e ↦
          let (r, q) =
            check_loop_ends f until never k (record m { timers_changed = false }) late
              (ground arith) in
          (r, e ∙ q)
      | ends c n e ↦ ((next, m), e)
      | stops p rest v c n o e ↦ (_, e)
      | runs p rest c n d e ↦
          let m' = run_timer env p (env.now_at m.reads) rest (now env m).1 in
          let (r, q) = check_loop_ends f until p.execution_time k m' late (
            omega (
              arith,
              pending-le m'.timers_changed,
              reads_left k until m late d.in_time,
              now-reads m,
              run_timer-reads env w p (env.now_at m.reads) rest (now env m).1,
            )) in
          (r, e ∙ q)
    ]

    -- The handler's call, as checkTimers makes it, on a timer that is due and is not later than any
    -- other one, keeps a property of what belongs to the handlers.
    abbrev pub KeepsWhenDue : ℕ → (W → Type 0) → Type 0
    KeepsWhenDue until P =
        (p : MlTimer) (t : ℕ) (m : MainLoop W)
        → IsDue p t until m
        → NotBefore p.execution_time m.timers
        → Inv m
        → P m.world
        → P (env.call (record p { reinsert = false }) t m).1.world

    -- A round that runs a timer keeps the property.
    run_keeps :
        (P : W → Type 0) (until : ℕ) (m : MainLoop W) (p : MlTimer) (rest : List MlTimer)
        → KeepsWhenDue until P
        → Inv m
        → m.timers ≡ p ∷ rest
        → IsDue p (env.now_at m.reads) until m
        → P m.world
        → P (run_timer env p (env.now_at m.reads) rest (now env m).1).world
    unfolding run_timer schedule_timer now
    run_keeps P until m p rest keep v e d pm =
        if_both (λ (x : MainLoop W). P x.world)
          (env.call (record p { reinsert = false }) t0 m0).0.reinsert kept kept
      where
        t0 : ℕ
        t0 = env.now_at m.reads

        m0 : MainLoop W
        m0 = record m { timers = rest; reads = suc m.reads }

        kept : P (env.call (record p { reinsert = false }) t0 m0).1.world
        kept =
            keep p t0 m0
              (record { not_early = d.not_early; in_time = d.in_time; running = d.running })
              (rw e at v.sorted).0
              (record {
                sorted = (rw e at v.sorted).1;
                unique = (rw e at v.unique).1;
                issued = (rw e at v.issued).1;
              })
              pm

    abbrev Kept : (W → Type 0) → ℕ × MainLoop W → Type 0
    Kept P s = Inv s.1 × P s.1.world

    check_loop_keeps :
        (P : W → Type 0) (f until next : ℕ) (m : MainLoop W) {r : ℕ × MainLoop W}
        → KeepsWhenDue until P
        → Inv m
        → P m.world
        → check_loop env f until next m ≡ some r
        → Inv r.1 × P r.1.world
    unfolding now
    check_loop_keeps P zero until next m keep v pm e = absurd (unfold check_loop in ground arith)
    check_loop_keeps P (suc f) until next m {r} keep v pm e = elim (round env f until next m) [
      | restarts c q ↦
          check_loop_keeps P f until never (record m { timers_changed = false }) keep
            (record { sorted = v.sorted; unique = v.unique; issued = v.issued }) pm (sym q ∙ e)
      | ends c n q ↦ of_result (Kept P) q e (v, pm)
      | stops p rest u c n o q ↦
          of_result (Kept P) q e
            (record { sorted = v.sorted; unique = v.unique; issued = v.issued }, pm)
      | runs p rest c n d q ↦
          check_loop_keeps P f until p.execution_time
            (run_timer env p (env.now_at m.reads) rest (now env m).1) keep
            (run_timer-Inv env w p (env.now_at m.reads) rest (now env m).1 n
              (record { sorted = v.sorted; unique = v.unique; issued = v.issued }))
            (run_keeps P until m p rest keep v n d pm) (sym q ∙ e)
    ]

    -- checkTimers ends: where the clock passes the time limit of the call for good at its reading
    -- k, and the handlers act on the loop by its operations only, two rounds for each reading
    -- until then are enough.
    pub check_timers_ends :
        (fuel timeout k : ℕ) (m : MainLoop W)
        → PassesAt k (env.now_at m.reads + timeout)
        → 2 * (k - m.reads) < fuel
        → (r : ℕ × MainLoop W) × (check_timers env fuel timeout m ≡ some r)
    unfolding check_timers now
    check_timers_ends fuel timeout k m late h =
        check_loop_ends fuel (env.now_at m.reads + timeout) never k
          (record m { reads = suc m.reads; timers_changed = false }) late (omega arith)

    -- checkTimers keeps the order of the timers and the uniqueness of their tickets, and it runs a
    -- handler only if its timer is due (not earlier than its tolerance allows, within the time
    -- limit, the loop not terminated) and no waiting timer is earlier: for handlers that act on
    -- the loop by its operations only, what belongs to the handlers keeps every property that such
    -- calls keep. It answers the time of the earliest timer, or Never in a terminated loop, if a
    -- timer is left.
    pub check_timers_runs_due :
        (P : W → Type 0) (fuel timeout : ℕ) (m : MainLoop W) {r : ℕ × MainLoop W}
        → KeepsWhenDue (env.now_at m.reads + timeout) P
        → Inv m
        → P m.world
        → check_timers env fuel timeout m ≡ some r
        → Inv r.1 × P r.1.world × Answers r
    unfolding check_timers now
    check_timers_runs_due P fuel timeout m keep v pm e =
        let m' = record m { reads = suc m.reads; timers_changed = false } in
        let (v', p') =
          check_loop_keeps P fuel (env.now_at m.reads + timeout) never m' keep
            (record { sorted = v.sorted; unique = v.unique; issued = v.issued }) pm e in
        (v', p', check_loop-Answers fuel (env.now_at m.reads + timeout) never m' e)
