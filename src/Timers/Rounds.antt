-- ===== src/Timers/Rounds.antt =====
-- One round of the loops of checkTimers (mainloop.cpp), by what it does.
use p44utils.Prelude.{
  ℕ, suc, ◌+◌, ◌≤◌, ◌≡◌, ◌⊎◌, refl, some, List, [], ◌∷◌, true, false, inl, inr, Bool, Bool-cases,
  arith, min, ltb,
}
use p44utils.Timers.Defs.{MlTimer, MainLoop, Env, now, run_timer, check_loop, never}

-- The timer may run at this time: its tolerance, up to the loop's limit, is used; the time limit of
-- this call of checkTimers has not passed; the loop is not terminated.
pub record IsDue {W : Type 0} (p : MlTimer) (t until : ℕ) (m : MainLoop W) : Type 0 where
  pub not_early : p.execution_time ≤ t + min p.tolerance m.max_coalescing
  pub in_time : t ≤ until
  pub running : m.terminated ≡ false

module _ {W : Type 0} (env : Env W) where
  pub data Round (f until next : ℕ) (m : MainLoop W) : Type 0 where
    restarts :
        m.timers_changed ≡ true
        → check_loop env (suc f) until next m
          ≡ check_loop env f until never (record m { timers_changed = false })
        → Round f until next m
    ends :
        m.timers_changed ≡ false
        → m.timers ≡ []
        → check_loop env (suc f) until next m ≡ some (next, m)
        → Round f until next m
    stops :
        (p : MlTimer) (rest : List MlTimer) (v : ℕ)
        → m.timers_changed ≡ false
        → m.timers ≡ p ∷ rest
        → (v ≡ p.execution_time) ⊎ ((v ≡ never) × (m.terminated ≡ true))
        → check_loop env (suc f) until next m ≡ some (v, (now env m).1)
        → Round f until next m
    runs :
        (p : MlTimer) (rest : List MlTimer)
        → m.timers_changed ≡ false
        → m.timers ≡ p ∷ rest
        → IsDue p (env.now_at m.reads) until m
        → check_loop env (suc f) until next m
          ≡ check_loop env f until p.execution_time
              (run_timer env p (env.now_at m.reads) rest (now env m).1)
        → Round f until next m

  module _ (f until next : ℕ) (m : MainLoop W) where
    abbrev early : MlTimer → Bool
    early p = ltb (env.now_at m.reads + min p.tolerance m.max_coalescing) p.execution_time

    abbrev late : Bool
    late = ltb until (env.now_at m.reads)

    -- The tests on the front timer, in their order.
    front :
        (p : MlTimer) (rest : List MlTimer)
        → m.timers_changed ≡ false
        → m.timers ≡ p ∷ rest
        → Round f until next m
    unfolding check_loop now
    front p rest c e = elim (Bool-cases (early p)) [
      | inl x ↦ stops p rest p.execution_time c e (inl refl) (ground arith)
      | inr x ↦ elim (Bool-cases late) [
        | inl y ↦ stops p rest p.execution_time c e (inl refl) (ground arith)
        | inr y ↦ elim (Bool-cases m.terminated) [
          | inl z ↦ stops p rest never c e (inr (refl, z)) (ground arith)
          | inr z ↦
              runs p rest c e
                (record { not_early = ground arith; in_time = ground arith; running = z })
                (ground arith)
        ]
      ]
    ]

    by_list : (ps : List MlTimer) → m.timers ≡ ps → m.timers_changed ≡ false → Round f until next m
    unfolding check_loop
    by_list [] e c = ends c e (ground arith)
    by_list (p ∷ rest) e c = front p rest c e

    -- Each round is of one of the four kinds.
    pub round : Round f until next m
    unfolding check_loop
    round = elim (Bool-cases m.timers_changed) [
      | inl c ↦ restarts c (ground arith)
      | inr c ↦ by_list m.timers refl c
    ]
