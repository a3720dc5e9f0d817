-- ===== src/Timers/Order.antt =====
-- The order of the timer list, and scheduleTimer against plain insertion (mainloop.cpp).
use p44utils.Prelude.{
  ℕ, ◌≤◌, ◌≡◌, refl, Option, none, some, List, [], ◌∷◌, ◌++◌, All, arith, inl, inr, Option-cases,
}
use p44utils.Timers.Defs.{MlTimer, insert_before_later, back, schedule_list, take_out}

abbrev pub NotBefore : ℕ → List MlTimer → Type 0
NotBefore t = All (λ p. t ≤ p.execution_time)

-- Execution times do not fall along the list.
abbrev pub IsSorted : List MlTimer → Type 0
IsSorted [] = Unit {0}
IsSorted (p ∷ ps) = NotBefore p.execution_time ps × IsSorted ps

pub NotBefore-mono : (a b : ℕ) (ps : List MlTimer) → a ≤ b → NotBefore b ps → NotBefore a ps
NotBefore-mono a b [] h v = tt
NotBefore-mono a b (p ∷ ps) h v = (omega arith, NotBefore-mono a b ps h v.1)

insert_before_later-NotBefore :
    (a : ℕ) (t : MlTimer) (ps : List MlTimer)
    → a ≤ t.execution_time
    → NotBefore a ps
    → NotBefore a (insert_before_later t ps)
unfolding insert_before_later
insert_before_later-NotBefore a t [] h v = (h, tt)
insert_before_later-NotBefore a t (p ∷ ps) h v =
    ground (arith, insert_before_later-NotBefore a t ps)

pub insert_before_later-IsSorted :
    (t : MlTimer) (ps : List MlTimer) → IsSorted ps → IsSorted (insert_before_later t ps)
unfolding insert_before_later
insert_before_later-IsSorted t [] s = (tt, tt)
insert_before_later-IsSorted t (p ∷ ps) s = ground (
  arith,
  insert_before_later-IsSorted t ps s.1,
  insert_before_later-NotBefore p.execution_time t ps,
  NotBefore-mono t.execution_time p.execution_time ps,
)

le-back :
    (a : ℕ) (p : MlTimer) (ps : List MlTimer)
    → a ≤ p.execution_time
    → NotBefore a ps
    → a ≤ (back p ps).execution_time
unfolding back
le-back a p [] h v = h
le-back a p (q ∷ ps) h v = le-back a q ps v.0 v.1

-- A timer that is not before the last one goes behind all others.
insert_before_later_last :
    (t p : MlTimer) (ps : List MlTimer)
    → IsSorted (p ∷ ps)
    → (back p ps).execution_time ≤ t.execution_time
    → insert_before_later t (p ∷ ps) ≡ (p ∷ ps) ++ t ∷ []
unfolding insert_before_later back
insert_before_later_last t p [] s h = ground arith
insert_before_later_last t p (q ∷ ps) s h =
    let first : p.execution_time ≤ t.execution_time =
      omega (arith, le-back p.execution_time p (q ∷ ps) (omega arith) s.0) in
    ground (arith, insert_before_later_last t q ps s.1 h, first)

-- On a sorted list scheduleTimer, with its two shortcuts, puts the timer in front of the first one
-- that executes later, and at the end where there is none.
pub schedule_list-insert_before_later :
    (t : MlTimer) (ps : List MlTimer) → IsSorted ps → schedule_list t ps ≡ insert_before_later t ps
unfolding schedule_list
schedule_list-insert_before_later t [] s = unfold insert_before_later in refl
schedule_list-insert_before_later t (p ∷ ps) s = ground (arith, insert_before_later_last t p ps s)

pub schedule_list-IsSorted :
    (t : MlTimer) (ps : List MlTimer) → IsSorted ps → IsSorted (schedule_list t ps)
schedule_list-IsSorted t ps s =
    rw (schedule_list-insert_before_later t ps s) (insert_before_later-IsSorted t ps s)

abbrev pub Remains : List MlTimer → Option (MlTimer × List MlTimer) → Type 0
Remains ps none = Unit {0}
Remains ps (some (t, rest)) = IsSorted rest

take_out-NotBefore :
    (a k : ℕ) (ps : List MlTimer) {t : MlTimer} {rest : List MlTimer}
    → NotBefore a ps
    → take_out k ps ≡ some (t, rest)
    → NotBefore a rest
unfolding take_out
take_out-NotBefore a k [] v e = absurd (ground arith)
take_out-NotBefore a k (p ∷ ps) {t} {rest} v e = elim (Option-cases (take_out k ps)) [
  | inl n ↦ ground arith
  | inr ((u, us), f) ↦ ground (arith, take_out-NotBefore a k ps v.1 f)
]

pub take_out-IsSorted :
    (k : ℕ) (ps : List MlTimer) {t : MlTimer} {rest : List MlTimer}
    → IsSorted ps
    → take_out k ps ≡ some (t, rest)
    → IsSorted rest
unfolding take_out
take_out-IsSorted k [] s e = absurd (ground arith)
take_out-IsSorted k (p ∷ ps) {t} {rest} s e = elim (Option-cases (take_out k ps)) [
  | inl n ↦ ground arith
  | inr ((u, us), f) ↦
      ground (arith, take_out-IsSorted k ps s.1 f, take_out-NotBefore p.execution_time k ps s.0 f)
]
