-- ===== src/Timers/Tickets.antt =====
-- Ticket numbers: what the operations on the timer list do to the timer of each ticket
-- (mainloop.cpp).
use p44utils.Prelude.{
  ℕ, suc, ◌≤◌, ◌<◌, ◌≡◌, refl, Option, none, some, List, [], ◌∷◌, ◌++◌, All, arith, inl, inr,
  if◌then◌else◌, ◌==◌, Option-cases,
}
use p44utils.Timers.Defs.{MlTimer, insert_before_later, schedule_list, take_out}

-- The timer that has a ticket number.
unfoldable pub find : ℕ → List MlTimer → Option MlTimer
find k [] = none
find k (p ∷ ps) = if p.ticket_no == k then some p else find k ps

abbrev pub IsUnique : List MlTimer → Type 0
IsUnique [] = Unit {0}
IsUnique (p ∷ ps) = (find p.ticket_no ps ≡ none) × IsUnique ps

abbrev pub Issued : ℕ → List MlTimer → Type 0
Issued n = All (λ p. (0 < p.ticket_no) × (p.ticket_no ≤ n))

find-insert_before_later :
    (k : ℕ) (t : MlTimer) (ps : List MlTimer)
    → find t.ticket_no ps ≡ none
    → find k (insert_before_later t ps) ≡ (if t.ticket_no == k then some t else find k ps)
unfolding find insert_before_later
find-insert_before_later k t [] h = refl
find-insert_before_later k t (p ∷ ps) h = ground (arith, find-insert_before_later k t ps)

find-append_one :
    (k : ℕ) (t : MlTimer) (ps : List MlTimer)
    → find t.ticket_no ps ≡ none
    → find k (ps ++ t ∷ []) ≡ (if t.ticket_no == k then some t else find k ps)
unfolding find
find-append_one k t [] h = refl
find-append_one k t (p ∷ ps) h = ground (arith, find-append_one k t ps)

pub find-schedule_list :
    (k : ℕ) (t : MlTimer) (ps : List MlTimer)
    → find t.ticket_no ps ≡ none
    → find k (schedule_list t ps) ≡ (if t.ticket_no == k then some t else find k ps)
unfolding schedule_list
find-schedule_list k t [] h = unfold find in refl
find-schedule_list k t (p ∷ ps) h =
    ground (arith, find-insert_before_later k t (p ∷ ps), find-append_one k t (p ∷ ps))

insert_before_later-IsUnique :
    (t : MlTimer) (ps : List MlTimer)
    → find t.ticket_no ps ≡ none
    → IsUnique ps
    → IsUnique (insert_before_later t ps)
unfolding find insert_before_later
insert_before_later-IsUnique t [] h u = (refl, tt)
insert_before_later-IsUnique t (p ∷ ps) h u =
    ground (arith, insert_before_later-IsUnique t ps, find-insert_before_later p.ticket_no t ps)

append_one-IsUnique :
    (t : MlTimer) (ps : List MlTimer)
    → find t.ticket_no ps ≡ none
    → IsUnique ps
    → IsUnique (ps ++ t ∷ [])
unfolding find
append_one-IsUnique t [] h u = (refl, tt)
append_one-IsUnique t (p ∷ ps) h u =
    ground (arith, append_one-IsUnique t ps, find-append_one p.ticket_no t ps)

pub schedule_list-IsUnique :
    (t : MlTimer) (ps : List MlTimer)
    → find t.ticket_no ps ≡ none
    → IsUnique ps
    → IsUnique (schedule_list t ps)
unfolding schedule_list
schedule_list-IsUnique t [] h u = (unfold find in refl, tt)
schedule_list-IsUnique t (p ∷ ps) h u =
    ground (arith, insert_before_later-IsUnique t (p ∷ ps) h u, append_one-IsUnique t (p ∷ ps) h u)

insert_before_later-Issued :
    (n : ℕ) (t : MlTimer) (ps : List MlTimer)
    → (0 < t.ticket_no) × (t.ticket_no ≤ n)
    → Issued n ps
    → Issued n (insert_before_later t ps)
unfolding insert_before_later
insert_before_later-Issued n t [] h v = (h, tt)
insert_before_later-Issued n t (p ∷ ps) h v = ground (arith, insert_before_later-Issued n t ps)

append_one-Issued :
    (n : ℕ) (t : MlTimer) (ps : List MlTimer)
    → (0 < t.ticket_no) × (t.ticket_no ≤ n)
    → Issued n ps
    → Issued n (ps ++ t ∷ [])
append_one-Issued n t [] h v = (h, tt)
append_one-Issued n t (p ∷ ps) h v = (v.0, append_one-Issued n t ps h v.1)

pub schedule_list-Issued :
    (n : ℕ) (t : MlTimer) (ps : List MlTimer)
    → (0 < t.ticket_no) × (t.ticket_no ≤ n)
    → Issued n ps
    → Issued n (schedule_list t ps)
unfolding schedule_list
schedule_list-Issued n t [] h v = (h, tt)
schedule_list-Issued n t (p ∷ ps) h v =
    ground (arith, insert_before_later-Issued n t (p ∷ ps) h v, append_one-Issued n t (p ∷ ps) h v)

pub Issued-suc : (n : ℕ) (ps : List MlTimer) → Issued n ps → Issued (suc n) ps
Issued-suc n [] v = tt
Issued-suc n (p ∷ ps) v = ((omega arith, omega arith), Issued-suc n ps v.1)

-- A number that was not issued belongs to no timer.
pub find_unissued : (n k : ℕ) (ps : List MlTimer) → n < k → Issued n ps → find k ps ≡ none
unfolding find
find_unissued n k [] h v = refl
find_unissued n k (p ∷ ps) h v = ground (arith, find_unissued n k ps)

pub find_zero : (n : ℕ) (ps : List MlTimer) → Issued n ps → find 0 ps ≡ none
unfolding find
find_zero n [] v = refl
find_zero n (p ∷ ps) v = ground (arith, find_zero n ps v.1)

pub take_out-none : (k : ℕ) (ps : List MlTimer) → take_out k ps ≡ none → find k ps ≡ none
unfolding take_out find
take_out-none k [] h = refl
take_out-none k (p ∷ ps) h = ground (arith, take_out-none k ps)

module _ (k : ℕ) where
  pub take_out-find :
      (ps : List MlTimer) {t : MlTimer} {rest : List MlTimer}
      → take_out k ps ≡ some (t, rest)
      → (find k ps ≡ some t) × (t.ticket_no ≡ k)
  unfolding take_out find
  take_out-find [] e = absurd (ground arith)
  take_out-find (p ∷ ps) {t} {rest} e = elim (Option-cases (take_out k ps)) [
    | inl n ↦ ground arith
    | inr ((u, us), f) ↦ ground (arith, take_out-find ps f)
  ]

  -- Taking a timer out leaves the timers of all other tickets.
  pub find_rest :
      (j : ℕ) (ps : List MlTimer) {t : MlTimer} {rest : List MlTimer}
      → IsUnique ps
      → take_out k ps ≡ some (t, rest)
      → find j rest ≡ (if k == j then none else find j ps)
  unfolding take_out find
  find_rest j [] v e = absurd (ground arith)
  find_rest j (p ∷ ps) {t} {rest} v e = elim (Option-cases (take_out k ps)) [
    | inl n ↦ ground arith
    | inr ((u, us), f) ↦ ground (arith, find_rest j ps v.1 f)
  ]

  pub rest-IsUnique :
      (ps : List MlTimer) {t : MlTimer} {rest : List MlTimer}
      → IsUnique ps
      → take_out k ps ≡ some (t, rest)
      → IsUnique rest
  unfolding take_out find
  rest-IsUnique [] v e = absurd (ground arith)
  rest-IsUnique (p ∷ ps) {t} {rest} v e = elim (Option-cases (take_out k ps)) [
    | inl n ↦ ground arith
    | inr ((u, us), f) ↦ ground (arith, rest-IsUnique ps v.1 f, find_rest p.ticket_no ps v.1 f)
  ]

  pub rest-Issued :
      (n : ℕ) (ps : List MlTimer) {t : MlTimer} {rest : List MlTimer}
      → Issued n ps
      → take_out k ps ≡ some (t, rest)
      → Issued n rest × (0 < t.ticket_no) × (t.ticket_no ≤ n)
  unfolding take_out
  rest-Issued n [] v e = absurd (ground arith)
  rest-Issued n (p ∷ ps) {t} {rest} v e = elim (Option-cases (take_out k ps)) [
    | inl m ↦ ground arith
    | inr ((u, us), f) ↦ ground (arith, rest-Issued n ps v.1 f)
  ]
