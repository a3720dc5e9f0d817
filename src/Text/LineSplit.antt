-- ===== src/Text/LineSplit.antt =====
-- What nextLine and nextPart read, on every text (utils.cpp).
use p44utils.Prelude.{
  ◌∙◌, ◌||◌, ◌&&◌, ◌==◌, ap, some, length, length-append, ◌≤◌, ℕ, ◌≡◌, ◌≢◌, inl, inr, refl, Bool,
  true, false, List, [], ◌∷◌, ◌++◌, All, ==_iff, arith, Bool-cases, if_split,
}
use p44utils.Text.Chars.{is_eol, break_at}
use p44utils.Text.Lines.{next_line, next_part, skip_separator, skip_eol}

abbrev pub StopsAt : (ℕ → Bool) → List ℕ → Type 0
StopsAt stops [] = Unit {0}
StopsAt stops (c ∷ s) = stops c ≡ true

abbrev pub Without : (ℕ → Bool) → List ℕ → Type 0
Without stops = All (λ (c : ℕ). stops c ≡ false)

-- The text in two parts: no character of the first one stops, and the second starts with one that does.
abbrev Broken : (ℕ → Bool) → List ℕ → List ℕ × List ℕ → Type 0
Broken stops s (before, rest) = (s ≡ before ++ rest) × Without stops before × StopsAt stops rest

break_at-Broken : (stops : ℕ → Bool) (s : List ℕ) → Broken stops s (break_at stops s)
unfolding break_at
break_at-Broken stops [] = (refl, tt, tt)
break_at-Broken stops (c ∷ s) =
    let (e, w, at) = break_at-Broken stops s in
    if_split (Broken stops (c ∷ s)) (stops c) (λ h. (refl, tt, h)) λ h. (ap (◌∷◌ c) e, (h, w), at)

-- A line end at the start of a text, with what is behind it; only the last line has none.
pub data LineEnd : Type 0 where
  missing lf cr cr_lf : LineEnd

abbrev pub end_text : LineEnd → List ℕ
end_text missing = []
end_text lf = b'\n' ∷ []
end_text cr = b'\r' ∷ []
end_text cr_lf = b'\r' ∷ b'\n' ∷ []

-- Without a line end nothing is left, and a CR before an LF belongs to it.
abbrev pub MayEnd : LineEnd → List ℕ → Type 0
MayEnd missing rest = rest ≡ []
MayEnd lf rest = Unit {0}
MayEnd cr [] = Unit {0}
MayEnd cr (c ∷ rest) = c ≢ b'\n'
MayEnd cr_lf rest = Unit {0}

-- Whether a line end, and which, stands at the start.
skip_eol-LineEnd :
    (s : List ℕ)
    → StopsAt is_eol s
    → (e : LineEnd) × (s ≡ end_text e ++ skip_eol s) × MayEnd e (skip_eol s)
unfolding skip_eol
skip_eol-LineEnd [] h = (missing, refl, refl)
skip_eol-LineEnd (c ∷ []) h = elim (Bool-cases (c == b'\n')) [
  | inl n ↦ (lf, ap (λ (x : ℕ). x ∷ []) ((==_iff c b'\n').0 n), tt)
  | inr n ↦ let same : c ≡ b'\r' = ground arith in (cr, ap (λ (x : ℕ). x ∷ []) same, tt)
]
skip_eol-LineEnd (c ∷ d ∷ s) h = elim (Bool-cases (c == b'\n')) [
  | inl n ↦ let same : c ≡ b'\n' = ground arith in (lf, ground arith, tt)
  | inr n ↦
      let same : c ≡ b'\r' = ground arith in
      elim (Bool-cases (d == b'\n')) [
        | inl m ↦ (cr_lf, ground arith, tt)
        | inr m ↦ (cr, ground arith, ground arith)
      ]
]

shorter :
    (c : ℕ) (s line rest : List ℕ) (e : LineEnd)
    → c ∷ s ≡ line ++ (end_text e ++ rest)
    → MayEnd e rest
    → length rest ≤ length s
shorter c s line rest missing q m = omega (arith, ap length m)
shorter c s line rest lf q m = omega (arith, ap length q, length-append line (end_text lf ++ rest))
shorter c s line rest cr q m = omega (arith, ap length q, length-append line (end_text cr ++ rest))
shorter c s line rest cr_lf q m =
    omega (arith, ap length q, length-append line (end_text cr_lf ++ rest))

-- On a text that is not empty nextLine splits off a line: it has no line end in it, a line end
-- (LF, CR or CR LF) or the end of the text follows it, and the text that is left is what comes
-- behind, shorter than before; an LF behind a CR is not left over.
pub next_line_lem :
    (c : ℕ) (s : List ℕ)
    → (line : List ℕ) × (e : LineEnd) × (rest : List ℕ) × (next_line (c ∷ s) ≡ some (line, rest))
      × (c ∷ s ≡ line ++ (end_text e ++ rest))
      × Without is_eol line
      × MayEnd e rest
      × (length rest ≤ length s)
unfolding next_line
next_line_lem c s =
    let (q, w, at) = break_at-Broken is_eol (c ∷ s) in
    let line = (break_at is_eol (c ∷ s)).0 in
    let (e, q', m) = skip_eol-LineEnd (break_at is_eol (c ∷ s)).1 at in
    let whole = q ∙ ap (λ (l : List ℕ). line ++ l) q' in
    (line, e, _, refl, whole, w, m, shorter c s line _ e whole m)

-- On a text that is not empty nextPart splits off the part up to the first separator or, if asked
-- for, line end; the separator is skipped, the line end is not.
pub next_part_lem :
    (sep c : ℕ) (stop_at_eol : Bool) (s : List ℕ)
    → let stops = λ (d : ℕ). d == sep || (stop_at_eol && is_eol d) in
      (part : List ℕ) × (rest : List ℕ) × (next_part sep stop_at_eol (c ∷ s)
        ≡ some (part, skip_separator sep rest))
      × (c ∷ s ≡ part ++ rest)
      × Without stops part
      × StopsAt stops rest
unfolding next_part
next_part_lem sep c stop_at_eol s =
    let stops = λ (d : ℕ). d == sep || (stop_at_eol && is_eol d) in
    let (q, w, at) = break_at-Broken stops (c ∷ s) in
    ((break_at stops (c ∷ s)).0, (break_at stops (c ∷ s)).1, refl, q, w, at)
