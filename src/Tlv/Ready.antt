-- ===== src/Tlv/Ready.antt =====
-- Where bytes stand at a reader, how it moves on over them, and into a container (tlv.cpp).
use p44utils.Prelude.{
  ℕ, ◌+◌, ◌≤◌, ◌≡◌, refl, ap, sym, ◌∙◌, List, [], ◌++◌, length, arith, append_assoc, append-nil,
  length-append,
}
use p44utils.Tlv.Element.{IsTag, element}
use p44utils.Tlv.Document.{Fits}
use p44utils.Tlv.Reader.{Cursor, Reader, leaf, nested, cursor_on, set_current_pos}
use p44utils.Tlv.Read.{own, innermost}
use p44utils.Tlv.Reading.{Element, Stands, behind, contents_stand}
use p44utils.Tlv.Steps.{
  push, IsInside, after, set_current_pos-push, own-set_current_pos, innermost-set_current_pos,
}
use p44utils.Tlv.Containers.{length-element, first_element, window}

module _ (tlv : List ℕ) where
  -- The bytes stand at the reader's position, within its end, which the outer readers reach.
  pub record Ready (bytes : List ℕ) (r : Reader) : Type 0 where
    pub inside : IsInside r
    pub stands : Stands tlv (innermost r).pos bytes
    pub within : (innermost r).pos + length bytes ≤ (innermost r).end_pos

  pub Ready-first : (front back : List ℕ) (r : Reader) → Ready (front ++ back) r → Ready front r
  Ready-first front back r v = record {
    inside = v.inside;
    stands = (back ++ v.stands.0, v.stands.1 ∙ append_assoc front back v.stands.0);
    within = omega (arith, v.within, length-append front back);
  }

  abbrev pub past : List ℕ → Reader → Reader
  past bytes r = set_current_pos ((innermost r).pos + length bytes) r

  pub past-element :
      (tag : ℕ) (contents : List ℕ) (r : Reader)
      → after tlv contents r ≡ past (element tag contents) r
  past-element tag contents r =
      ap (λ (p : ℕ). set_current_pos p r) (omega (arith, length-element tag contents))

  pub element-Ready :
      (tag : ℕ) (contents : List ℕ) (r : Reader)
      → IsTag tag
      → Fits contents
      → Ready (element tag contents) r
      → Element tlv (innermost r) tag contents
  element-Ready tag contents r t f v =
      first_element tlv (innermost r) tag contents [] t f
        (
          v.stands.0,
          v.stands.1
              ∙ ap (λ (l : List ℕ). l ++ v.stands.0) (sym (append-nil (element tag contents))),
        )
        (rw append-nil v.within)

  pub set_current_pos_twice :
      (p q : ℕ) (r : Reader) → set_current_pos p (set_current_pos q r) ≡ set_current_pos p r
  unfolding set_current_pos
  set_current_pos_twice p q (leaf c) = refl
  set_current_pos_twice p q (nested c r) = ap (nested c) (set_current_pos_twice p q r)

  pub set_current_pos_same : (p : ℕ) (r : Reader) → p ≡ (innermost r).pos → set_current_pos p r ≡ r
  unfolding set_current_pos
  set_current_pos_same p (leaf c) e = ground arith
  set_current_pos_same p (nested c r) e = ap (nested c) (set_current_pos_same p r e)

  pub past-past :
      (front back : List ℕ) (r : Reader) → past back (past front r) ≡ past (front ++ back) r
  past-past front back r =
      let here : (innermost (past front r)).pos ≡ (innermost r).pos + length front =
        ap (λ (c : Cursor). c.pos) (innermost-set_current_pos _ r) in
      set_current_pos_twice _ _ r
      ∙ ap (λ (p : ℕ). set_current_pos p r) (omega (arith, here, length-append front back))

  pub Ready-rest :
      (front back : List ℕ) (r : Reader) → Ready (front ++ back) r → Ready back (past front r)
  Ready-rest front back r v =
      let to = (innermost r).pos + length front in
      let at = innermost-set_current_pos to r in
      record {
        inside = rw (at, own-set_current_pos to r) v.inside;
        stands = rw at (
          v.stands.0,
          behind tlv (innermost r).pos (length front) to front (back ++ v.stands.0)
              (v.stands.1 ∙ append_assoc front back v.stands.0) refl refl,
        );
        within = rw at (omega (arith, v.within, length-append front back));
      }

  innermost-push : (inner : Cursor) (r : Reader) → innermost (push inner r) ≡ inner
  innermost-push inner (leaf c) = refl
  innermost-push inner (nested c r) = innermost-push inner r

  own-push : (inner : Cursor) (r : Reader) → own (push inner r) ≡ own r
  own-push inner (leaf c) = refl
  own-push inner (nested c r) = refl

  -- The contents of a container stand at the position of its reader.
  pub Ready-contents :
      (tag : ℕ) (contents : List ℕ) (r : Reader)
      → IsInside r
      → Element tlv (innermost r) tag contents
      → Ready contents (push (window (innermost r).pos contents) (after tlv contents r))
  unfolding cursor_on
  Ready-contents tag contents r i el =
      let w = window (innermost r).pos contents in
      let behind_it = after tlv contents r in
      record {
        inside =
            rw (innermost-push w behind_it, own-push w behind_it, own-set_current_pos _ r)
              (omega (arith, el.within, i));
        stands = rw (innermost-push w behind_it) (contents_stand tlv (innermost r) tag contents el);
        within = rw (innermost-push w behind_it) (omega arith);
      }

  pub past-push :
      (bytes : List ℕ) (inner : Cursor) (r : Reader)
      → past bytes (push inner r) ≡ push (record inner { pos = inner.pos + length bytes }) r
  past-push bytes inner r =
      ap (λ (c : Cursor). set_current_pos (c.pos + length bytes) (push inner r))
        (innermost-push inner r)
      ∙ set_current_pos-push (inner.pos + length bytes) inner r
