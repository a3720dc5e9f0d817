-- ===== src/Tlv/NextIs.antt =====
-- nextIs, where the element is not the one asked for (tlv.cpp).
use p44utils.Prelude.{
  ℕ, ◌≡◌, refl, ap, sym, ◌∙◌, Bool, false, Option, List, [], arith, if_both, ◌==◌, ◌&&◌,
}
use p44utils.Tlv.Reader.{
  Cursor, Reader, leaf, nested, current_pos, set_current_pos, get_tl, get_tl_here, get_tlv_string,
  next_tag,
}
use p44utils.Tlv.Tags.{tlv_id_string, tlv_id_unsigned}
use p44utils.Tlv.Read.{
  innermost, next_tag_text, next_tag_number, next_is_text, next_is_number, tag_fits, bytes_eq,
}
use p44utils.Tlv.Ready.{set_current_pos_same, set_current_pos_twice}

module _ (tlv : List ℕ) where
  -- The second reader differs from the first in the position of the innermost one only.
  abbrev Moved : Reader → Reader → Type 0
  Moved r r' = (p : ℕ) × (r' ≡ set_current_pos p r)

  current_pos-innermost : (r : Reader) → current_pos r ≡ (innermost r).pos
  unfolding current_pos
  current_pos-innermost (leaf c) = refl
  current_pos-innermost (nested c r) = current_pos-innermost r

  Moved-here : (r : Reader) → Moved r r
  Moved-here r = ((innermost r).pos, sym (set_current_pos_same tlv _ r refl))

  Moved-back : (r r' : Reader) → Moved r r' → set_current_pos (current_pos r) r' ≡ r
  Moved-back r r' (p, e) =
      ap (set_current_pos (current_pos r)) e
      ∙ set_current_pos_twice tlv (current_pos r) p r
      ∙ set_current_pos_same tlv (current_pos r) r (current_pos-innermost r)

  get_tl_here-pos :
      (c : Cursor) → (get_tl_here tlv c).1 ≡ record c { pos = (get_tl_here tlv c).1.pos }
  unfolding get_tl_here
  get_tl_here-pos c = ground arith

  get_tl-Moved : (r : Reader) → Moved r (get_tl tlv r).1
  unfolding get_tl set_current_pos
  get_tl-Moved (leaf c) = ((get_tl_here tlv c).1.pos, ap leaf (get_tl_here-pos c))
  get_tl-Moved (nested c r) = let (p, e) = get_tl-Moved r in (p, ap (nested c) e)

  get_tlv_string-Moved : (r : Reader) → Moved r (get_tlv_string tlv r).1
  unfolding get_tlv_string
  get_tlv_string-Moved r =
      if_both (λ (s : Option (List ℕ) × Reader). Moved r s.1) (get_tl tlv r).0.0 (get_tl-Moved r)
        (get_tl-Moved r)

  next_tag_text-Moved : (id : List ℕ) (r : Reader) → Moved r (next_tag_text tlv id r).2
  unfolding next_tag_text
  next_tag_text-Moved id r =
      if_both (λ (s : ℕ × List ℕ × Reader). Moved r s.2) (next_tag tlv r == tlv_id_string)
        (get_tlv_string-Moved r) (Moved-here r)

  next_tag_number-Moved : (id : ℕ) (r : Reader) → Moved r (next_tag_number tlv id r).2
  unfolding next_tag_number
  next_tag_number-Moved id r =
      if_both (λ (s : ℕ × ℕ × Reader). Moved r s.2) (next_tag tlv r == tlv_id_unsigned)
        (if_both (λ (s : ℕ × ℕ × Reader). Moved r s.2) (get_tl tlv r).0.0 (get_tl-Moved r)
          (get_tl-Moved r))
        (Moved-here r)

  abbrev Unless : Reader → Bool × Reader → Type 0
  Unless r (found, r') = found ≡ false → r' ≡ r

  next_is_text-Unless :
      (wanted : ℕ) (id : List ℕ) (r : Reader) → Unless r (next_is_text tlv wanted id r)
  unfolding next_is_text
  next_is_text-Unless wanted id r =
      if_both (Unless r)
        (tag_fits tlv wanted (next_tag_text tlv [] r).0 && bytes_eq (next_tag_text tlv [] r).1 id)
        (λ h. absurd (ground arith))
        λ h. Moved-back r (next_tag_text tlv [] r).2 (next_tag_text-Moved [] r)

  next_is_number-Unless :
      (garbage wanted id : ℕ) (r : Reader) → Unless r (next_is_number tlv garbage wanted id r)
  unfolding next_is_number
  next_is_number-Unless garbage wanted id r =
      if_both (Unless r)
        (tag_fits tlv wanted (next_tag_number tlv garbage r).0
          && ((next_tag_number tlv garbage r).1 == id))
        (λ h. absurd (ground arith))
        λ h. Moved-back r (next_tag_number tlv garbage r).2 (next_tag_number-Moved garbage r)

  -- Where nextIs with a string as the ID answers false, the reader and all that is nested in it
  -- are as they were before, whatever the bytes are.
  pub next_is_text_unmoved :
      (wanted : ℕ) (id : List ℕ) (r : Reader)
      → (next_is_text tlv wanted id r).0 ≡ false
      → (next_is_text tlv wanted id r).1 ≡ r
  next_is_text_unmoved = next_is_text-Unless

  -- Where nextIs with a number as the ID answers false, the reader and all that is nested in it
  -- are as they were before, whatever the bytes are and whatever the variable holds that is not
  -- initialised.
  pub next_is_number_unmoved :
      (garbage wanted id : ℕ) (r : Reader)
      → (next_is_number tlv garbage wanted id r).0 ≡ false
      → (next_is_number tlv garbage wanted id r).1 ≡ r
  next_is_number_unmoved = next_is_number-Unless
