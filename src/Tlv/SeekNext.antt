-- ===== src/Tlv/SeekNext.antt =====
-- seekNext for a string as the ID (tlv.hpp).
use p44utils.Prelude.{
  ℕ, zero, suc, ◌-◌, ◌<◌, ◌≡◌, refl, true, false, some, List, arith, Bool-cases, inl, inr, ◌==◌,
}
use p44utils.Tlv.Tags.{tlv_invalid}
use p44utils.Tlv.Reader.{Reader, leaf, nested, next_tag, eot, skip}
use p44utils.Tlv.Read.{innermost, next_is_text, seek_next_text}
use p44utils.Tlv.DataTag.{left, skip-left}
use p44utils.Tlv.NextIs.{next_is_text_unmoved}

module _ (tlv : List ℕ) where
  tag_left : (r : Reader) → (next_tag tlv r == tlv_invalid) ≡ false → 0 < left r
  unfolding next_tag
  tag_left (leaf c) h = ground arith
  tag_left (nested c r) h = tag_left r h

  eot-left : (r : Reader) → eot tlv r ≡ false → 0 < left r
  unfolding eot
  eot-left r h = tag_left r h

  eot-next_tag : (r : Reader) → eot tlv r ≡ true → tlv_invalid ≡ next_tag tlv r
  unfolding eot
  eot-next_tag r h = ground arith

  -- seekNext for a string as the ID ends, whatever the bytes are: one round more than bytes are
  -- left to the innermost reader is enough. It answers the tag at the position where it leaves the
  -- reader.
  pub seek_next_text_ends :
      (fuel wanted : ℕ) (id : List ℕ) (r : Reader)
      → (innermost r).end_pos - (innermost r).pos < fuel
      → (tag : ℕ) × (r' : Reader) × (seek_next_text tlv fuel wanted id r ≡ some (tag, r'))
        × (tag ≡ next_tag tlv r')
  unfolding seek_next_text
  seek_next_text_ends zero wanted id r h = absurd (omega arith)
  seek_next_text_ends (suc f) wanted id r h = elim (Bool-cases (eot tlv r)) [
    | inl e ↦ (tlv_invalid, r, rw e refl, eot-next_tag r e)
    | inr e ↦ elim (Bool-cases (next_is_text tlv wanted id r).0) [
      | inl n ↦
          let r1 = (next_is_text tlv wanted id r).1 in (next_tag tlv r1, r1, rw (e, n) refl, refl)
      | inr n ↦
          let back = next_is_text_unmoved tlv wanted id r n in
          let fewer = skip-left tlv r (eot-left r e) in
          let (tag, r', q, t) = seek_next_text_ends f wanted id (skip tlv r).1 (omega arith) in
          (tag, r', rw (e, n, back) q, t)
    ]
  ]
