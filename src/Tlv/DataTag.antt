-- ===== src/Tlv/DataTag.antt =====
-- nextDataTag and its rounds (tlv.cpp).
use p44utils.Prelude.{
  ◌≢◌, not, ◌&&◌, sym, Bool, true, false, refl, ℕ, zero, suc, ◌-◌, ◌<◌, ◌≡◌, inl, inr, List, arith,
  ◌==◌, Bool-cases,
}
use p44utils.Tlv.Tags.{tlv_id_string, tlv_id_unsigned}
use p44utils.Tlv.Reader.{Reader, leaf, nested, next_tag, skip, get_tl, get_tl_here}
use p44utils.Tlv.Read.{innermost, data_tag_loop, next_data_tag}

-- The bytes that are left to the innermost reader.
abbrev pub left : Reader → ℕ
left r = (innermost r).end_pos - (innermost r).pos

abbrev is_data : ℕ → Bool
is_data tag = not (tag == tlv_id_string) && not (tag == tlv_id_unsigned)

data_no_id : (tag : ℕ) → is_data tag ≡ true → (tag ≢ tlv_id_string) × (tag ≢ tlv_id_unsigned)
data_no_id tag h = (λ e. ground arith, λ e. ground arith)

module _ (tlv : List ℕ) where
  get_tl-left : (r : Reader) → 0 < left r → left (get_tl tlv r).1 < left r
  unfolding get_tl get_tl_here
  get_tl-left (leaf c) h = ground arith
  get_tl-left (nested c r) h = get_tl-left r h

  pub skip-left : (r : Reader) → 0 < left r → left (skip tlv r).1 < left r
  unfolding skip
  skip-left r h = get_tl-left r h

  id_left : (r : Reader) → is_data (next_tag tlv r) ≡ false → 0 < left r
  unfolding next_tag
  id_left (leaf c) h = ground arith
  id_left (nested c r) h = id_left r h

  abbrev Stops : ℕ × Reader → Type 0
  Stops (tag, r) = (tag ≡ next_tag tlv r) × (tag ≢ tlv_id_string) × (tag ≢ tlv_id_unsigned)

  data_tag_loop-Stops :
      (f g : ℕ) (r : Reader)
      → left r < f
      → left r < g
      → (data_tag_loop tlv f r ≡ data_tag_loop tlv g r) × Stops (data_tag_loop tlv f r)
  unfolding data_tag_loop
  data_tag_loop-Stops zero g r h k = absurd (omega arith)
  data_tag_loop-Stops (suc f) zero r h k = absurd (omega arith)
  data_tag_loop-Stops (suc f) (suc g) r h k = elim (Bool-cases (is_data (next_tag tlv r))) [
    | inl p ↦ let no = data_no_id (next_tag tlv r) p in rw p (refl, (refl, no.0, no.1))
    | inr p ↦
        let next = skip-left r (id_left r p) in
        rw p (data_tag_loop-Stops f g (skip tlv r).1 (omega arith) (omega arith))
  ]

  -- nextDataTag ends: as many rounds as bytes are left to the innermost reader, and one, are
  -- enough, and more change nothing. It answers the tag at the position where it leaves the
  -- reader, and that is no ID's, whatever the bytes are.
  pub next_data_tag_stops :
      (fuel : ℕ) (r : Reader)
      → (innermost r).end_pos - (innermost r).pos < fuel
      → let (tag, r') = next_data_tag tlv r in
        (data_tag_loop tlv fuel r ≡ next_data_tag tlv r)
        × (tag ≡ next_tag tlv r')
        × (tag ≢ tlv_id_string)
        × (tag ≢ tlv_id_unsigned)
  unfolding next_data_tag
  next_data_tag_stops fuel r h =
      let (same, stops) = data_tag_loop-Stops (suc (left r)) fuel r (omega arith) h in
      (sym same, stops.0, stops.1, stops.2)
