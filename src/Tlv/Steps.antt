-- ===== src/Tlv/Steps.antt =====
-- The reading functions where the element that they look for stands (tlv.cpp): on the innermost
-- reader, at any depth.
use p44utils.Prelude.{
  All, ℕ, ◌+◌, ◌^◌, ◌≤◌, ◌<◌, ◌≡◌, refl, ap, ◌∙◌, true, some, List, [], ◌==◌, length, arith, not,
  ◌&&◌,
}
use p44utils.Tlv.Tags.{
  tlv_unsigned, tlv_signed, tlv_string, tlv_blob, tlv_id_unsigned, tlv_id_string, IsU64, IsByte,
  big_endian,
}
use p44utils.Tlv.Writer.{unsigned_data, signed_data}
use p44utils.Tlv.Ints.{unsigned_data-IsShortest}
use p44utils.Tlv.SignedInts.{signed_data-IsWhole}
use p44utils.Tlv.Reader.{
  Cursor, Reader, leaf, nested, set_current_pos, next_tag, get_int_bytes, get_tl, get_tlv_string,
  close_container,
}
use p44utils.Tlv.Read.{
  own, innermost, data_tag_loop, next_data_tag, read_unsigned, read_signed, read_string, read_blob,
  next_tag_text, next_tag_number,
}
use p44utils.Tlv.Reading.{
  Element, header, next_tag_lem, get_tl_here_lem, substr_lem, get_int_bytes_lem, contents_stand,
}

-- A new reader inside the innermost one.
abbrev pub push : Cursor → Reader → Reader
push inner (leaf c) = nested c (leaf inner)
push inner (nested c r) = nested c (push inner r)

pub set_current_pos-push :
    (pos : ℕ) (inner : Cursor) (r : Reader)
    → set_current_pos pos (push inner r) ≡ push (record inner { pos = pos }) r
unfolding set_current_pos
set_current_pos-push pos inner (leaf c) = refl
set_current_pos-push pos inner (nested c r) = ap (nested c) (set_current_pos-push pos inner r)

-- close_container takes away the innermost reader, and leaves the others as they are.
pub close_container-push :
    (inner : Cursor) (r : Reader) → close_container (push inner r) ≡ (true, r)
unfolding close_container
close_container-push inner (leaf c) = refl
close_container-push inner (nested c r) = ground (arith, close_container-push inner r)

-- The innermost reader does not look behind the end of the outermost one.
abbrev pub IsInside : Reader → Type 0
IsInside r = (innermost r).end_pos ≤ (own r).end_pos

pub own-set_current_pos :
    (pos : ℕ) (r : Reader) → (own (set_current_pos pos r)).end_pos ≡ (own r).end_pos
unfolding set_current_pos
own-set_current_pos pos (leaf c) = refl
own-set_current_pos pos (nested c r) = refl

pub innermost-set_current_pos :
    (pos : ℕ) (r : Reader) → innermost (set_current_pos pos r) ≡ record (innermost r) { pos = pos }
unfolding set_current_pos
innermost-set_current_pos pos (leaf c) = refl
innermost-set_current_pos pos (nested c r) = innermost-set_current_pos pos r

module _ (tlv : List ℕ) where
  pub next_tag-innermost : (r : Reader) → next_tag tlv r ≡ next_tag tlv (leaf (innermost r))
  unfolding next_tag
  next_tag-innermost (leaf c) = refl
  next_tag-innermost (nested c r) = next_tag-innermost r

  -- The reader behind an element.
  abbrev pub after : List ℕ → Reader → Reader
  after contents r = set_current_pos ((innermost r).pos + header contents + length contents) r

  pub get_tl_lem :
      (tag : ℕ) (contents : List ℕ) (r : Reader)
      → Element tlv (innermost r) tag contents
      → get_tl tlv r
        ≡ ((true, (innermost r).pos + header contents, length contents), after contents r)
  unfolding get_tl set_current_pos
  get_tl_lem tag contents (leaf c) el = ground (arith, get_tl_here_lem tlv c tag contents el)
  get_tl_lem tag contents (nested c r) el = ground (arith, get_tl_lem tag contents r el)

  module _ (tag : ℕ) (contents : List ℕ) (r : Reader)
      (el : Element tlv (innermost r) tag contents) where
    pub tag_here : next_tag tlv r ≡ tag
    tag_here = next_tag-innermost r ∙ next_tag_lem tlv (innermost r) tag contents el

    pub get_tlv_string_lem : get_tlv_string tlv r ≡ (some contents, after contents r)
    unfolding get_tlv_string
    get_tlv_string_lem =
        rw (get_tl_lem tag contents r el, substr_lem tlv (innermost r) tag contents el) refl

    -- nextDataTag stops at an element that is no ID.
    pub next_data_tag_lem :
        (not (tag == tlv_id_string) && not (tag == tlv_id_unsigned)) ≡ true
        → next_data_tag tlv r ≡ (tag, r)
    unfolding next_data_tag data_tag_loop
    next_data_tag_lem h = rw (tag_here, h) refl

    -- The number that stands in the contents.
    number_here :
        (extend_to : ℕ)
        → IsInside r
        → All IsByte contents
        → IsU64 (big_endian contents)
        → extend_to ≤ length contents
        → get_int_bytes tlv
            (own (after contents r)).end_pos
            ((innermost r).pos + header contents)
            (length contents)
            extend_to
          ≡ big_endian contents
    number_here extend_to i b u x =
        rw (own-set_current_pos ((innermost r).pos + header contents + length contents) r) (
          get_int_bytes_lem tlv (own r).end_pos ((innermost r).pos + header contents) extend_to
            contents (contents_stand tlv (innermost r) tag contents el) b
            (omega (arith, el.within, i)) x u)

  -- read_unsigned answers the number that put_unsigned has put down, and goes behind it.
  pub read_unsigned_lem :
      (v : ℕ) (r : Reader)
      → IsU64 v
      → IsInside r
      → Element tlv (innermost r) tlv_unsigned (unsigned_data v)
      → read_unsigned tlv 8 r ≡ (some v, after (unsigned_data v) r)
  unfolding read_unsigned
  read_unsigned_lem v r h i el =
      let shape = unsigned_data-IsShortest v h in
      rw
        (
          next_data_tag_lem tlv_unsigned (unsigned_data v) r el refl,
          get_tl_lem tlv_unsigned (unsigned_data v) r el,
          number_here tlv_unsigned (unsigned_data v) r el 0 i shape.are_bytes
              (rw shape.stands_for h) (omega arith),
          shape.stands_for,
        )
        (ground arith)

  -- read_signed<int64_t> answers the bit pattern of the number that put_signed has put down.
  pub read_signed_lem :
      (v : ℕ) (r : Reader)
      → IsU64 v
      → IsInside r
      → Element tlv (innermost r) tlv_signed (signed_data v)
      → read_signed tlv 8 r ≡ (some v, after (signed_data v) r)
  unfolding read_signed
  read_signed_lem v r h i el =
      let (value, bytes, eight) = signed_data-IsWhole v h in
      rw
        (
          next_data_tag_lem tlv_signed (signed_data v) r el refl,
          get_tl_lem tlv_signed (signed_data v) r el,
          number_here tlv_signed (signed_data v) r el 8 i bytes (rw value h) (omega arith),
          value,
        )
        (ground arith)

  pub read_string_lem :
      (s : List ℕ) (r : Reader)
      → Element tlv (innermost r) tlv_string s
      → read_string tlv r ≡ (some s, after s r)
  unfolding read_string
  read_string_lem s r el =
      rw (next_data_tag_lem tlv_string s r el refl) (get_tlv_string_lem tlv_string s r el)

  pub read_blob_lem :
      (s : List ℕ) (r : Reader)
      → Element tlv (innermost r) tlv_blob s
      → read_blob tlv r ≡ (some s, after s r)
  unfolding read_blob
  read_blob_lem s r el =
      rw (next_data_tag_lem tlv_blob s r el refl) (get_tlv_string_lem tlv_blob s r el)

  -- nextTag with a string answers the ID that stands, and goes behind it.
  pub next_tag_text_lem :
      (s : List ℕ) (r : Reader)
      → Element tlv (innermost r) tlv_id_string s
      → next_tag_text tlv [] r ≡ (next_tag tlv (after s r), s, after s r)
  unfolding next_tag_text
  next_tag_text_lem s r el =
      rw (tag_here tlv_id_string s r el, get_tlv_string_lem tlv_id_string s r el) refl

  pub next_tag_number_lem :
      (id v : ℕ) (r : Reader)
      → v < 2 ^ 32
      → IsInside r
      → Element tlv (innermost r) tlv_id_unsigned (unsigned_data v)
      → next_tag_number tlv id r
        ≡ (next_tag tlv (after (unsigned_data v) r), v, after (unsigned_data v) r)
  unfolding next_tag_number
  next_tag_number_lem id v r h i el =
      let shape = unsigned_data-IsShortest v (omega arith) in
      rw
        (
          tag_here tlv_id_unsigned (unsigned_data v) r el,
          get_tl_lem tlv_id_unsigned (unsigned_data v) r el,
          number_here tlv_id_unsigned (unsigned_data v) r el 0 i shape.are_bytes
              (rw shape.stands_for (omega arith)) (omega arith),
          shape.stands_for,
        )
        (ground arith)
