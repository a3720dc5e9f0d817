-- ===== src/Tlv/Read.antt =====
-- The reading functions of class TLVReader (tlv.cpp, tlv.hpp), over the steps of Tlv/Reader.
-- A function that fills an argument answers it in an Option; the reader is the last part of each
-- answer.
use p44utils.Prelude.{
  ℕ, zero, suc, ◌+◌, ◌-◌, ◌*◌, ◌%◌, ◌^◌, Bool, true, false, not, ◌&&◌, ◌||◌, Option, none, some,
  List, [], ◌∷◌, ltb, ◌==◌, if◌then◌else◌,
}
use p44utils.Tlv.Tags.{
  tlv_any, tlv_invalid, tlv_unsigned, tlv_signed, tlv_string, tlv_blob, tlv_id_unsigned,
  tlv_id_string, tlv_container, tlv_counted_container,
}
use p44utils.Tlv.Reader.{
  Cursor, Reader, leaf, nested, cursor_on, current_pos, set_current_pos, next_tag, eot,
  get_int_bytes, get_tl, get_tlv_string, skip, substr,
}

-- The cursor of the reader itself, whatever is nested in it: get_int_bytes and memcpy use it.
abbrev pub own : Reader → Cursor
own (leaf c) = c
own (nested c r) = c

-- The innermost cursor.
abbrev pub innermost : Reader → Cursor
innermost (leaf c) = c
innermost (nested c r) = innermost r

unfoldable pub bytes_eq : List ℕ → List ℕ → Bool
bytes_eq [] [] = true
bytes_eq [] (b ∷ bs) = false
bytes_eq (a ∷ as') [] = false
bytes_eq (a ∷ as') (b ∷ bs) = a == b && bytes_eq as' bs

abbrev pub or_keep : Option (List ℕ) → List ℕ → List ℕ
or_keep none id = id
or_keep (some s) id = s

module _ (tlv : List ℕ) where
  -- nextTag(string &aId): the tag, and aId.
  unfoldable pub next_tag_text : List ℕ → Reader → ℕ × List ℕ × Reader
  next_tag_text id r =
      if next_tag tlv r == tlv_id_string
      then (let (s, r') = get_tlv_string tlv r in (next_tag tlv r', or_keep s id, r'))
      else (next_tag tlv r, id, r)

  -- nextTag(uint32_t &aId)
  unfoldable pub next_tag_number : ℕ → Reader → ℕ × ℕ × Reader
  next_tag_number id r =
      if next_tag tlv r == tlv_id_unsigned
      then (let ((done, start, size), r') = get_tl tlv r in
          if done
          then (next_tag tlv r', get_int_bytes tlv (own r').end_pos start size 0 % 2 ^ 32, r')
          else (tlv_invalid, id, r'))
      else (next_tag tlv r, id, r)

  -- nextDataTag, on fuel: each round that goes on has moved the position.
  unfoldable pub data_tag_loop : ℕ → Reader → ℕ × Reader
  data_tag_loop zero r = (tlv_invalid, r)
  data_tag_loop (suc f) r =
      let tag = next_tag tlv r in
      let rest = data_tag_loop f (skip tlv r).1 in
      if not (tag == tlv_id_string) && not (tag == tlv_id_unsigned) then (tag, r) else rest

  unfoldable pub next_data_tag : Reader → ℕ × Reader
  next_data_tag r = data_tag_loop (suc ((innermost r).end_pos - (innermost r).pos)) r

  abbrev pub tag_fits : ℕ → ℕ → Bool
  tag_fits wanted tag = wanted == tlv_any || tag == wanted

  -- nextIs(TLVTag, const string)
  unfoldable pub next_is_text : ℕ → List ℕ → Reader → Bool × Reader
  next_is_text wanted id r =
      let (tag, found, r') = next_tag_text [] r in
      if tag_fits wanted tag && bytes_eq found id
      then (true, r')
      else (false, set_current_pos (current_pos r) r')

  -- nextIs(TLVTag, uint32_t): the variable that is compared with the ID is not initialised, its
  -- value is the first argument.
  unfoldable pub next_is_number : ℕ → ℕ → ℕ → Reader → Bool × Reader
  next_is_number garbage wanted id r =
      let (tag, found, r') = next_tag_number garbage r in
      if tag_fits wanted tag && found == id
      then (true, r')
      else (false, set_current_pos (current_pos r) r')

  -- read_unsigned<T>, for an unsigned T of so many bytes.
  unfoldable pub read_unsigned : ℕ → Reader → Option ℕ × Reader
  read_unsigned size_of r =
      let (tag, r1) = next_data_tag r in
      if tag == tlv_unsigned
      then (let ((done, start, size), r2) = get_tl tlv r1 in
          if done
          then (some (get_int_bytes tlv (own r2).end_pos start size 0 % 2 ^ (8 * size_of)), r2)
          else (none, r2))
      else (none, r1)

  -- read_signed<T>, for a signed T of so many bytes: its bit pattern.
  unfoldable pub read_signed : ℕ → Reader → Option ℕ × Reader
  read_signed size_of r =
      let (tag, r1) = next_data_tag r in
      if tag == tlv_signed
      then (let ((done, start, size), r2) = get_tl tlv r1 in
          if done
          then (
            some (get_int_bytes tlv (own r2).end_pos start size size_of % 2 ^ (8 * size_of)),
            r2,
          )
          else (none, r2))
      else (none, r1)

  unfoldable pub read_string : Reader → Option (List ℕ) × Reader
  read_string r =
      let (tag, r1) = next_data_tag r in
      if tag == tlv_string then get_tlv_string tlv r1 else (none, r1)

  unfoldable pub read_blob : Reader → Option (List ℕ) × Reader
  read_blob r =
      let (tag, r1) = next_data_tag r in
      if tag == tlv_blob then get_tlv_string tlv r1 else (none, r1)

  -- read_blob(void*, size_t): what is copied to the buffer, and the result.
  unfoldable pub read_blob_buffer : ℕ → Reader → Option (List ℕ) × Bool × Reader
  read_blob_buffer buf_size r =
      let (tag, r1) = next_data_tag r in
      if tag == tlv_blob
      then (let ((done, start, size), r2) = get_tl tlv r1 in
          if done
          then (
            some (substr tlv (own r2).pos (if ltb buf_size size then buf_size else size)),
            not (ltb buf_size size),
            r2,
          )
          else (none, false, r2))
      else (none, false, r1)

  abbrev pub beneath : Cursor → Bool × Reader → Bool × Reader
  beneath c (done, r) = (done, nested c r)

  -- open_container on the reader that has no other in it, and on any. The result of get_TL is not
  -- looked at.
  unfoldable pub open_container_here : Cursor → Bool × Reader
  open_container_here c =
      let (tag, r1) = next_data_tag (leaf c) in
      if tag == tlv_container
      then (let ((done, start, size), r2) = get_tl tlv r1 in
          (true, nested (own r2) (leaf (cursor_on start (start + size)))))
      else (false, r1)

  unfoldable pub open_container : Reader → Bool × Reader
  open_container (leaf c) = open_container_here c
  open_container (nested c r) = beneath c (open_container r)

  abbrev pub count_beneath : Cursor → Option ℕ × Reader → Option ℕ × Reader
  count_beneath c (n, r) = (n, nested c r)

  -- open_counted_container likewise; where the count cannot be read the new reader is deleted.
  unfoldable pub open_counted_here : Cursor → Option ℕ × Reader
  open_counted_here c =
      let (tag, r1) = next_data_tag (leaf c) in
      if tag == tlv_counted_container
      then (let ((done, start, size), r2) = get_tl tlv r1 in
          let (n, inner) = read_unsigned 8 (leaf (cursor_on start (start + size))) in
          elim n [ none ↦ (none, leaf (own r2)) | some k ↦ (some k, nested (own r2) inner) ])
      else (none, r1)

  unfoldable pub open_counted_container : Reader → Option ℕ × Reader
  open_counted_container (leaf c) = open_counted_here c
  open_counted_container (nested c r) = count_beneath c (open_counted_container r)

  -- seekNext<string>, on fuel: the answer, or none where the fuel ran out.
  unfoldable pub seek_next_text : ℕ → ℕ → List ℕ → Reader → Option (ℕ × Reader)
  seek_next_text zero wanted id r = none
  seek_next_text (suc f) wanted id r =
      let (found, r1) = next_is_text wanted id r in
      let more = seek_next_text f wanted id (skip tlv r1).1 in
      if eot tlv r
      then some (tlv_invalid, r)
      else if found
      then some (next_tag tlv r1, r1)
      else more
