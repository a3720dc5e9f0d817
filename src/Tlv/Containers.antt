-- ===== src/Tlv/Containers.antt =====
-- Opening a container where its element stands: the new reader has exactly the contents (tlv.cpp).
use p44utils.Prelude.{
  ℕ, ◌+◌, ◌≤◌, ◌≡◌, refl, ap, ◌∙◌, true, some, List, ◌++◌, length, arith, append_assoc,
  length-append,
}
use p44utils.Tlv.Tags.{tlv_container, tlv_counted_container, tlv_unsigned, IsU64}
use p44utils.Tlv.Writer.{unsigned_data}
use p44utils.Tlv.Element.{IsTag, element}
use p44utils.Tlv.Document.{Fits, count_element}
use p44utils.Tlv.WriteRefines.{unsigned_data-Fits}
use p44utils.Tlv.Reader.{Cursor, Reader, leaf, nested, cursor_on, set_current_pos}
use p44utils.Tlv.Read.{
  innermost, open_container_here, open_container, open_counted_here, open_counted_container,
  beneath, count_beneath,
}
use p44utils.Tlv.Reading.{Element, Stands, header, contents_stand}
use p44utils.Tlv.Steps.{push, after, get_tl_lem, next_data_tag_lem, read_unsigned_lem}

pub length-element :
    (tag : ℕ) (contents : List ℕ)
    → length (element tag contents) ≡ header contents + length contents
unfolding element
length-element tag contents =
    omega (arith, length-append (unsigned_data (length contents)) contents)

-- The first of the elements that stand at the reader's position.
pub first_element :
    (tlv : List ℕ) (c : Cursor) (tag : ℕ) (contents more : List ℕ)
    → IsTag tag
    → Fits contents
    → Stands tlv c.pos (element tag contents ++ more)
    → c.pos + length (element tag contents ++ more) ≤ c.end_pos
    → Element tlv c tag contents
first_element tlv c tag contents more t f (rest, e) w = record {
  is_tag = t;
  fits = f;
  stands = (more ++ rest, e ∙ append_assoc (element tag contents) more rest);
  within = omega (arith, length-append (element tag contents) more, length-element tag contents, w);
}

-- The window of a container's reader.
abbrev pub window : ℕ → List ℕ → Cursor
window pos contents = cursor_on (pos + header contents) (pos + header contents + length contents)

module _ (tlv : List ℕ) where
  pub open_container_lem :
      (contents : List ℕ) (r : Reader)
      → Element tlv (innermost r) tlv_container contents
      → open_container tlv r
        ≡ (true, push (window (innermost r).pos contents) (after tlv contents r))
  unfolding open_container open_container_here set_current_pos
  open_container_lem contents (leaf c) el =
      rw
        (
          next_data_tag_lem tlv tlv_container contents (leaf c) el refl,
          get_tl_lem tlv tlv_container contents (leaf c) el,
        )
        refl
  open_container_lem contents (nested c r) el =
      ap (beneath tlv c) (open_container_lem contents r el)

  abbrev pub behind_count : ℕ → ℕ → List ℕ → Cursor
  behind_count pos n rest =
      let contents = count_element n ++ rest in
      let inner = window pos contents in
      record inner { pos = pos + header contents + length (count_element n) }

  count_stands :
      (c : Cursor) (n : ℕ) (rest : List ℕ)
      → IsU64 n
      → Element tlv c tlv_counted_container (count_element n ++ rest)
      → Element tlv (window c.pos (count_element n ++ rest)) tlv_unsigned (unsigned_data n)
  unfolding cursor_on
  count_stands c n rest h el =
      first_element tlv (window c.pos (count_element n ++ rest)) tlv_unsigned (unsigned_data n) rest
        (omega arith) (unsigned_data-Fits n h)
        (contents_stand tlv c tlv_counted_container (count_element n ++ rest) el) (omega arith)

  -- A counted container answers its count, and its reader stands behind it.
  pub open_counted_container_lem :
      (n : ℕ) (rest : List ℕ) (r : Reader)
      → IsU64 n
      → Element tlv (innermost r) tlv_counted_container (count_element n ++ rest)
      → open_counted_container tlv r ≡ (
        some n,
        push (behind_count (innermost r).pos n rest) (after tlv (count_element n ++ rest) r),
      )
  unfolding open_counted_container open_counted_here set_current_pos
  open_counted_container_lem n rest (leaf c) h el =
      let contents = count_element n ++ rest in
      let inner = window c.pos contents in
      let number = count_stands c n rest h el in
      let step : inner.pos + header (unsigned_data n) + length (unsigned_data n)
          ≡ c.pos + header contents + length (count_element n) =
        unfold cursor_on in omega (arith, length-element tlv_unsigned (unsigned_data n)) in
      ground (
        arith,
        next_data_tag_lem tlv tlv_counted_container contents (leaf c) el refl,
        get_tl_lem tlv tlv_counted_container contents (leaf c) el,
        read_unsigned_lem tlv n (leaf inner) h (omega arith) number,
        step,
      )
  open_counted_container_lem n rest (nested c r) h el =
      ap (count_beneath tlv c) (open_counted_container_lem n rest r h el)
