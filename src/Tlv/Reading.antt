-- ===== src/Tlv/Reading.antt =====
-- The basic steps of the reader on the bytes of an element: the next tag, its contents (tlv.cpp).
use Prim.Native.Nat.{bit_and, bit_or}
use mathlib.Core.Path.{ap₂}
use p44utils.Prelude.{
  ℕ, ◌+◌, ◌-◌, ◌*◌, ◌%◌, ◌^◌, ◌≤◌, ◌<◌, ◌≡◌, refl, ap, sym, ◌∙◌, true, List, [], ◌∷◌, ◌++◌, length,
  get_or, take, drop, All, arith, append_assoc, drop_add, get_or-drop, take-length, drop-length,
}
use p44utils.Prelude.Bits.{bit_and_low, bit_or_fields}
use p44utils.Tlv.Tags.{tlv_tagmask, tlv_sizemask, IsByte, IsU64, big_endian, big_endian_from}
use p44utils.Tlv.Writer.{unsigned_data}
use p44utils.Tlv.Ints.{IsShortest, unsigned_data-IsShortest}
use p44utils.Tlv.Element.{IsTag, element, short_form, tag_bits}
use p44utils.Tlv.Document.{Fits}
use p44utils.Tlv.Reader.{
  Cursor, leaf, u64, collect_bytes, get_int_bytes, get_tl_here, substr, next_tag,
}

-- The length of an element's tag and size bytes.
abbrev pub header : List ℕ → ℕ
header contents = 1 + length (unsigned_data (length contents))

-- From a position on, these bytes stand in the string.
abbrev pub Stands : List ℕ → ℕ → List ℕ → Type 0
Stands tlv pos bytes = (rest : List ℕ) × (drop pos tlv ≡ bytes ++ rest)

big_endian_from-grows : (bs : List ℕ) (d : ℕ) → d ≤ big_endian_from d bs
big_endian_from-grows [] d = omega arith
big_endian_from-grows (b ∷ bs) d = omega (arith, big_endian_from-grows bs (d * 256 + b))

module _ (tlv : List ℕ) where
  pub byte_at : (pos b : ℕ) (bs : List ℕ) → drop pos tlv ≡ b ∷ bs → get_or tlv pos 0 ≡ b
  byte_at pos b bs e = sym (get_or-drop pos tlv 0) ∙ ap (λ (l : List ℕ). get_or l 0 0) e

  pub behind :
      (pos n to : ℕ) (front back : List ℕ)
      → drop pos tlv ≡ front ++ back
      → length front ≡ n
      → to ≡ pos + n
      → drop to tlv ≡ back
  behind pos n to front back e l t =
      drop_add pos n to tlv t
      ∙ ap (drop n) e
      ∙ ap (λ (k : ℕ). drop k (front ++ back)) (sym l)
      ∙ drop-length front back

  shift_in :
      (d b : ℕ)
      → b < 256
      → d * 256 + b < 2 ^ 64
      → bit_or (u64 (d * 2 ^ 8)) (bit_and b 0xFF) ≡ d * 256 + b
  shift_in d b hb h =
      let whole : u64 (d * 2 ^ 8) ≡ d * 2 ^ 8 = omega arith in
      ap₂ bit_or whole (bit_and_low 8 b ∙ low) ∙ bit_or_fields 8 d b hb
    where
      low : b % 2 ^ 8 ≡ b
      low = omega arith

  collect_bytes_lem :
      (end_pos start d : ℕ) (bs rest : List ℕ)
      → drop start tlv ≡ bs ++ rest
      → All IsByte bs
      → start + length bs ≤ end_pos
      → IsU64 (big_endian_from d bs)
      → collect_bytes tlv end_pos (length bs) start d ≡ big_endian_from d bs
  unfolding collect_bytes
  collect_bytes_lem end_pos start d [] rest e h f u = refl
  collect_bytes_lem end_pos start d (b ∷ bs) rest e h f u =
      let next =
        collect_bytes_lem end_pos (start + 1) (d * 256 + b) bs rest
          (behind start 1 (start + 1) (b ∷ []) (bs ++ rest) e refl refl) h.1 (omega arith) u in
      let here : get_or tlv start 0 ≡ b = byte_at start b (bs ++ rest) e in
      let joined : bit_or (u64 (d * 2 ^ 8)) (bit_and (get_or tlv start 0) 0xFF) ≡ d * 256 + b =
        rw here (shift_in d b h.0 (omega (arith, big_endian_from-grows bs (d * 256 + b)))) in
      ground (arith, next, ap (collect_bytes tlv end_pos (length bs) (start + 1)) joined)

  -- What get_int_bytes reads where the bytes of a number stand, with no sign to extend.
  pub get_int_bytes_lem :
      (end_pos start extend_to : ℕ) (bs : List ℕ)
      → Stands tlv start bs
      → All IsByte bs
      → start + length bs ≤ end_pos
      → extend_to ≤ length bs
      → IsU64 (big_endian bs)
      → get_int_bytes tlv end_pos start (length bs) extend_to ≡ big_endian bs
  unfolding get_int_bytes
  get_int_bytes_lem end_pos start extend_to bs (rest, e) h f x u =
      ground (arith, collect_bytes_lem end_pos start 0 bs rest e h f u)

  -- An element that lies within the bounds of a reader.
  pub record Element (c : Cursor) (tag : ℕ) (contents : List ℕ) : Type 0 where
    pub is_tag : IsTag tag
    pub fits : Fits contents
    pub stands : Stands tlv c.pos (element tag contents)
    pub within : c.pos + header contents + length contents ≤ c.end_pos

  module _ (c : Cursor) (tag : ℕ) (contents : List ℕ) (el : Element c tag contents) where
    size_bytes : IsShortest (length contents) (unsigned_data (length contents))
    size_bytes = unsigned_data-IsShortest (length contents) (omega (arith, el.fits))

    few_size_bytes : length (unsigned_data (length contents)) ≤ 4
    few_size_bytes =
        let size = unsigned_data (length contents) in
        let fits = el.fits in ground (arith, short_form (length contents) size size_bytes)

    abbrev size : List ℕ
    size = unsigned_data (length contents)

    tag_stands : get_or tlv c.pos 0 ≡ tag + (length size - 1)
    unfolding element
    tag_stands = byte_at c.pos _ _ el.stands.1

    size_stands : Stands tlv (c.pos + 1) size
    unfolding element
    size_stands =
        let rest = el.stands.0 in
        let first = tag + (length size - 1) in
        (
          contents ++ rest,
          behind c.pos 1 (c.pos + 1) (first ∷ []) (size ++ (contents ++ rest))
              (el.stands.1 ∙ ap (◌∷◌ first) (append_assoc size contents rest)) refl refl,
        )

    pub contents_stand : Stands tlv (c.pos + header contents) contents
    unfolding size_stands
    contents_stand = (
      el.stands.0,
      behind (c.pos + 1) (length size) (c.pos + header contents) size (contents ++ el.stands.0)
          size_stands.1 refl (omega arith),
    )

    low_bits : bit_and (get_or tlv c.pos 0) tlv_sizemask + 1 ≡ length size
    low_bits = omega (
      arith,
      bit_and_low 2 (get_or tlv c.pos 0),
      tag_stands,
      el.is_tag.free,
      few_size_bytes,
      size_bytes.not_empty,
    )

    -- nextTag answers the tag.
    pub next_tag_lem : next_tag tlv (leaf c) ≡ tag
    unfolding next_tag
    next_tag_lem =
        let bits : bit_and (get_or tlv c.pos 0) tlv_tagmask ≡ tag =
          ap (λ (t : ℕ). bit_and t tlv_tagmask) tag_stands
          ∙ tag_bits (tag + (length size - 1))
              (omega (arith, el.is_tag.free, el.is_tag.is_byte, few_size_bytes))
          ∙ omega (arith, el.is_tag.free, few_size_bytes, size_bytes.not_empty) in
        let inside : c.pos < c.end_pos = omega (arith, el.within) in ground arith

    size_read : get_int_bytes tlv c.end_pos (c.pos + 1) (length size) 0 ≡ length contents
    size_read =
        get_int_bytes_lem c.end_pos (c.pos + 1) 0 size size_stands size_bytes.are_bytes
          (omega (arith, el.within)) (omega arith) (omega (arith, size_bytes.stands_for, el.fits))
        ∙ size_bytes.stands_for

    -- get_TL answers where the contents are, and goes behind them.
    pub get_tl_here_lem : get_tl_here tlv c ≡ (
      (true, c.pos + header contents, length contents),
      record c { pos = c.pos + header contents + length contents },
    )
    unfolding get_tl_here
    get_tl_here_lem =
        let start : c.pos + 1 + length size ≡ c.pos + header contents = omega arith in
        let within : c.pos + header contents + length contents ≤ c.end_pos = el.within in
        rw (low_bits, size_read, start) (ground arith)

    pub substr_lem : substr tlv (c.pos + header contents) (length contents) ≡ contents
    unfolding substr
    substr_lem =
        ap (take (length contents)) contents_stand.1 ∙ take-length contents contents_stand.0
