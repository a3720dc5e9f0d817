-- ===== src/Tlv/Runs.antt =====
-- The tag-length-value format at concrete inputs: a document as in tests/test_tlv.cpp (tlv.cpp).
use p44utils.Prelude.{
  false, ℕ, ◌+◌, ◌-◌, ◌^◌, ◌<◌, ◌≡◌, ◌≢◌, refl, some, none, List, [], ◌∷◌, ◌++◌, length, arith, leb,
  if◌then◌else◌,
}
use p44utils.Tlv.Tags.{tlv_any, tlv_string, tlv_invalid, tlv_id_string, tlv_id_unsigned}
use p44utils.Tlv.Writer.{
  Writer, WriterState, unsigned_data, signed_data, finish_my_tag, finalize, int_bytes, int_data,
}
use p44utils.Tlv.Ints.{IsShortest, unsigned_data-IsShortest}
use p44utils.Tlv.SignedInts.{IsWhole, signed_data-IsWhole}
use p44utils.Tlv.Element.{IsTag, element, finish_my_tag_lem}
use p44utils.Tlv.Document.{
  Items, unsigned, signed, blob, id_text, container, counted, nil, cons, encode_item, encode,
  AllWritable, write,
}
use p44utils.Tlv.WriteRefines.{finalize-write, new_writer}
use p44utils.Tlv.Reader.{Reader, get_tlv_string, leaf, cursor_on, next_tag}
use p44utils.Tlv.NextIs.{next_is_text_unmoved}
use p44utils.Tlv.SeekNext.{seek_next_text_ends}
use p44utils.Tlv.Read.{
  seek_next_text, next_tag_text, bytes_eq, next_tag_number, next_is_text, next_is_number, innermost,
  data_tag_loop, next_data_tag,
}
use p44utils.Tlv.ReadBack.{read_items}
use p44utils.Tlv.RoundTrip.{at_start, read_items-write}
use p44utils.Tlv.DataTag.{next_data_tag_stops}

-- Two counted values, an ID with a blob, and an empty container.
abbrev document : Items
document =
    cons (counted (cons (unsigned 42) (cons (signed 3) nil)))
      (cons (id_text (65 ∷ 66 ∷ [])) (cons (blob (7 ∷ [])) (cons (container nil) nil)))

document-AllWritable : AllWritable document
unfolding encode encode_item element unsigned_data signed_data int_data int_bytes
document-AllWritable = ground arith

finalize-write_example :
    (wr : Writer) × (write document new_writer ≡ some wr) × ((finalize wr).0 ≡ encode document)
finalize-write_example = finalize-write document document-AllWritable

read_items-write_example :
    (wr : Writer) × (write document new_writer ≡ some wr)
    × (read_items (finalize wr).0 document (at_start (finalize wr).0)
        ≡ some (
          document,
          leaf (record (cursor_on 0 (length (finalize wr).0)) { pos = length (finalize wr).0 }),
        ))
read_items-write_example = read_items-write document document-AllWritable

abbrev in_string : WriterState
in_string = record { tlv = 24 ∷ 0 ∷ []; started_tag = tlv_string; tag_count = 1 }

string-IsTag : IsTag tlv_string
string-IsTag = record { is_byte = omega arith; free = refl }

finish_my_tag_lem_example : finish_my_tag (65 ∷ 66 ∷ []) in_string ≡ (
    if leb (2 + 1) (2 ^ 32)
    then some (record {
      tlv = (24 ∷ 0 ∷ []) ++ element tlv_string (65 ∷ 66 ∷ []);
      started_tag = tlv_invalid;
      tag_count = 1 + 1;
    })
    else none)
finish_my_tag_lem_example = finish_my_tag_lem (65 ∷ 66 ∷ []) in_string string-IsTag (omega arith)

unsigned_data-IsShortest_example : IsShortest 0x1234 (unsigned_data 0x1234)
unsigned_data-IsShortest_example = unsigned_data-IsShortest 0x1234 (omega arith)

signed_data-IsWhole_example : IsWhole 3 (signed_data 3)
signed_data-IsWhole_example = signed_data-IsWhole 3 (omega arith)

-- An ID "A", and the number 5.
abbrev named : List ℕ
named = 0x14 ∷ 1 ∷ 65 ∷ 0x00 ∷ 1 ∷ 5 ∷ []

six_left : (innermost (at_start named)).end_pos - (innermost (at_start named)).pos < 9
unfolding cursor_on
six_left = omega arith

next_data_tag_stops_example :
    let (tag, r') = next_data_tag named (at_start named) in
    (data_tag_loop named 9 (at_start named) ≡ next_data_tag named (at_start named))
    × (tag ≡ next_tag named r')
    × (tag ≢ tlv_id_string)
    × (tag ≢ tlv_id_unsigned)
next_data_tag_stops_example = next_data_tag_stops named 9 (at_start named) six_left

-- The element has the ID "A", and not "B".
other_name : (next_is_text named 0 (66 ∷ []) (at_start named)).0 ≡ false
unfolding next_is_text cursor_on next_tag_text next_tag get_tlv_string bytes_eq
other_name = refl

next_is_text_unmoved_example : (next_is_text named 0 (66 ∷ []) (at_start named)).1 ≡ at_start named
next_is_text_unmoved_example = next_is_text_unmoved named 0 (66 ∷ []) (at_start named) other_name

-- It has no number as its ID, and the variable happens to be 4.
no_number : (next_is_number named 4 0 5 (at_start named)).0 ≡ false
unfolding next_is_number cursor_on next_tag_number next_tag
no_number = refl

seek_next_text_ends_example :
    (tag : ℕ) × (r' : Reader) × (seek_next_text named 9 tlv_any (66 ∷ []) (at_start named)
      ≡ some (tag, r'))
    × (tag ≡ next_tag named r')
seek_next_text_ends_example =
    seek_next_text_ends named 9 tlv_any (66 ∷ []) (at_start named) six_left
