-- ===== src/Tlv/WriteRefines.antt =====
-- The calls that write a document put down its bytes, at any depth of nesting (tlv.cpp).
use p44utils.Prelude.{
  ℕ, ◌+◌, ◌≡◌, inl, inr, refl, ap, sym, ◌∙◌, some, List, [], ◌++◌, arith, append_assoc, append-nil,
}
use p44utils.Tlv.Tags.{
  tlv_unsigned, tlv_signed, tlv_string, tlv_blob, tlv_id_unsigned, tlv_id_string, tlv_container,
  tlv_counted_container, IsU64,
}
use p44utils.Tlv.Writer.{
  Writer, leaf, nested, new_state, unsigned_data, signed_data, start_container_tag, start_container,
  start_counted_container, container_data, put_unsigned, put_signed, put_id_unsigned, put_id_string,
  put_string, put_blob, finalize,
}
use p44utils.Tlv.Ints.{unsigned_data-IsShortest}
use p44utils.Tlv.SignedInts.{signed_data-IsWhole}
use p44utils.Tlv.Document.{
  Item, Items, unsigned, signed, id_unsigned, text, blob, id_text, container, counted, nil, cons,
  count, count_element, encode_item, encode, Fits, IsWritable, AllWritable, write_item, write,
}
use p44utils.Tlv.Writing.{
  IsOpen, extend, extend-IsOpen, put_tag_lem, start_container_tag-IsOpen, end_container_lem,
}

extend-extend :
    (front bs : List ℕ) (m n : ℕ) (wr : Writer)
    → extend bs n (extend front m wr) ≡ extend (front ++ bs) (m + n) wr
extend-extend front bs m n (leaf w) = ground (arith, append_assoc w.tlv front bs)
extend-extend front bs m n (nested w inner) = ap (nested w) (extend-extend front bs m n inner)

extend-nil : (wr : Writer) → extend [] 0 wr ≡ wr
extend-nil (leaf w) = ground (arith, append-nil w.tlv)
extend-nil (nested w inner) = ap (nested w) (extend-nil inner)

pub unsigned_data-Fits : (v : ℕ) → IsU64 v → Fits (unsigned_data v)
unsigned_data-Fits v h = omega (arith, unsigned_data-IsShortest v h)

pub signed_data-Fits : (v : ℕ) → IsU64 v → Fits (signed_data v)
signed_data-Fits v h = omega (arith, signed_data-IsWhole v h)

container_data_plain :
    (bytes : List ℕ) (n : ℕ)
    → container_data tlv_container (record new_state { tlv = bytes; tag_count = n }) ≡ some bytes
unfolding container_data
container_data_plain bytes n = refl

container_data_counted :
    (bytes : List ℕ) (n : ℕ)
    → IsU64 n
    → container_data tlv_counted_container (record new_state { tlv = bytes; tag_count = n })
      ≡ some (count_element n ++ bytes)
unfolding container_data put_unsigned
container_data_counted bytes n h =
    let put =
      put_tag_lem tlv_unsigned (unsigned_data n) (leaf new_state) (omega arith)
        (unsigned_data-Fits n h) (unfold new_state in refl) in
    unfold new_state in rw put refl

mutual
  unfolding write_item write encode_item encode put_unsigned put_signed put_id_unsigned
      put_id_string put_string put_blob start_container start_counted_container

  write_item_lem :
      (x : Item) (wr : Writer)
      → IsWritable x
      → IsOpen wr
      → write_item x wr ≡ some (extend (encode_item x) 1 wr)
  write_item_lem (unsigned v) wr h o =
      put_tag_lem tlv_unsigned (unsigned_data v) wr (omega arith) (unsigned_data-Fits v h) o
  write_item_lem (signed v) wr h o =
      put_tag_lem tlv_signed (signed_data v) wr (omega arith) (signed_data-Fits v h) o
  write_item_lem (id_unsigned v) wr h o =
      put_tag_lem tlv_id_unsigned (unsigned_data v) wr (omega arith)
        (unsigned_data-Fits v (omega arith)) o
  write_item_lem (text s) wr h o = put_tag_lem tlv_string s wr (omega arith) h o
  write_item_lem (blob s) wr h o = put_tag_lem tlv_blob s wr (omega arith) h o
  write_item_lem (id_text s) wr h o = put_tag_lem tlv_id_string s wr (omega arith) h o
  write_item_lem (container xs) wr h o =
      rw
        (write_lem xs (start_container_tag tlv_container wr) h.0
          (start_container_tag-IsOpen tlv_container wr (inl refl) o))
        (end_container_lem tlv_container (count xs) (encode xs) (encode xs) wr (inl refl) o
          (container_data_plain (encode xs) (count xs)) h.1)
  write_item_lem (counted xs) wr h o =
      rw
        (write_lem xs (start_container_tag tlv_counted_container wr) h.0
          (start_container_tag-IsOpen tlv_counted_container wr (inr refl) o))
        (end_container_lem tlv_counted_container (count xs) (encode xs)
          (count_element (count xs) ++ encode xs) wr (inr refl) o
          (container_data_counted (encode xs) (count xs) h.1) h.2)

  write_lem :
      (xs : Items) (wr : Writer)
      → AllWritable xs
      → IsOpen wr
      → write xs wr ≡ some (extend (encode xs) (count xs) wr)
  write_lem nil wr h o = ap some (sym (extend-nil wr))
  write_lem (cons x xs) wr h o = rw (write_item_lem x wr h.0 o) (
      write_lem xs (extend (encode_item x) 1 wr) h.1 (extend-IsOpen (encode_item x) 1 wr o)
      ∙ ap some (extend-extend (encode_item x) (encode xs) 1 (count xs) wr))

abbrev pub new_writer : Writer
new_writer = leaf new_state

-- Writing a document with a new TLVWriter does not fail, whatever its containers hold, and
-- finalize answers the bytes of the document, for numbers below 2 ^ 64, those of IDs below 2 ^ 32,
-- and contents shorter than 2 ^ 32 bytes.
pub finalize-write :
    (xs : Items)
    → AllWritable xs
    → (wr : Writer) × (write xs new_writer ≡ some wr) × ((finalize wr).0 ≡ encode xs)
finalize-write xs h = (
  extend (encode xs) (count xs) new_writer,
  write_lem xs new_writer h (unfold new_state in refl),
  unfold finalize new_state in refl,
)
