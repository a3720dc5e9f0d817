-- ===== src/Tlv/Document.antt =====
-- What is written with a TLVWriter, as a tree, and the bytes that stand for it (tlv.hpp, tlv.cpp).
use p44utils.Prelude.{ℕ, ◌+◌, ◌^◌, ◌<◌, List, [], ◌++◌, length, Option, none, some}
use p44utils.Tlv.Tags.{
  tlv_unsigned, tlv_signed, tlv_string, tlv_blob, tlv_id_unsigned, tlv_id_string, tlv_container,
  tlv_counted_container, IsU64,
}
use p44utils.Tlv.Writer.{
  Writer, unsigned_data, signed_data, put_id_unsigned, put_id_string, put_unsigned, put_signed,
  put_string, put_blob, start_container, start_counted_container, end_container,
}
use p44utils.Tlv.Element.{element}

mutual
  pub data Item : Type 0 where
    unsigned signed id_unsigned : ℕ → Item
    text blob id_text : List ℕ → Item
    container counted : Items → Item

  pub data Items : Type 0 where
    nil : Items
    cons : Item → Items → Items

abbrev pub count : Items → ℕ
count nil = 0
count (cons x xs) = 1 + count xs

-- The element that carries the count of a counted container.
abbrev pub count_element : ℕ → List ℕ
count_element n = element tlv_unsigned (unsigned_data n)

unfoldable mutual
  pub encode_item : Item → List ℕ
  encode_item (unsigned v) = element tlv_unsigned (unsigned_data v)
  encode_item (signed v) = element tlv_signed (signed_data v)
  encode_item (id_unsigned v) = element tlv_id_unsigned (unsigned_data v)
  encode_item (text s) = element tlv_string s
  encode_item (blob s) = element tlv_blob s
  encode_item (id_text s) = element tlv_id_string s
  encode_item (container xs) = element tlv_container (encode xs)
  encode_item (counted xs) = element tlv_counted_container (count_element (count xs) ++ encode xs)

  pub encode : Items → List ℕ
  encode nil = []
  encode (cons x xs) = encode_item x ++ encode xs

abbrev pub Fits : List ℕ → Type 0
Fits bytes = length bytes < 2 ^ 32

-- Every number is a uint64_t, or a uint32_t in an ID, and the contents of every element are less than 2 ^ 32 bytes.
abbrev mutual
  pub IsWritable : Item → Type 0
  IsWritable (unsigned v) = IsU64 v
  IsWritable (signed v) = IsU64 v
  IsWritable (id_unsigned v) = v < 2 ^ 32
  IsWritable (text s) = Fits s
  IsWritable (blob s) = Fits s
  IsWritable (id_text s) = Fits s
  IsWritable (container xs) = AllWritable xs × Fits (encode xs)
  IsWritable (counted xs) =
      AllWritable xs × IsU64 (count xs) × Fits (count_element (count xs) ++ encode xs)

  pub AllWritable : Items → Type 0
  AllWritable nil = Unit {0}
  AllWritable (cons x xs) = IsWritable x × AllWritable xs

abbrev pub and_then : Option Writer → (Writer → Option Writer) → Option Writer
and_then none f = none
and_then (some wr) f = f wr

-- The calls that write a tree.
unfoldable mutual
  pub write_item : Item → Writer → Option Writer
  write_item (unsigned v) wr = put_unsigned v wr
  write_item (signed v) wr = put_signed v wr
  write_item (id_unsigned v) wr = put_id_unsigned v wr
  write_item (text s) wr = put_string s wr
  write_item (blob s) wr = put_blob s wr
  write_item (id_text s) wr = put_id_string s wr
  write_item (container xs) wr = and_then (write xs (start_container wr)) end_container
  write_item (counted xs) wr = and_then (write xs (start_counted_container wr)) end_container

  pub write : Items → Writer → Option Writer
  write nil wr = some wr
  write (cons x xs) wr = and_then (write_item x wr) (write xs)
