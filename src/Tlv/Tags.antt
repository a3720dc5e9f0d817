-- ===== src/Tlv/Tags.antt =====
-- The tags of the TLV format (the enum of tlv.hpp), and bytes as numbers.
use p44utils.Prelude.{ℕ, ◌+◌, ◌*◌, ◌^◌, ◌<◌, List, [], ◌∷◌}

abbrev pub tlv_any : ℕ
tlv_any = 0x02

abbrev pub tlv_invalid : ℕ
tlv_invalid = 0x03

abbrev pub tlv_unsigned : ℕ
tlv_unsigned = 0x00

abbrev pub tlv_signed : ℕ
tlv_signed = 0x04

abbrev pub tlv_string : ℕ
tlv_string = 0x08

abbrev pub tlv_blob : ℕ
tlv_blob = 0x0C

abbrev pub tlv_id_unsigned : ℕ
tlv_id_unsigned = 0x10

abbrev pub tlv_id_string : ℕ
tlv_id_string = 0x14

abbrev pub tlv_container : ℕ
tlv_container = 0x18

abbrev pub tlv_counted_container : ℕ
tlv_counted_container = 0x1C

abbrev pub tlv_tagmask : ℕ
tlv_tagmask = 0xFC

abbrev pub tlv_sizemask : ℕ
tlv_sizemask = 0x03

abbrev pub IsByte : ℕ → Type 0
IsByte b = b < 256

abbrev pub IsU64 : ℕ → Type 0
IsU64 v = v < 2 ^ 64

-- The number that bytes stand for, the highest byte first, behind the bytes that `d` stands for.
abbrev pub big_endian_from : ℕ → List ℕ → ℕ
big_endian_from d [] = d
big_endian_from d (b ∷ bs) = big_endian_from (d * 256 + b) bs

abbrev pub big_endian : List ℕ → ℕ
big_endian = big_endian_from 0
