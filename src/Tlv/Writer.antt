-- ===== src/Tlv/Writer.antt =====
-- class TLVWriter (tlv.cpp, tlv.hpp). A std::string is the list of its bytes. A writer with the
-- chain of writers nested in it is one value; `none` is a failed assert. An int64_t is given by its
-- 64 bit pattern, to which put_signed casts it.
use Prim.Native.Nat.{bit_and, bit_or}
use p44utils.Prelude.{
  ℕ, zero, suc, ◌+◌, ◌-◌, ◌*◌, ◌/◌, ◌%◌, ◌^◌, Bool, true, false, not, ◌&&◌, ◌||◌, Option, none,
  some, List, [], ◌∷◌, ◌++◌, leb, ◌==◌, if◌then◌else◌, length,
}
use p44utils.Tlv.Tags.{
  tlv_invalid, tlv_unsigned, tlv_signed, tlv_string, tlv_blob, tlv_id_unsigned, tlv_id_string,
  tlv_container, tlv_counted_container, tlv_tagmask, tlv_sizemask,
}

pub record WriterState : Type 0 where
  pub tlv : List ℕ
  pub started_tag : ℕ
  pub tag_count : ℕ

-- TLVWriter with its mNestedWriter.
pub data Writer : Type 0 where
  leaf : WriterState → Writer
  nested : WriterState → Writer → Writer

unfoldable pub new_state : WriterState
new_state = record { tlv = []; started_tag = tlv_invalid; tag_count = 0 }

-- The loop of int_data: `k` rounds are left, so that `shift` is 8 * k. The last round is the byte
-- that is always put.
unfoldable pub int_bytes : ℕ → ℕ → Bool → Bool → List ℕ → List ℕ
int_bytes zero value signed started bytes = bytes ++ value % 256 ∷ []
int_bytes (suc k) value signed started bytes =
    let shift = 8 * suc k in
    let mask = if signed then 0x1FF * 2 ^ (shift - 1) else 0xFF * 2 ^ shift in
    let put =
      started || not (bit_and value mask == 0) || (signed && not (bit_and value mask == mask)) in
    int_bytes k value signed put
      (if put then bytes ++ bit_and (value / 2 ^ shift) 0xFF ∷ [] else bytes)

unfoldable pub int_data : ℕ → Bool → List ℕ
unfolding int_bytes
int_data value signed = int_bytes 7 value signed false []

unfoldable pub unsigned_data : ℕ → List ℕ
unfolding int_data
unsigned_data value = int_data value false

unfoldable pub signed_data : ℕ → List ℕ
unfolding int_data
signed_data value = int_data value true

unfoldable pub start_tag : ℕ → Writer → Writer
start_tag tag (leaf w) = leaf (record w { started_tag = tag })
start_tag tag (nested w n) = nested w (start_tag tag n)

unfoldable pub tag_started : WriterState → Bool
tag_started w = not (w.started_tag == tlv_invalid)

abbrev pub state : Writer → WriterState
state (leaf w) = w
state (nested w n) = w

unfoldable pub finish_my_tag : List ℕ → WriterState → Option WriterState
finish_my_tag bytes w =
    let len = int_data (length bytes) false in
    let tag = bit_or (bit_and w.started_tag tlv_tagmask) (bit_and (length len - 1) tlv_sizemask) in
    if leb (length len) 4
    then some (record {
      tlv = ((w.tlv ++ tag ∷ []) ++ len) ++ bytes;
      started_tag = tlv_invalid;
      tag_count = w.tag_count + 1;
    })
    else none

abbrev pub as_leaf : Option WriterState → Option Writer
as_leaf none = none
as_leaf (some w) = some (leaf w)

abbrev pub inside : WriterState → Option Writer → Option Writer
inside w none = none
inside w (some n) = some (nested w n)

unfoldable pub finish_tag : List ℕ → Writer → Option Writer
unfolding tag_started
finish_tag bytes (leaf w) = if tag_started w then as_leaf (finish_my_tag bytes w) else none
finish_tag bytes (nested w n) =
    let inner = finish_tag bytes n in if tag_started w then inside w inner else none

unfoldable pub put_tag : ℕ → List ℕ → Writer → Option Writer
put_tag tag bytes wr = finish_tag bytes (start_tag tag wr)

unfoldable pub put_id_unsigned : ℕ → Writer → Option Writer
put_id_unsigned id = put_tag tlv_id_unsigned (unsigned_data id)

unfoldable pub put_id_string : List ℕ → Writer → Option Writer
put_id_string id = put_tag tlv_id_string id

unfoldable pub put_unsigned : ℕ → Writer → Option Writer
put_unsigned value = put_tag tlv_unsigned (unsigned_data value)

unfoldable pub put_signed : ℕ → Writer → Option Writer
put_signed value = put_tag tlv_signed (signed_data value)

unfoldable pub put_string : List ℕ → Writer → Option Writer
put_string s = put_tag tlv_string s

unfoldable pub put_blob : List ℕ → Writer → Option Writer
put_blob s = put_tag tlv_blob s

-- start_container(TLVTag)
unfoldable pub start_container_tag : ℕ → Writer → Writer
unfolding new_state
start_container_tag tag (leaf w) = nested (record w { started_tag = tag }) (leaf new_state)
start_container_tag tag (nested w n) = nested w (start_container_tag tag n)

unfoldable pub start_container : Writer → Writer
unfolding start_container_tag
start_container = start_container_tag tlv_container

unfoldable pub start_counted_container : Writer → Writer
unfolding start_container_tag
start_counted_container = start_container_tag tlv_counted_container

-- The bytes that end_container puts into its own tag: the nested writer's, behind their count in a
-- counted container. A writer of its own writes the count.
unfoldable pub container_data : ℕ → WriterState → Option (List ℕ)
unfolding new_state
container_data tag n =
    if tag == tlv_counted_container
    then elim (put_unsigned n.tag_count (leaf new_state)) [
      | none ↦ none
      | some wr ↦ some ((state wr).tlv ++ n.tlv)
    ]
    else some n.tlv

unfoldable pub close_nested : WriterState → WriterState → Option Writer
close_nested w n = elim (container_data w.started_tag n) [
  | none ↦ none
  | some bytes ↦ as_leaf (finish_my_tag bytes w)
]

unfoldable pub end_container : Writer → Option Writer
unfolding tag_started
end_container (leaf w) = none
end_container (nested w n) =
    let deeper = end_container n in
    if tag_started (state n) then inside w deeper else close_nested w (state n)

-- finalize() answers the outermost writer's bytes, and deletes what is nested in it.
unfoldable pub finalize : Writer → List ℕ × Writer
finalize wr = ((state wr).tlv, leaf (state wr))
