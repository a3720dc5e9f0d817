-- ===== src/Tlv/Writing.antt =====
-- The writer with its nested writers puts down the bytes of the document (tlv.cpp).
use p44utils.Prelude.{ℕ, ◌+◌, ◌≡◌, ◌⊎◌, refl, true, some, List, ◌++◌, arith}
use p44utils.Tlv.Tags.{tlv_invalid, tlv_container, tlv_counted_container}
use p44utils.Tlv.Writer.{
  WriterState, Writer, leaf, nested, new_state, start_tag, tag_started, state, finish_my_tag,
  finish_tag, put_tag, start_container_tag, close_nested, end_container, container_data,
}
use p44utils.Tlv.Element.{IsTag, element, finish_my_tag_lem}
use p44utils.Tlv.Document.{Fits}

-- Nothing is started in the innermost writer, and all around it have started a container.
abbrev pub IsOpen : Writer → Type 0
IsOpen (leaf w) = w.started_tag ≡ tlv_invalid
IsOpen (nested w n) =
    ((w.started_tag ≡ tlv_container) ⊎ (w.started_tag ≡ tlv_counted_container)) × IsOpen n

-- The innermost writer with more bytes, of so many elements.
abbrev pub extend : List ℕ → ℕ → Writer → Writer
extend bytes n (leaf w) = leaf (record w { tlv = w.tlv ++ bytes; tag_count = w.tag_count + n })
extend bytes n (nested w inner) = nested w (extend bytes n inner)

pub extend-IsOpen : (bytes : List ℕ) (n : ℕ) (wr : Writer) → IsOpen wr → IsOpen (extend bytes n wr)
extend-IsOpen bytes n (leaf w) h = h
extend-IsOpen bytes n (nested w inner) h = (h.0, extend-IsOpen bytes n inner h.1)

finish_my_tag-Fits :
    (bytes : List ℕ) (w : WriterState)
    → IsTag w.started_tag
    → Fits bytes
    → finish_my_tag bytes w
      ≡ some (record {
        tlv = w.tlv ++ element w.started_tag bytes;
        started_tag = tlv_invalid;
        tag_count = w.tag_count + 1;
      })
finish_my_tag-Fits bytes w t h = ground (arith, finish_my_tag_lem bytes w t)

-- put_tag appends its element to the innermost writer.
pub put_tag_lem :
    (tag : ℕ) (bytes : List ℕ) (wr : Writer)
    → IsTag tag
    → Fits bytes
    → IsOpen wr
    → put_tag tag bytes wr ≡ some (extend (element tag bytes) 1 wr)
unfolding put_tag finish_tag start_tag tag_started
put_tag_lem tag bytes (leaf w) t h o =
    ground (arith, finish_my_tag-Fits bytes (record w { started_tag = tag }) t h)
put_tag_lem tag bytes (nested w n) t h o = ground (arith, put_tag_lem tag bytes n t h o.1)

-- The bytes of a container, and those that are put before the contents of a counted one.
abbrev pub IsContainer : ℕ → Type 0
IsContainer tag = (tag ≡ tlv_container) ⊎ (tag ≡ tlv_counted_container)

container_IsTag : (tag : ℕ) → IsContainer tag → IsTag tag
container_IsTag tag h = ground arith

pub start_container_tag-IsOpen :
    (tag : ℕ) (wr : Writer) → IsContainer tag → IsOpen wr → IsOpen (start_container_tag tag wr)
unfolding start_container_tag
start_container_tag-IsOpen tag (leaf w) c o = (c, refl)
start_container_tag-IsOpen tag (nested w n) c o = (o.0, start_container_tag-IsOpen tag n c o.1)

-- A writer that has started a container, with more bytes in the new innermost one, still says that
-- a tag is started.
still_started :
    (tag n : ℕ) (bytes : List ℕ) (wr : Writer)
    → IsContainer tag
    → IsOpen wr
    → tag_started (state (extend bytes n (start_container_tag tag wr))) ≡ true
unfolding start_container_tag tag_started
still_started tag n bytes (leaf w) c o = ground arith
still_started tag n bytes (nested w inner) c o = ground arith

-- end_container puts the contents into an element of the writer around.
pub end_container_lem :
    (tag n : ℕ) (bytes contents : List ℕ) (wr : Writer)
    → IsContainer tag
    → IsOpen wr
    → container_data tag (record new_state { tlv = bytes; tag_count = n }) ≡ some contents
    → Fits contents
    → end_container (extend bytes n (start_container_tag tag wr))
      ≡ some (extend (element tag contents) 1 wr)
unfolding end_container close_nested start_container_tag new_state
end_container_lem tag n bytes contents (leaf w) c o d h =
    ground (
      arith,
      finish_my_tag-Fits contents (record w { started_tag = tag }) (container_IsTag tag c) h,
    )
end_container_lem tag n bytes contents (nested w inner) c o d h = ground (
  arith,
  still_started tag n bytes inner c o.1,
  end_container_lem tag n bytes contents inner c o.1 d h,
)
