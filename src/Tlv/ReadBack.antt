-- ===== src/Tlv/ReadBack.antt =====
-- The calls that read a document with a TLVReader (tlv.cpp).
use p44utils.Prelude.{ℕ, some, none, Option, List, [], ◌==◌, if◌then◌else◌}
use p44utils.Tlv.Document.{
  Item, Items, unsigned, signed, id_unsigned, text, blob, id_text, container, counted, nil, cons,
  count,
}
use p44utils.Tlv.Reader.{Reader, close_container}
use p44utils.Tlv.Read.{
  read_unsigned, read_signed, read_string, read_blob, next_tag_text, next_tag_number,
  open_container, open_counted_container,
}

abbrev pub answer {ℓ} : {A : Type ℓ} → (A → Item) → Option A × Reader → Option (Item × Reader)
answer f (none, r) = none
answer f (some a, r) = some (f a, r)

abbrev pub closed : (Items → Item) → Option (Items × Reader) → Option (Item × Reader)
closed f none = none
closed f (some (xs, r)) =
    let (done, r') = close_container r in if done then some (f xs, r') else none

abbrev pub join : Item → Option (Items × Reader) → Option (Items × Reader)
join x none = none
join x (some (xs, r)) = some (cons x xs, r)

abbrev pub and_read :
    Option (Item × Reader) → (Reader → Option (Items × Reader)) → Option (Items × Reader)
and_read none rest = none
and_read (some (x, r)) rest = join x (rest r)

abbrev pub counted_content :
    ℕ → (Reader → Option (Items × Reader)) → Option ℕ × Reader → Option (Item × Reader)
counted_content n contents (none, r) = none
counted_content n contents (some k, r) = if k == n then closed counted (contents r) else none

module _ (tlv : List ℕ) where
  -- The calls that read a document of the given shape: what they answer, and the reader. IDs are
  -- read by nextTag. A counted container must answer the count of its shape.
  unfoldable mutual
    pub read_item : Item → Reader → Option (Item × Reader)
    read_item (unsigned v) r = answer unsigned (read_unsigned tlv 8 r)
    read_item (signed v) r = answer signed (read_signed tlv 8 r)
    read_item (text s) r = answer text (read_string tlv r)
    read_item (blob s) r = answer blob (read_blob tlv r)
    read_item (id_unsigned v) r =
        let (tag, id, r') = next_tag_number tlv 0 r in some (id_unsigned id, r')
    read_item (id_text s) r = let (tag, id, r') = next_tag_text tlv [] r in some (id_text id, r')
    read_item (container xs) r =
        let (done, r') = open_container tlv r in
        if done then closed container (read_items xs r') else none
    read_item (counted xs) r =
        counted_content (count xs) (read_items xs) (open_counted_container tlv r)

    pub read_items : Items → Reader → Option (Items × Reader)
    read_items nil r = some (nil, r)
    read_items (cons x xs) r = and_read (read_item x r) (read_items xs)
