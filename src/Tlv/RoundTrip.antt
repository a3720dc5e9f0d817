-- ===== src/Tlv/RoundTrip.antt =====
-- A document that a TLVWriter has put down, read back by a TLVReader (tlv.cpp).
use p44utils.Prelude.{
  ◌∙◌, ◌==◌, [], append-nil, ℕ, ◌+◌, ◌≡◌, refl, ap, sym, some, true, List, ◌++◌, length, arith,
}
use p44utils.Tlv.Tags.{
  tlv_unsigned, tlv_signed, tlv_string, tlv_blob, tlv_id_unsigned, tlv_id_string, tlv_container,
  tlv_counted_container,
}
use p44utils.Tlv.Writer.{finalize, Writer, unsigned_data, signed_data}
use p44utils.Tlv.Document.{
  write, Item, Items, unsigned, signed, id_unsigned, text, blob, id_text, container, counted, nil,
  cons, count, count_element, encode_item, encode, IsWritable, AllWritable,
}
use p44utils.Tlv.WriteRefines.{new_writer, finalize-write, unsigned_data-Fits, signed_data-Fits}
use p44utils.Tlv.Reader.{set_current_pos, leaf, Reader, cursor_on}
use p44utils.Tlv.Read.{innermost}
use p44utils.Tlv.Steps.{
  push, after, read_unsigned_lem, read_signed_lem, read_string_lem, read_blob_lem,
  next_tag_text_lem, next_tag_number_lem, close_container-push,
}
use p44utils.Tlv.Containers.{open_container_lem, open_counted_container_lem, window, behind_count}
use p44utils.Tlv.ReadBack.{read_item, read_items}
use p44utils.Tlv.Ready.{
  Ready, past, Ready-first, Ready-rest, past-element, element-Ready, set_current_pos_same,
  past-past, Ready-contents, past-push,
}

==_same : (n : ℕ) → (n == n) ≡ true
==_same n = ground arith

module _ (tlv : List ℕ) where
  -- The reader of a counted container's contents stands behind the count.
  behind_the_count :
      (n : ℕ) (bytes : List ℕ) (r : Reader)
      → push (behind_count tlv (innermost r).pos n bytes) (after tlv (count_element n ++ bytes) r)
        ≡ past tlv (count_element n) (
            push
              (window (innermost r).pos (count_element n ++ bytes))
              (after tlv (count_element n ++ bytes) r))
  unfolding cursor_on
  behind_the_count n bytes r =
      let contents = count_element n ++ bytes in
      sym
        (past-push tlv (count_element n) (window (innermost r).pos contents) (after tlv contents r))

  mutual
    unfolding read_item read_items encode_item encode

    read_item_lem :
        (x : Item) (r : Reader)
        → IsWritable x
        → Ready tlv (encode_item x) r
        → read_item tlv x r ≡ some (x, past tlv (encode_item x) r)
    read_item_lem (unsigned v) r h v' =
        rw
          (
            read_unsigned_lem tlv v r h v'.inside (
                element-Ready tlv tlv_unsigned (unsigned_data v) r (omega arith)
                  (unsigned_data-Fits v h) v'),
            past-element tlv tlv_unsigned (unsigned_data v) r,
          )
          refl
    read_item_lem (signed v) r h v' =
        rw
          (
            read_signed_lem tlv v r h v'.inside (
                element-Ready tlv tlv_signed (signed_data v) r (omega arith) (signed_data-Fits v h)
                  v'),
            past-element tlv tlv_signed (signed_data v) r,
          )
          refl
    read_item_lem (id_unsigned v) r h v' =
        rw
          (
            next_tag_number_lem tlv 0 v r h v'.inside (
                element-Ready tlv tlv_id_unsigned (unsigned_data v) r (omega arith)
                  (unsigned_data-Fits v (omega arith)) v'),
            past-element tlv tlv_id_unsigned (unsigned_data v) r,
          )
          refl
    read_item_lem (text s) r h v' =
        rw
          (
            read_string_lem tlv s r (element-Ready tlv tlv_string s r (omega arith) h v'),
            past-element tlv tlv_string s r,
          )
          refl
    read_item_lem (blob s) r h v' =
        rw
          (
            read_blob_lem tlv s r (element-Ready tlv tlv_blob s r (omega arith) h v'),
            past-element tlv tlv_blob s r,
          )
          refl
    read_item_lem (id_text s) r h v' =
        rw
          (
            next_tag_text_lem tlv s r (element-Ready tlv tlv_id_string s r (omega arith) h v'),
            past-element tlv tlv_id_string s r,
          )
          refl
    read_item_lem (container xs) r h v' =
        let el = element-Ready tlv tlv_container (encode xs) r (omega arith) h.1 v' in
        let w = window (innermost r).pos (encode xs) in
        rw
          (
            open_container_lem tlv (encode xs) r el,
            read_items_lem xs (push w (after tlv (encode xs) r)) h.0
                (Ready-contents tlv tlv_container (encode xs) r v'.inside el),
            past-push tlv (encode xs) w (after tlv (encode xs) r),
            close_container-push (record w { pos = w.pos + length (encode xs) })
                (after tlv (encode xs) r),
            past-element tlv tlv_container (encode xs) r,
          )
          refl
    read_item_lem (counted xs) r h v' =
        let n = count_element (count xs) in
        let contents = n ++ encode xs in
        let el = element-Ready tlv tlv_counted_container contents r (omega arith) h.2 v' in
        let w = window (innermost r).pos contents in
        let inner = push w (after tlv contents r) in
        let ready = Ready-contents tlv tlv_counted_container contents r v'.inside el in
        let rest = Ready-rest tlv n (encode xs) inner ready in
        rw
          (
            open_counted_container_lem tlv (count xs) (encode xs) r h.1 el,
            behind_the_count (count xs) (encode xs) r,
            read_items_lem xs (past tlv n inner) h.0 rest,
            past-past tlv n (encode xs) inner,
            past-push tlv contents w (after tlv contents r),
            close_container-push (record w { pos = w.pos + length contents })
                (after tlv contents r),
            past-element tlv tlv_counted_container contents r,
          )
          (rw (==_same (count xs)) refl)

    read_items_lem :
        (xs : Items) (r : Reader)
        → AllWritable xs
        → Ready tlv (encode xs) r
        → read_items tlv xs r ≡ some (xs, past tlv (encode xs) r)
    read_items_lem nil r h v =
        ap (λ (r' : Reader). some (nil, r')) (sym (set_current_pos_same tlv _ r (omega arith)))
    read_items_lem (cons x xs) r h v =
        rw
          (
            read_item_lem x r h.0 (Ready-first tlv (encode_item x) (encode xs) r v),
            read_items_lem xs (past tlv (encode_item x) r) h.1
                (Ready-rest tlv (encode_item x) (encode xs) r v),
            past-past tlv (encode_item x) (encode xs) r,
          )
          refl

-- The reader in the state that reset leaves, on these bytes.
abbrev pub at_start : List ℕ → Reader
at_start bytes = leaf (cursor_on 0 (length bytes))

at_start-Ready : (bytes : List ℕ) → Ready bytes bytes (at_start bytes)
unfolding cursor_on
at_start-Ready bytes = record {
  inside = omega arith;
  stands = ([], sym (append-nil bytes));
  within = omega arith;
}

-- What the calls for a document write into a new TLVWriter, and finalize answers, is read back by
-- a TLVReader: the calls that read a document of that shape answer every ID, number, string and
-- blob that was written, at any depth of containers, and the reader ends at the end of the bytes.
-- Numbers are below 2 ^ 64, those of IDs below 2 ^ 32, and contents shorter than 2 ^ 32 bytes.
pub read_items-write :
    (xs : Items)
    → AllWritable xs
    → (wr : Writer) × (write xs new_writer ≡ some wr)
      × (read_items (finalize wr).0 xs (at_start (finalize wr).0)
          ≡ some (
            xs,
            leaf (record (cursor_on 0 (length (finalize wr).0)) { pos = length (finalize wr).0 }),
          ))
unfolding cursor_on set_current_pos
read_items-write xs h =
    let (wr, e, f) = finalize-write xs h in
    let bytes = encode xs in
    let at_end : 0 + length bytes ≡ length bytes = omega arith in
    let back =
      read_items_lem bytes xs (at_start bytes) h (at_start-Ready bytes)
      ∙ ap (λ (p : ℕ). some (xs, set_current_pos p (at_start bytes))) at_end in
    (wr, e, rw f back)
