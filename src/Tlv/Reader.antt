-- ===== src/Tlv/Reader.antt =====
-- class TLVReader (tlv.cpp, tlv.hpp). The string that is read does not change: it is a parameter,
-- the list of its bytes. Behind its end operator[] gives 0 at the end, and here everywhere.
-- A reader with the chain of readers nested in it is one value.
use Prim.Native.Nat.{bit_and, bit_or}
use p44utils.Prelude.{
  ℕ, zero, suc, ◌+◌, ◌-◌, ◌*◌, ◌%◌, ◌^◌, Bool, true, false, not, ◌&&◌, Option, none, some, List,
  leb, ltb, ◌==◌, if◌then◌else◌, get_or, take, drop,
}
use p44utils.Tlv.Tags.{tlv_invalid, tlv_tagmask, tlv_sizemask}

pub record Cursor : Type 0 where
  pub pos : ℕ
  pub start_pos : ℕ
  pub end_pos : ℕ

-- TLVReader with its mNestedReader.
pub data Reader : Type 0 where
  leaf : Cursor → Reader
  nested : Cursor → Reader → Reader

unfoldable pub cursor_on : ℕ → ℕ → Cursor
cursor_on pos end_pos = record { pos = pos; start_pos = pos; end_pos = end_pos }

-- current()->pos() and current()->setPos()
unfoldable pub current_pos : Reader → ℕ
current_pos (leaf c) = c.pos
current_pos (nested c r) = current_pos r

unfoldable pub set_current_pos : ℕ → Reader → Reader
set_current_pos pos (leaf c) = leaf (record c { pos = pos })
set_current_pos pos (nested c r) = nested c (set_current_pos pos r)

unfoldable pub rewind : Reader → Reader
rewind (leaf c) = leaf (record c { pos = c.start_pos })
rewind (nested c r) = nested (record c { pos = c.start_pos }) (rewind r)

unfoldable pub reset : Reader → Reader
reset (leaf c) = leaf (record c { pos = c.start_pos })
reset (nested c r) = leaf (record c { pos = c.start_pos })

unfoldable pub close_container : Reader → Bool × Reader
close_container (leaf c) = (false, leaf c)
close_container (nested c r) =
    let (closed, r') = close_container r in if closed then (true, nested c r') else (true, leaf c)

abbrev pub u64 : ℕ → ℕ
u64 n = n % 2 ^ 64

-- The first loop of get_int_bytes: `n` times 0xFF shifted in.
unfoldable pub extend_sign : ℕ → ℕ → ℕ
extend_sign zero d = d
extend_sign (suc n) d = extend_sign n (bit_or (u64 (d * 2 ^ 8)) 0xFF)

module _ (tlv : List ℕ) where
  abbrev at : ℕ → ℕ
  at i = get_or tlv i 0

  unfoldable pub next_tag : Reader → ℕ
  next_tag (leaf c) = if leb c.end_pos c.pos then tlv_invalid else bit_and (at c.pos) tlv_tagmask
  next_tag (nested c r) = next_tag r

  unfoldable pub eot : Reader → Bool
  unfolding next_tag
  eot r = next_tag r == tlv_invalid

  -- The second loop of get_int_bytes.
  unfoldable pub collect_bytes : ℕ → ℕ → ℕ → ℕ → ℕ
  collect_bytes end_pos zero start d = d
  collect_bytes end_pos (suc n) start d =
      let rest =
        collect_bytes end_pos n (start + 1) (bit_or (u64 (d * 2 ^ 8)) (bit_and (at start) 0xFF)) in
      if leb end_pos start then 0 else rest

  unfoldable pub get_int_bytes : ℕ → ℕ → ℕ → ℕ → ℕ
  unfolding extend_sign collect_bytes
  get_int_bytes end_pos start n extend_to =
      let missing = extend_to - n in
      collect_bytes end_pos n start
        (if ltb 0 missing && not (bit_and (at start) 0x80 == 0) then extend_sign missing 0 else 0)

  -- get_TL on the innermost reader: the result, start and size, and the cursor.
  unfoldable pub get_tl_here : Cursor → (Bool × ℕ × ℕ) × Cursor
  unfolding get_int_bytes
  get_tl_here c =
      let tag = at c.pos in
      let size_size = bit_and tag tlv_sizemask + 1 in
      let size = get_int_bytes c.end_pos (c.pos + 1) size_size 0 in
      let start = c.pos + 1 + size_size in
      if ltb c.end_pos (start + size)
      then ((false, start, 0), record c { pos = c.pos + 1 })
      else ((true, start, size), record c { pos = start + size })

  unfoldable pub get_tl : Reader → (Bool × ℕ × ℕ) × Reader
  unfolding get_tl_here
  get_tl (leaf c) = let (r, c') = get_tl_here c in (r, leaf c')
  get_tl (nested c r) = let (t, r') = get_tl r in (t, nested c r')

  unfoldable pub substr : ℕ → ℕ → List ℕ
  substr start size = take size (drop start tlv)

  unfoldable pub get_tlv_string : Reader → Option (List ℕ) × Reader
  unfolding get_tl substr
  get_tlv_string r =
      let ((done, start, size), r') = get_tl r in
      if done then (some (substr start size), r') else (none, r')

  unfoldable pub skip : Reader → Bool × Reader
  unfolding get_tl
  skip r = let ((done, start, size), r') = get_tl r in (done, r')
