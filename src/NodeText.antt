-- ===== src/NodeText.antt =====
-- src/tree/node_text.rs: the text of a leaf, as its bytes. A method returns the new text, and its
-- result behind it; `none` is a panic. `inline_if_possible` moves the bytes between the stack and
-- the heap and leaves them as they are, so it has no counterpart.
pub mod Edits
pub mod Split
pub mod Halves
pub mod Seam
pub mod RoundTrips
mod Tests
use ropey.Common.{
  ℕ, zero, suc, ◌+◌, ◌-◌, ◌/◌, Bool, true, false, not, ◌&&◌, ◌||◌, Option, none, some, List, [],
  ◌∷◌, ◌++◌, ltb, leb, ◌==◌, if◌then◌else◌, ◌>>=◌, ◌>>◌, assert, length, get_elem?, take, drop, min,
}
use ropey.Crates.{Crates}
use ropey.Crlf.{seam_is_break, prev_break, next_break, nearest_internal_break}
use ropey.Str.{is_char_boundary, str_slice}

abbrev pub NodeText : Type 0
NodeText = List ℕ

abbrev pub new : NodeText
new = []

-- `self.buffer.copy_within(end..len, start)`, of the standard library's slices.
abbrev copy_within : NodeText → ℕ → ℕ → NodeText
copy_within self end dest =
    take dest self ++ (drop end self ++ drop (dest + (length self - end)) self)

-- The byte at `i` of the text with `string` inserted at `a`, read from where it stands now.
unfoldable pub byte_after_insert : NodeText → ℕ → List ℕ → ℕ → Option ℕ
byte_after_insert self a string i =
    if ltb i a
    then get_elem? self i
    else if ltb i (a + length string)
    then get_elem? string (i - a)
    else get_elem? self (i - length string)

-- The loop that fills `buf`: `n` bytes from `i`.
unfoldable pub fill_buf : NodeText → ℕ → List ℕ → ℕ → ℕ → Option (List ℕ)
fill_buf self a string zero i = some []
fill_buf self a string (suc n) i = do
  b ← byte_after_insert self a string i
  rest ← fill_buf self a string n (i + 1)
  some (b ∷ rest)

-- `split_idx` of `insert_str_split`
unfoldable pub find_split : NodeText → ℕ → List ℕ → Option ℕ
find_split self a string =
    let tot_len = length self + length string in
    let mid_idx = tot_len / 2 in
    let begin = mid_idx - min 4 mid_idx in
    let end = min (mid_idx + 4) tot_len in
    do
      buf ← fill_buf self a string (end - begin) begin
      split ← nearest_internal_break (mid_idx - begin) buf
      some (split + begin)

-- The choice of `new_split_pos` in `fix_segment_seam`.
unfoldable pub seam_split : NodeText → NodeText → Option ℕ
seam_split l r = do
  l_split ← prev_break (length l) l
  next ← next_break 0 r
  let r_split = length l + next
  some (
      if not (l_split == 0) && (r_split == length l + length r || ltb (length r) (length l))
      then l_split
      else r_split)

module _ ⦃crates : Crates⦄ where
  unfoldable pub insert_str : NodeText → ℕ → List ℕ → Option NodeText
  insert_str self byte_idx string = do
    assert (is_char_boundary self byte_idx)
    some (crates.insert_from_slice self byte_idx string)

  unfoldable pub from_str : List ℕ → Option NodeText
  from_str string = insert_str new 0 string

  unfoldable pub push_str : NodeText → List ℕ → Option NodeText
  push_str self string = insert_str self (length self) string

  unfoldable pub remove_range : NodeText → ℕ → ℕ → Option NodeText
  remove_range self byte_start byte_end = do
    assert (leb byte_start byte_end)
    assert (is_char_boundary self byte_start)
    assert (is_char_boundary self byte_end)
    some (
        crates.truncate (copy_within self byte_end byte_start)
          (length self - (byte_end - byte_start)))

  unfoldable pub truncate : NodeText → ℕ → Option NodeText
  truncate self byte_idx = do
    assert (is_char_boundary self byte_idx)
    some (crates.truncate self byte_idx)

  unfoldable pub truncate_front : NodeText → ℕ → Option NodeText
  truncate_front self byte_idx = remove_range self 0 byte_idx

  unfoldable pub split_off : NodeText → ℕ → Option (NodeText × NodeText)
  split_off self byte_idx = do
    assert (is_char_boundary self byte_idx)
    some (crates.truncate self byte_idx, crates.extend_from_slice [] (drop byte_idx self))

  -- The three ways to move the bytes apart at `split_idx`.
  unfoldable pub split_before : NodeText → ℕ → List ℕ → ℕ → Option (NodeText × NodeText)
  split_before self a string split_idx = do
    kept ← str_slice self split_idx a
    right ← push_str new kept
    right ← push_str right string
    tail ← str_slice self a (length self)
    right ← push_str right tail
    left ← truncate self split_idx
    some (left, right)

  unfoldable pub split_inside : NodeText → ℕ → List ℕ → ℕ → Option (NodeText × NodeText)
  split_inside self a string split_idx = do
    second ← str_slice string (split_idx - a) (length string)
    right ← push_str new second
    tail ← str_slice self a (length self)
    right ← push_str right tail
    left ← truncate self a
    first ← str_slice string 0 (split_idx - a)
    left ← push_str left first
    some (left, right)

  unfoldable pub split_after : NodeText → ℕ → List ℕ → ℕ → Option (NodeText × NodeText)
  split_after self a string split_idx = do
    tail ← str_slice self (split_idx - length string) (length self)
    right ← push_str new tail
    left ← truncate self (split_idx - length string)
    left ← insert_str left a string
    some (left, right)

  unfoldable pub insert_str_split : NodeText → ℕ → List ℕ → Option (NodeText × NodeText)
  insert_str_split self byte_idx string = do
    split_idx ← find_split self byte_idx string
    if leb split_idx byte_idx
        then split_before self byte_idx string split_idx
        else if leb split_idx (byte_idx + length string)
        then split_inside self byte_idx string split_idx
        else split_after self byte_idx string split_idx

  unfoldable pub push_str_split : NodeText → List ℕ → Option (NodeText × NodeText)
  push_str_split self string = insert_str_split self (length self) string

  -- The two ways to move the bytes of a cut pair together.
  unfoldable pub move_to_right : NodeText → NodeText → ℕ → Option (NodeText × NodeText)
  move_to_right l r new_split_pos = do
    moved ← str_slice l new_split_pos (length l)
    r' ← insert_str r 0 moved
    l' ← truncate l new_split_pos
    some (l', r')

  unfoldable pub move_to_left : NodeText → NodeText → ℕ → Option (NodeText × NodeText)
  move_to_left l r pos = do
    moved ← str_slice r 0 pos
    l' ← push_str l moved
    r' ← truncate_front r pos
    some (l', r')

  unfoldable pub fix_segment_seam : NodeText → NodeText → Option (NodeText × NodeText)
  fix_segment_seam l r = do
    whole ← seam_is_break l r
    if whole then some (l, r) else (do
      new_split_pos ← seam_split l r
      if ltb new_split_pos (length l)
          then move_to_right l r new_split_pos
          else move_to_left l r (new_split_pos - length l))
