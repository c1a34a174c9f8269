-- ===== src/NodeChildren.antt =====
-- src/tree/node_children.rs: the children of an internal node with their text infos, in an array
-- of at most `max_children`. A method returns the new array, and its result behind it.
pub mod Arrays
pub mod Halves
pub mod Infos
pub mod Search
pub mod Located
mod Tests
use ropey.Common.{
  ℕ, zero, suc, ◌+◌, ◌-◌, ◌/◌, Bool, true, false, Option, none, some, List, [], ◌∷◌, ◌++◌, ltb, leb,
  ◌==◌, if◌then◌else◌, ◌>>=◌, ◌>>◌, assert, length, get_elem?, take, drop,
}
use ropey.TextInfo
use ropey.TextInfo.{TextInfo}
use ropey.Tree.{Limits, Node, Child, NodeChildren}

abbrev pub new : NodeChildren
new = []

-- `self.info()[0..(self.len() - 1)]`, the infos of all children but the last.
abbrev pub init : NodeChildren → NodeChildren
init self = take (length self - 1) self

module _ ⦃lim : Limits⦄ where
  abbrev pub is_full : NodeChildren → Bool
  is_full self = length self == lim.max_children

  unfoldable pub push : NodeChildren → Child → Option NodeChildren
  push self item = do assert (ltb (length self) lim.max_children); some (self ++ item ∷ [])

  unfoldable pub pop : NodeChildren → Option (NodeChildren × Child)
  pop self = do
    assert (ltb 0 (length self))
    item ← get_elem? self (length self - 1)
    some (init self, item)

  unfoldable pub insert : NodeChildren → ℕ → Child → Option NodeChildren
  insert self idx item = do
    assert (leb idx (length self))
    assert (ltb (length self) lim.max_children)
    some (take idx self ++ item ∷ drop idx self)

  unfoldable pub remove : NodeChildren → ℕ → Option (NodeChildren × Child)
  remove self idx = do
    assert (ltb 0 (length self))
    assert (ltb idx (length self))
    item ← get_elem? self idx
    some (take idx self ++ drop (idx + 1) self, item)

  -- `for _ in 0..count { other.push(self.remove(idx)) }`
  unfoldable pub move_children :
      ℕ → ℕ → NodeChildren → NodeChildren → Option (NodeChildren × NodeChildren)
  move_children zero idx self other = some (self, other)
  move_children (suc count) idx self other = do
    removed ← remove self idx
    other' ← push other removed.1
    move_children count idx removed.0 other'

  unfoldable pub split_off : NodeChildren → ℕ → Option (NodeChildren × NodeChildren)
  split_off self idx = do
    assert (leb idx (length self))
    move_children (length self - idx) idx self new

  unfoldable pub push_split : NodeChildren → Child → Option (NodeChildren × NodeChildren)
  push_split self new_child =
      let r_count = (length self + 1) / 2 in
      let l_count = length self + 1 - r_count in
      do halves ← split_off self l_count; right ← push halves.1 new_child; some (halves.0, right)

  unfoldable pub insert_split : NodeChildren → ℕ → Child → Option (NodeChildren × NodeChildren)
  insert_split self idx item = do
    assert (ltb 0 (length self))
    assert (leb idx (length self))
    if ltb idx (length self)
        then (do popped ← pop self; self' ← insert popped.0 idx item; push_split self' popped.1)
        else push_split self item

  -- The two loops of `distribute_with`, with fuel.
  unfoldable pub shift_right :
      ℕ → ℕ → NodeChildren → NodeChildren → Option (NodeChildren × NodeChildren)
  shift_right zero target self other = none
  shift_right (suc fuel) target self other =
      let rest = (do
        popped ← pop self
        other' ← insert other 0 popped.1
        shift_right fuel target popped.0 other') in
      if ltb (length other) target then rest else some (self, other)

  unfoldable pub shift_left :
      ℕ → ℕ → NodeChildren → NodeChildren → Option (NodeChildren × NodeChildren)
  shift_left zero target self other = none
  shift_left (suc fuel) target self other =
      let rest = (do
        removed ← remove other 0
        self' ← push self removed.1
        shift_left fuel target self' removed.0) in
      if ltb target (length other) then rest else some (self, other)

  -- Each round moves a child, so the loops take as many rounds as there are children at most.
  unfoldable pub distribute_with :
      NodeChildren → NodeChildren → Option (NodeChildren × NodeChildren)
  distribute_with self other =
      let r_target_len = (length self + length other) / 2 in
      do
        halves ← shift_right (suc (length self)) r_target_len self other
        shift_left (suc (length halves.1)) r_target_len halves.0 halves.1

-- `acc += info[i]` for each child.
unfoldable pub sum_infos : TextInfo → NodeChildren → TextInfo
sum_infos acc [] = acc
sum_infos acc ((info, _) ∷ cs) = sum_infos (TextInfo.add acc info) cs

unfoldable pub combined_info : NodeChildren → TextInfo
combined_info self = sum_infos TextInfo.new self

-- The loop of `search_by` over the infos that are left, at the index `idx`.
unfoldable pub search_from :
    (TextInfo → TextInfo → Bool) → NodeChildren → ℕ → TextInfo → ℕ × TextInfo
search_from pred [] idx accum = (idx, accum)
search_from pred ((info, _) ∷ cs) idx accum =
    let next_accum = TextInfo.add accum info in
    let rest = search_from pred cs (idx + 1) next_accum in
    if pred accum next_accum then (idx, accum) else rest

-- An empty array, which `debug_assert!` excludes, panics where its last child is cut off.
unfoldable pub search_by : (TextInfo → TextInfo → Bool) → NodeChildren → Option (ℕ × TextInfo)
search_by pred self = do
  assert (ltb 0 (length self))
  some (search_from pred (init self) 0 TextInfo.new)

unfoldable pub search_byte_idx : NodeChildren → ℕ → Option (ℕ × TextInfo)
search_byte_idx self byte_idx = search_by (λ _ end. ltb byte_idx end.bytes) self

unfoldable pub search_char_idx : NodeChildren → ℕ → Option (ℕ × TextInfo)
search_char_idx self char_idx = search_by (λ _ end. ltb char_idx end.chars) self

unfoldable pub search_utf16_code_unit_idx : NodeChildren → ℕ → Option (ℕ × TextInfo)
search_utf16_code_unit_idx self utf16_idx =
    search_by (λ _ end. ltb utf16_idx (TextInfo.wrapping_add end.chars end.utf16_surrogates)) self

unfoldable pub search_line_break_idx : NodeChildren → ℕ → Option (ℕ × TextInfo)
search_line_break_idx self line_break_idx =
    search_by (λ _ end. leb line_break_idx end.line_breaks) self
