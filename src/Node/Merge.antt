-- ===== src/Node/Merge.antt =====
-- The methods of src/tree/node_children.rs that look into the children: `update_child_info`,
-- `merge_distribute` and `compact_leaves`.
pub mod Merged
pub mod Distributed
pub mod Leaves
pub mod Compact
pub mod Compacted
mod Tests
use ropey.Common.{
  ℕ, zero, suc, ◌+◌, ◌-◌, Bool, true, false, not, ◌||◌, Option, none, some, ◌∷◌, ◌++◌, ltb, leb,
  if◌then◌else◌, ◌>>=◌, ◌>>◌, assert, length, get_elem?, take, drop, map,
}
use ropey.Crates.{Crates}
use ropey.Crlf.{prev_break}
use ropey.Str.{str_slice}
use ropey.Tree.{Limits, Node, leaf, internal, Child, NodeChildren, pack, unpack}
use ropey.NodeText.{push_str, push_str_split, truncate_front}
use ropey.NodeChildren.{remove, distribute_with, move_children}
use ropey.Node.{text_info, is_leaf, leaf_text}

-- A child replaced in place, which panics out of range.
unfoldable pub set_child : NodeChildren → ℕ → Child → Option NodeChildren
set_child self idx item = do
  assert (ltb idx (length self))
  some (take idx self ++ item ∷ drop (idx + 1) self)

module _ ⦃lim : Limits⦄ ⦃crates : Crates⦄ where
  abbrev pub with_info : Child → Child
  with_info (_, node) = (text_info node, node)

  unfoldable pub update_child_info : NodeChildren → ℕ → Option NodeChildren
  update_child_info self idx = do child ← get_elem? self idx; set_child self idx (with_info child)

  -- The two siblings after the merge, and whether the left one holds all.
  unfoldable pub merge_nodes : Node → Node → Option (Bool × Node × Node)
  merge_nodes (leaf text1) (leaf text2) =
      if leb (length text1 + length text2) lim.max_bytes
      then (do text ← push_str text1 text2; some (true, leaf text, leaf text2))
      else (do halves ← push_str_split text1 text2; some (false, leaf halves.0, leaf halves.1))
  merge_nodes (internal es1) (internal es2) =
      if leb (length (unpack es1) + length (unpack es2)) lim.max_children
      then (do
        moved ← move_children (length (unpack es2)) 0 (unpack es2) (unpack es1)
        some (true, internal (pack moved.1), internal (pack moved.0)))
      else (do
        halves ← distribute_with (unpack es1) (unpack es2)
        some (false, internal (pack halves.0), internal (pack halves.1)))
  merge_nodes (leaf _) (internal _) = none
  merge_nodes (internal _) (leaf _) = none

  unfoldable pub merge_distribute : NodeChildren → ℕ → ℕ → Option (Bool × NodeChildren)
  merge_distribute self idx1 idx2 = do
    assert (ltb idx1 idx2)
    assert (ltb idx2 (length self))
    child1 ← get_elem? self idx1
    child2 ← get_elem? self idx2
    merged ← merge_nodes child1.1 child2.1
    self ← set_child self idx1 (child1.0, merged.1)
    self ← set_child self idx2 (child2.0, merged.2)
    if merged.0
        then (do
          removed ← remove self idx2
          self ← update_child_info removed.0 idx1
          some (true, self))
        else (do
          self ← update_child_info self idx1
          self ← update_child_info self idx2
          some (false, self))

  -- One round of `compact_leaves`, with the next index.
  unfoldable pub compact_step : ℕ → NodeChildren → Option (ℕ × NodeChildren)
  compact_step i self = do
    l ← get_elem? self (i - 1)
    r ← get_elem? self i
    text_l ← leaf_text l.1
    text_r ← leaf_text r.1
    if leb (length text_l + length text_r) lim.max_bytes
        then (do
          joined ← push_str text_l text_r
          self ← set_child self (i - 1) (l.0, leaf joined)
          removed ← remove self i
          some (i, removed.0))
        else if ltb (length text_l) lim.max_bytes
        then (do
          split_idx_r ← prev_break (lim.max_bytes - length text_l) text_r
          moved ← str_slice text_r 0 split_idx_r
          text_l' ← push_str text_l moved
          text_r' ← truncate_front text_r split_idx_r
          self ← set_child self (i - 1) (l.0, leaf text_l')
          self ← set_child self i (r.0, leaf text_r')
          some (i + 1, self))
        else some (i + 1, self)

  -- Each round moves the index or drops a child.
  unfoldable pub compact_from : ℕ → ℕ → NodeChildren → Option NodeChildren
  compact_from zero i self = none
  compact_from (suc fuel) i self =
      let rest = (do next ← compact_step i self; compact_from fuel next.0 next.1) in
      if ltb i (length self) then rest else some self

  unfoldable pub compact_leaves : NodeChildren → Option NodeChildren
  compact_leaves self = do
    first ← get_elem? self 0
    if not (is_leaf first.1) || ltb (length self) 2
        then some self
        else (do compacted ← compact_from (length self) 1 self; some (map with_info compacted))
