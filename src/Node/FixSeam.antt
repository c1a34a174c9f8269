-- ===== src/Node/FixSeam.antt =====
-- `fix_tree_seam` of src/tree/node.rs, which merges the undersized nodes on both sides of a char.
pub mod MergedAt
pub mod Steps
pub mod Fixed
mod Tests
use ropey.Common.{
  ℕ, zero, suc, ◌+◌, ◌-◌, Bool, true, false, not, ◌&&◌, ◌||◌, Option, none, some, ltb, ◌==◌,
  if◌then◌else◌, ◌>>=◌, length, get_elem?,
}
use ropey.Crates.{Crates}
use ropey.TextInfo.{TextInfo, wrapping_sub}
use ropey.Tree.{Limits, Node, leaf, internal, NodeChildren, pack, unpack}
use ropey.NodeChildren.{search_char_idx}
use ropey.Node.{is_undersized}
use ropey.Node.Merge.{merge_distribute, set_child}

module _ ⦃lim : Limits⦄ ⦃crates : Crates⦄ where
  -- "Do merging"
  unfoldable pub merge_at : NodeChildren → ℕ → Option (Bool × NodeChildren)
  merge_at children char_idx =
      if ltb 1 (length children)
      then (do
        (child_i, start_info) ← search_char_idx children char_idx
        child ← get_elem? children child_i
        if child_i == 0
            then (if is_undersized child.1
                then merge_distribute children 0 1
                else some (false, children))
            else (do
              before ← get_elem? children (child_i - 1)
              if is_undersized child.1 || (start_info.chars == char_idx && is_undersized before.1)
                  then merge_distribute children (child_i - 1) child_i
                  else some (false, children)))
      else some (false, children)

  -- The loop from a round on, as in `zip_left`.
  unfoldable pub fix_seam : ℕ → Bool → Node → ℕ → Option (Bool × Node)
  fix_seam zero did_stuff self char_idx = none
  fix_seam (suc fuel) did_stuff (leaf text) char_idx = some (false, leaf text)
  fix_seam (suc fuel) did_stuff (internal es) char_idx = do
    (merged, children) ← merge_at (unpack es) char_idx
    (child_i, start_info) ← search_char_idx children char_idx
    child ← get_elem? children child_i
    if start_info.chars == char_idx && not (child_i == 0)
        then (do
          before ← get_elem? children (child_i - 1)
          (effect_1, node_1) ← fix_seam fuel false before.1 before.0.chars
          (effect_2, node_2) ← fix_seam fuel false child.1 0
          children ← set_child children (child_i - 1) (before.0, node_1)
          children ← set_child children child_i (child.0, node_2)
          let rest = fix_seam fuel (did_stuff || merged) (internal (pack children)) char_idx
          if effect_1 || effect_2
              then rest
              else some (did_stuff || merged, internal (pack children)))
        else (do
          (effect, node) ← fix_seam fuel false child.1 (wrapping_sub char_idx start_info.chars)
          children ← set_child children child_i (child.0, node)
          let rest = fix_seam fuel (did_stuff || merged) (internal (pack children)) char_idx
          if effect then rest else some (did_stuff || merged, internal (pack children)))

  unfoldable pub fix_tree_seam : ℕ → Node → ℕ → Option (Bool × Node)
  fix_tree_seam fuel self char_idx = fix_seam fuel false self char_idx
