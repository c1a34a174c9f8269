-- ===== src/Node/Append.antt =====
-- `append_at_depth` and `prepend_at_depth` of src/tree/node.rs, which join a tree to the edge of a
-- deeper one. Each returns the changed node, and the node that does not fit into it.
pub mod Joined
pub mod AtEnd
pub mod AtStart
use ropey.Common.{
  ℕ, zero, suc, ◌+◌, ◌-◌, Option, none, some, ltb, leb, if◌then◌else◌, ◌>>=◌, length, get_elem?,
}
use ropey.Crates.{Crates}
use ropey.Tree.{Limits, Node, leaf, internal, NodeChildren, pack, unpack}
use ropey.NodeChildren.{push, push_split, insert, insert_split, move_children, distribute_with, pop}
use ropey.Node.{text_info}
use ropey.Node.Merge.{set_child, update_child_info}

module _ ⦃lim : Limits⦄ where
  -- `for _ in 0..count { self.insert(0, other.pop()) }`
  unfoldable pub pop_children : ℕ → NodeChildren → NodeChildren → Option NodeChildren
  pop_children zero other self = some self
  pop_children (suc count) other self = do
    popped ← pop other
    self ← insert self 0 popped.1
    pop_children count popped.0 self

module _ ⦃lim : Limits⦄ ⦃crates : Crates⦄ where
  unfoldable pub push_residual : NodeChildren → Option Node → Option (Node × Option Node)
  push_residual children none = some (internal (pack children), none)
  push_residual children (some extra_node) =
      if ltb (length children) lim.max_children
      then (do
        children ← push children (text_info extra_node, extra_node)
        some (internal (pack children), none))
      else (do
        (children, r_children) ← push_split children (text_info extra_node, extra_node)
        some (internal (pack children), some (internal (pack r_children))))

  unfoldable pub append_at_depth : ℕ → Node → Node → Option (Node × Option Node)
  append_at_depth zero (leaf text) (leaf other) = some (leaf text, some (leaf other))
  append_at_depth zero (leaf text) (internal _) = none
  append_at_depth zero (internal es) (leaf _) = none
  append_at_depth zero (internal es) (internal fs) =
      if leb (length (unpack es) + length (unpack fs)) lim.max_children
      then (do
        (_, children_l) ← move_children (length (unpack fs)) 0 (unpack fs) (unpack es)
        some (internal (pack children_l), none))
      else (do
        (children_l, children_r) ← distribute_with (unpack es) (unpack fs)
        some (internal (pack children_l), some (internal (pack children_r))))
  append_at_depth (suc depth) (leaf _) other = none
  append_at_depth (suc depth) (internal es) other = do
    let last_i = length (unpack es) - 1
    last ← get_elem? (unpack es) last_i
    (node, residual) ← append_at_depth depth last.1 other
    children ← set_child (unpack es) last_i (last.0, node)
    children ← update_child_info children last_i
    push_residual children residual

  -- In the last case the arrays are swapped, and the left one is returned.
  unfoldable pub insert_residual : NodeChildren → Option Node → Option (Node × Option Node)
  insert_residual children none = some (internal (pack children), none)
  insert_residual children (some extra_node) =
      if ltb (length children) lim.max_children
      then (do
        children ← insert children 0 (text_info extra_node, extra_node)
        some (internal (pack children), none))
      else (do
        (children, r_children) ← insert_split children 0 (text_info extra_node, extra_node)
        some (internal (pack r_children), some (internal (pack children))))

  unfoldable pub prepend_at_depth : ℕ → Node → Node → Option (Node × Option Node)
  prepend_at_depth zero (leaf text) (leaf other) = some (leaf text, some (leaf other))
  prepend_at_depth zero (leaf text) (internal _) = none
  prepend_at_depth zero (internal es) (leaf _) = none
  prepend_at_depth zero (internal es) (internal fs) =
      if leb (length (unpack fs) + length (unpack es)) lim.max_children
      then (do
        children_r ← pop_children (length (unpack fs)) (unpack fs) (unpack es)
        some (internal (pack children_r), none))
      else (do
        (children_l, children_r) ← distribute_with (unpack fs) (unpack es)
        some (internal (pack children_r), some (internal (pack children_l))))
  prepend_at_depth (suc depth) (leaf _) other = none
  prepend_at_depth (suc depth) (internal es) other = do
    first ← get_elem? (unpack es) 0
    (node, residual) ← prepend_at_depth depth first.1 other
    children ← set_child (unpack es) 0 (first.0, node)
    children ← update_child_info children 0
    insert_residual children residual
