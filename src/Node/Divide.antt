-- ===== src/Node/Divide.antt =====
-- `split` of src/tree/node.rs, which divides a tree at a char index.
pub mod Divided
pub mod Whole
use ropey.Common.{
  ℕ, zero, suc, ◌+◌, Option, none, some, List, ◌==◌, if◌then◌else◌, ◌>>=◌, get_elem?,
}
use ropey.Crates.{Crates}
use ropey.TextInfo.{TextInfo, wrapping_add, wrapping_sub}
use ropey.Tree.{Limits, Node, leaf, internal, Child, NodeChildren, pack, unpack}
use ropey.NodeText
use ropey.NodeChildren.{split_off, insert, search_char_idx}
use ropey.Node.{text_info}
use ropey.Node.Merge.{set_child, update_child_info}

module _ ⦃lim : Limits⦄ where
  -- The node keeps the children before `idx`.
  unfoldable pub split_between : NodeChildren → ℕ → Option (Node × Node)
  split_between children idx = do
    halves ← split_off children idx
    some (internal (pack halves.0), internal (pack halves.1))

  -- The child at `child_i` is divided into `nodes`.
  unfoldable pub split_through :
      ⦃crates : Crates⦄ → NodeChildren → ℕ → Child → Node × Node → Option (Node × Node)
  split_through children child_i child nodes = do
    halves ← split_off children (child_i + 1)
    children ← set_child halves.0 child_i (child.0, nodes.0)
    r_children ← insert halves.1 0 (text_info nodes.1, nodes.1)
    children ← update_child_info children child_i
    r_children ← update_child_info r_children 0
    some (internal (pack children), internal (pack r_children))

  -- The three branches: between two children, or through one of them.
  unfoldable pub split_children :
      ⦃crates : Crates⦄
      → NodeChildren
      → ℕ
      → ℕ
      → ℕ
      → Child
      → Option (Node × Node)
      → Option (Node × Node)
  split_children children char_idx child_i acc_chars child below =
      if char_idx == acc_chars
      then split_between children child_i
      else if char_idx == wrapping_add acc_chars child.0.chars
      then split_between children (child_i + 1)
      else below >>= split_through children child_i child

  unfoldable pub split : ⦃crates : Crates⦄ → ℕ → Node → ℕ → Option (Node × Node)
  split zero self char_idx = none
  split ⦃crates = crates⦄ (suc fuel) (leaf text) char_idx = do
    halves ← NodeText.split_off text (crates.chars_to_byte_idx text char_idx)
    some (leaf halves.0, leaf halves.1)
  split (suc fuel) (internal es) char_idx = do
    found ← search_char_idx (unpack es) char_idx
    child ← get_elem? (unpack es) found.0
    let below = split fuel child.1 (wrapping_sub char_idx found.1.chars)
    split_children (unpack es) char_idx found.0 found.1.chars child below
