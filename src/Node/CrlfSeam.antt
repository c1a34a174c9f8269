-- ===== src/Node/CrlfSeam.antt =====
-- `fix_crlf_seam` of src/tree/node.rs, which moves the rest of a CRLF pair over the boundary of two
-- leaves. Fuel for the levels of the tree.
use ropey.Common.{
  ℕ, zero, suc, ◌+◌, ◌-◌, Bool, not, ◌||◌, Option, none, some, ◌==◌, if◌then◌else◌, ◌>>=◌, ◌>>◌,
  assert, length, get_elem?,
}
use ropey.Crates.{Crates}
use ropey.TextInfo.{wrapping_sub}
use ropey.Tree.{Limits, Node, leaf, internal, NodeChildren, pack, unpack}
use ropey.NodeText.{NodeText, fix_segment_seam}
use ropey.NodeChildren.{combined_info, search_byte_idx, remove}
use ropey.Node.Merge.{set_child, update_child_info}

-- The text of the chunk, the offset in it, and the node with another text in its place.
unfoldable pub get_chunk_at_byte_mut :
    ℕ → Node → ℕ → Option (NodeText × ℕ × (NodeText → Option Node))
get_chunk_at_byte_mut zero self byte_idx = none
get_chunk_at_byte_mut (suc fuel) (leaf text) byte_idx =
    some (text, byte_idx, λ text. some (leaf text))
get_chunk_at_byte_mut (suc fuel) (internal es) byte_idx = do
  (child_i, acc_info) ← search_byte_idx (unpack es) byte_idx
  child ← get_elem? (unpack es) child_i
  (text, offset, put) ← get_chunk_at_byte_mut fuel child.1 (wrapping_sub byte_idx acc_info.bytes)
  some (
    text,
    offset,
    λ text. (do
      node ← put text
      children ← set_child (unpack es) child_i (child.0, node)
      some (internal (pack children))),
  )

-- "Remove the children if empty."
unfoldable pub remove_if_empty : ⦃lim : Limits⦄ → NodeChildren → ℕ → Option NodeChildren
remove_if_empty children i = do
  child ← get_elem? children i
  if child.0.bytes == 0
      then (do (children, _) ← remove children i; some children)
      else some children

module _ ⦃lim : Limits⦄ ⦃crates : Crates⦄ where
  unfoldable pub fix_info_left : ℕ → Node → Option Node
  fix_info_left zero self = none
  fix_info_left (suc fuel) (leaf text) = some (leaf text)
  fix_info_left (suc fuel) (internal es) = do
    child ← get_elem? (unpack es) 0
    node ← fix_info_left fuel child.1
    children ← set_child (unpack es) 0 (child.0, node)
    children ← update_child_info children 0
    children ← remove_if_empty children 0
    some (internal (pack children))

  unfoldable pub fix_info_right : ℕ → Node → Option Node
  fix_info_right zero self = none
  fix_info_right (suc fuel) (leaf text) = some (leaf text)
  fix_info_right (suc fuel) (internal es) = do
    let idx = length (unpack es) - 1
    child ← get_elem? (unpack es) idx
    node ← fix_info_right fuel child.1
    children ← set_child (unpack es) idx (child.0, node)
    children ← update_child_info children idx
    children ← remove_if_empty children idx
    some (internal (pack children))

  abbrev at_edge : ℕ → NodeText → Bool
  at_edge offset text = offset == 0 || offset == length text

  -- "Left or right edge, get neighbor and fix seam"
  unfoldable pub fix_between : ℕ → NodeChildren → ℕ → Bool → Option NodeChildren
  fix_between fuel children l_child_i must_be_boundary = do
    l_child ← get_elem? children l_child_i
    r_child ← get_elem? children (l_child_i + 1)
    (l_text, l_offset, put_l) ← get_chunk_at_byte_mut fuel l_child.1 l_child.0.bytes
    (r_text, r_offset, put_r) ← get_chunk_at_byte_mut fuel r_child.1 0
    assert (not must_be_boundary || at_edge l_offset l_text)
    assert (not must_be_boundary || at_edge r_offset r_text)
    (l_text, r_text) ← fix_segment_seam l_text r_text
    l_node ← put_l l_text
    r_node ← put_r r_text
    l_node ← fix_info_right fuel l_node
    r_node ← fix_info_left fuel r_node
    children ← set_child children l_child_i (l_child.0, l_node)
    children ← set_child children (l_child_i + 1) (r_child.0, r_node)
    children ← update_child_info children l_child_i
    children ← update_child_info children (l_child_i + 1)
    r_child ← get_elem? children (l_child_i + 1)
    if r_child.0.bytes == 0
        then (do (children, _) ← remove children (l_child_i + 1); some children)
        else remove_if_empty children l_child_i

  unfoldable pub fix_crlf_seam : ℕ → Node → ℕ → Bool → Option Node
  fix_crlf_seam zero self byte_pos must_be_boundary = none
  fix_crlf_seam (suc fuel) (leaf text) byte_pos must_be_boundary = some (leaf text)
  fix_crlf_seam (suc fuel) (internal es) byte_pos must_be_boundary =
      let children = unpack es in
      if byte_pos == 0
      then (do
        child ← get_elem? children 0
        node ← fix_crlf_seam fuel child.1 byte_pos must_be_boundary
        children ← set_child children 0 (child.0, node)
        some (internal (pack children)))
      else if byte_pos == (combined_info children).bytes
      then (do
        last ← get_elem? children (length children - 1)
        node ← fix_crlf_seam fuel last.1 last.0.bytes must_be_boundary
        children ← set_child children (length children - 1) (last.0, node)
        some (internal (pack children)))
      else (do
        (child_i, start_info) ← search_byte_idx children byte_pos
        child ← get_elem? children child_i
        let pos_in_child = wrapping_sub byte_pos start_info.bytes
        if pos_in_child == 0 || pos_in_child == child.0.bytes
            then (do
              children ←
                  fix_between fuel children (if pos_in_child == 0 then child_i - 1 else child_i)
                    must_be_boundary
              some (internal (pack children)))
            else (do
              node ← fix_crlf_seam fuel child.1 pos_in_child must_be_boundary
              children ← set_child children child_i (child.0, node)
              children ← update_child_info children child_i
              children ← remove_if_empty children child_i
              some (internal (pack children))))
