-- ===== src/Node/Edit.antt =====
-- `edit_chunk_at_char` of src/tree/node.rs: a closure edits the leaf of a char, and the path from
-- the root to it takes up the new text info and the split that the edit may cause.
pub mod Search
pub mod Edited
pub mod Contexts
pub mod Opened
pub mod Placed
pub mod Compacting
pub mod Reached
pub mod Whole
use ropey.Common.{
  ℕ, zero, suc, ◌+◌, ◌*◌, ◌/◌, Bool, ◌&&◌, Option, none, some, List, [], ◌∷◌, ltb, if◌then◌else◌,
  ◌>>=◌, ◌>>◌, assert, length, get_elem?,
}
use ropey.Crates.{Crates}
use ropey.TextInfo.{TextInfo, add, sub, wrapping_add, wrapping_sub}
use ropey.Tree.{Limits, Node, leaf, internal, Child, NodeChildren, pack, unpack, min_children}
use ropey.NodeText.{NodeText}
use ropey.NodeChildren.{init, is_full, insert, insert_split, combined_info}
use ropey.Node.{is_leaf}
use ropey.Node.Merge.{set_child, compact_leaves}

-- The loop of `search_char_idx_only`
unfoldable pub count_from : ℕ → NodeChildren → ℕ → ℕ → ℕ × ℕ
count_from char_idx [] idx accum = (idx, accum)
count_from char_idx ((info, _) ∷ cs) idx accum =
    let next_accum = wrapping_add accum info.chars in
    let rest = count_from char_idx cs (idx + 1) next_accum in
    if ltb char_idx next_accum then (idx, accum) else rest

unfoldable pub search_char_idx_only : NodeChildren → ℕ → Option (ℕ × ℕ)
search_char_idx_only self char_idx = do
  assert (ltb 0 (length self))
  some (count_from char_idx (init self) 0 0)

-- What an edit leaves: the variables that the closure captures, the edited text or node, its text
-- info, and the node that was split off it.
abbrev pub Edited {ℓ} : Type ℓ → Type 0 → Type ℓ
Edited S T = S × T × TextInfo × Option Child

module _ ⦃lim : Limits⦄ ⦃crates : Crates⦄ where
  abbrev pub frag_min_bytes : ℕ
  frag_min_bytes = lim.max_bytes * min_children + lim.max_bytes / 32

  unfoldable pub compact_fragments : NodeChildren → Option NodeChildren
  compact_fragments children =
      if is_full children
      then (do
        first ← get_elem? children 0
        if is_leaf first.1 && ltb (combined_info children).bytes frag_min_bytes
            then compact_leaves children
            else some children)
      else some children

  -- "Handle the residual node if there is one and return."
  unfoldable pub place_residual {ℓ} :
      {S : Type ℓ}
      → S
      → NodeChildren
      → ℕ
      → TextInfo
      → TextInfo
      → TextInfo
      → Option Child
      → Option (Edited S Node)
  place_residual s children child_i node_info info l_info none =
      some (s, internal (pack children), add (sub node_info info) l_info, none)
  place_residual s children child_i node_info info l_info (some (r_info, r_node)) =
      if ltb (length children) lim.max_children
      then (do
        children ← insert children (child_i + 1) (r_info, r_node)
        some (s, internal (pack children), add (add (sub node_info info) l_info) r_info, none))
      else (do
        halves ← insert_split children (child_i + 1) (r_info, r_node)
        some (
          s,
          internal (pack halves.0),
          combined_info halves.0,
          some (combined_info halves.1, internal (pack halves.1)),
        ))

  unfoldable pub edit_chunk_at_char {ℓ} :
      {S : Type ℓ}
      → ℕ
      → Node
      → ℕ
      → TextInfo
      → (ℕ → TextInfo → NodeText → Option (Edited S NodeText))
      → Option (Edited S Node)
  edit_chunk_at_char zero self char_idx node_info edit = none
  edit_chunk_at_char (suc fuel) (leaf text) char_idx node_info edit = do
    (s, text', info, residual) ← edit char_idx node_info text
    some (s, leaf text', info, residual)
  edit_chunk_at_char (suc fuel) (internal es) char_idx node_info edit = do
    children ← compact_fragments (unpack es)
    (child_i, acc_char_idx) ← search_char_idx_only children char_idx
    child ← get_elem? children child_i
    (s, node, l_info, residual) ←
        edit_chunk_at_char fuel child.1 (wrapping_sub char_idx acc_char_idx) child.0 edit
    children ← set_child children child_i (l_info, node)
    place_residual s children child_i node_info child.0 l_info residual
