-- ===== src/Rope/Append.antt =====
-- `append` of src/rope.rs, which joins two ropes.
pub mod Roots
pub mod Whole
mod Tests
use ropey.Common.{
  ℕ, zero, suc, ◌+◌, ◌-◌, Bool, true, false, ◌||◌, Option, none, some, List, [], ◌∷◌, ltb, ◌==◌,
  if◌then◌else◌, ◌>>=◌, get_elem?,
}
use ropey.Crlf.{lf}
use ropey.Crates.{Crates}
use ropey.TextInfo.{wrapping_sub}
use ropey.Tree.{Limits, Node, internal, pack, min_bytes}
use ropey.NodeChildren
use ropey.NodeChildren.{push}
use ropey.Node.{text_info, depth}
use ropey.Node.Append.{append_at_depth, prepend_at_depth}
use ropey.Node.CrlfSeam.{fix_crlf_seam}
use ropey.Node.FixSeam.{fix_tree_seam}
use ropey.Rope.{Rope, len_chars, chunk_at_char}
use ropey.Rope.Root.{pull_up_singular_nodes}

module _ ⦃lim : Limits⦄ ⦃crates : Crates⦄ where
  -- `self.char(0) == '\n'`: the char is the one that the byte of an LF begins.
  unfoldable pub begins_with_lf : ℕ → Rope → Option Bool
  begins_with_lf fuel self = do
    (chunk, _, chunk_char_idx, _) ← chunk_at_char fuel self 0
    b ← get_elem? chunk (crates.chars_to_byte_idx chunk (wrapping_sub 0 chunk_char_idx))
    some (b == lf)

  -- A root above two nodes.
  unfoldable pub root_of_two : Node → Node → Option Node
  root_of_two left right = do
    children ← push NodeChildren.new (text_info left, left)
    children ← push children (text_info right, right)
    some (internal (pack children))

  abbrev pub with_right : Node → Option Node → Option Node
  with_right root none = some root
  with_right root (some node) = root_of_two root node

  abbrev pub with_left : Node → Option Node → Option Node
  with_left root none = some root
  with_left root (some node) = root_of_two node root

  -- The two trees joined at the depth of the shallower one, with fuel for their levels.
  unfoldable pub join_roots : ℕ → Node → Node → Option Node
  join_roots fuel self other = do
    l_depth ← depth fuel self
    r_depth ← depth fuel other
    if ltb r_depth l_depth
        then (do
          (root, extra) ← append_at_depth (l_depth - r_depth) self other
          with_right root extra)
        else (do
          (root, extra) ← prepend_at_depth (r_depth - l_depth) other self
          with_left root extra)

  -- Fuel for the levels of the joined tree, and for the rounds of `fix_tree_seam`.
  unfoldable pub append : ℕ → ℕ → Rope → Rope → Option Rope
  append levels rounds self other =
      if len_chars self == 0
      then some other
      else if ltb 0 (len_chars other)
      then (do
        let left_info = text_info self.root
        let right_info = text_info other.root
        seam ← begins_with_lf levels other
        root ← join_roots levels self.root other.root
        root ← if seam then fix_crlf_seam levels root left_info.bytes true else some root
        root ←
            if ltb left_info.bytes min_bytes || ltb right_info.bytes min_bytes
            then (do (_, root) ← fix_tree_seam rounds root left_info.chars; some root)
            else some root
        root ← pull_up_singular_nodes levels root
        some (record { root = root }))
      else some self
