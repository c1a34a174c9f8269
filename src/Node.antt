-- ===== src/Node.antt =====
-- src/tree/node.rs: the nodes of the tree, and the queries that walk down to a leaf. A walk takes
-- fuel for the levels of the tree; `none` is a panic, or the end of the fuel.
pub mod Info
pub mod Chunks
pub mod Merge
pub mod Edit
pub mod Zip
pub mod Append
pub mod FixSeam
pub mod CrlfSeam
pub mod Divide
mod Tests
use ropey.Common.{
  ℕ, zero, suc, ◌+◌, ◌-◌, Bool, true, false, Option, none, some, List, [], ltb, leb, ◌==◌,
  if◌then◌else◌, ◌>>=◌, ◌>>◌, assert, length, get_elem?, take,
}
use ropey.Crates.{Crates}
use ropey.Crlf.{cr, lf}
use ropey.Str
use ropey.Str.{str_slice}
use ropey.TextInfo
use ropey.TextInfo.{TextInfo, wrapping_add, wrapping_sub}
use ropey.Tree.{
  Limits, Node, leaf, internal, Entries, NodeChildren, pack, unpack, min_bytes, min_children,
}
use ropey.NodeChildren.{
  combined_info, search_byte_idx, search_char_idx, search_utf16_code_unit_idx,
  search_line_break_idx,
}

abbrev pub new : Node
new = leaf []

abbrev pub is_leaf : Node → Bool
is_leaf (leaf _) = true
is_leaf (internal _) = false

-- `child_count` and `leaf_text` panic at a node of the other kind.
abbrev pub child_count : Node → Option ℕ
child_count (leaf _) = none
child_count (internal es) = some (length (unpack es))

abbrev pub leaf_text : Node → Option (List ℕ)
leaf_text (leaf text) = some text
leaf_text (internal _) = none

abbrev pub is_undersized : ⦃lim : Limits⦄ → Node → Bool
is_undersized (leaf text) = ltb (length text) min_bytes
is_undersized (internal es) = ltb (length (unpack es)) min_children

unfoldable pub depth : ℕ → Node → Option ℕ
depth zero node = none
depth (suc fuel) (leaf _) = some 0
depth (suc fuel) (internal es) = do
  first ← get_elem? (unpack es) 0
  below ← depth fuel first.1
  some (below + 1)

unfoldable pub text_info : ⦃crates : Crates⦄ → Node → TextInfo
text_info (leaf text) = TextInfo.from_str text
text_info (internal es) = combined_info (unpack es)

abbrev pub byte_count : ⦃crates : Crates⦄ → Node → ℕ
byte_count node = (text_info node).bytes

abbrev pub char_count : ⦃crates : Crates⦄ → Node → ℕ
char_count node = (text_info node).chars

abbrev pub line_break_count : ⦃crates : Crates⦄ → Node → ℕ
line_break_count node = (text_info node).line_breaks

abbrev pub utf16_surrogate_count : ⦃crates : Crates⦄ → Node → ℕ
utf16_surrogate_count node = (text_info node).utf16_surrogates

-- The loop that the four queries below share: the chunk of the leaf that holds the position, and
-- the text info at its start. `field` is what the position counts.
unfoldable pub descend :
    (NodeChildren → ℕ → Option (ℕ × TextInfo))
    → (TextInfo → ℕ)
    → ℕ
    → Node
    → ℕ
    → TextInfo
    → Option (List ℕ × TextInfo)
descend search field zero node idx info = none
descend search field (suc fuel) (leaf text) idx info = some (text, info)
descend search field (suc fuel) (internal es) idx info = do
  found ← search (unpack es) idx
  child ← get_elem? (unpack es) found.0
  descend search field fuel child.1 (wrapping_sub idx (field found.1)) (TextInfo.add info found.1)

unfoldable pub get_chunk_at_byte : ℕ → Node → ℕ → Option (List ℕ × TextInfo)
get_chunk_at_byte fuel self byte_idx =
    descend search_byte_idx (λ acc. acc.bytes) fuel self byte_idx TextInfo.new

unfoldable pub get_chunk_at_char : ℕ → Node → ℕ → Option (List ℕ × TextInfo)
get_chunk_at_char fuel self char_idx =
    descend search_char_idx (λ acc. acc.chars) fuel self char_idx TextInfo.new

unfoldable pub get_chunk_at_utf16_code_unit : ℕ → Node → ℕ → Option (List ℕ × TextInfo)
get_chunk_at_utf16_code_unit fuel self utf16_idx =
    descend search_utf16_code_unit_idx (λ acc. wrapping_add acc.chars acc.utf16_surrogates) fuel
      self utf16_idx TextInfo.new

unfoldable pub get_chunk_at_line_break : ℕ → Node → ℕ → Option (List ℕ × TextInfo)
get_chunk_at_line_break fuel self line_break_idx =
    descend search_line_break_idx (λ acc. acc.line_breaks) fuel self line_break_idx TextInfo.new

-- `while !text.is_char_boundary(i) { i -= 1; }`
unfoldable pub floor_boundary : List ℕ → ℕ → ℕ
floor_boundary text zero = 0
floor_boundary text (suc i) =
    if Str.is_char_boundary text (suc i) then suc i else floor_boundary text i

module _ ⦃crates : Crates⦄ where
  -- src/str_utils.rs
  unfoldable pub byte_to_utf16_surrogate_idx : List ℕ → ℕ → Option ℕ
  byte_to_utf16_surrogate_idx text byte_idx = do
    prefix ← str_slice text 0 (floor_boundary text byte_idx)
    some (crates.utf16_count_surrogates prefix)

  unfoldable pub char_to_text_info : ℕ → Node → ℕ → Option TextInfo
  char_to_text_info fuel self char_idx = do
    found ← get_chunk_at_char fuel self char_idx
    let chunk = found.0
    let info = found.1
    let bi = crates.chars_to_byte_idx chunk (wrapping_sub char_idx info.chars)
    surrogates ← byte_to_utf16_surrogate_idx chunk bi
    some (record {
      bytes = wrapping_add info.bytes bi;
      chars = char_idx;
      utf16_surrogates = wrapping_add info.utf16_surrogates surrogates;
      line_breaks = wrapping_add info.line_breaks (crates.lines_from_byte_idx chunk bi);
    })

  unfoldable pub byte_to_text_info : ℕ → Node → ℕ → Option TextInfo
  byte_to_text_info fuel self byte_idx = do
    found ← get_chunk_at_byte fuel self byte_idx
    let chunk = found.0
    let info = found.1
    let bi = wrapping_sub byte_idx info.bytes
    let ci = crates.chars_from_byte_idx chunk bi
    surrogates ← byte_to_utf16_surrogate_idx chunk bi
    some (record {
      bytes = byte_idx;
      chars = wrapping_add info.chars ci;
      utf16_surrogates = wrapping_add info.utf16_surrogates surrogates;
      line_breaks = wrapping_add info.line_breaks (crates.lines_from_byte_idx chunk bi);
    })

  unfoldable pub is_char_boundary : ℕ → Node → ℕ → Option Bool
  is_char_boundary fuel self byte_idx = do
    found ← get_chunk_at_byte fuel self byte_idx
    some (Str.is_char_boundary found.0 (wrapping_sub byte_idx found.1.bytes))
