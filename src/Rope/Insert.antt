-- ===== src/Rope/Insert.antt =====
-- `insert_internal` of src/rope.rs, with its two closures: the insertion of a text into a leaf, and
-- of an LF behind the chunk that ends in a CR. A closure returns the variables that it changes.
pub mod Measured
pub mod Leaf
pub mod Closures
pub mod Handled
pub mod Whole
pub mod Char
pub mod Chunks
mod Tests
mod SeamTests
use ropey.Common.{
  ℕ, zero, suc, ◌+◌, ◌-◌, Bool, true, false, not, ◌&&◌, Option, none, some, List, [], ◌∷◌, ltb, leb,
  ◌==◌, if◌then◌else◌, ◌>>=◌, ◌>>◌, length, get_elem?, drop, min, assert,
}
use ropey.Crates.{Crates}
use ropey.Crlf.{cr, lf, find_good_split}
use ropey.Str.{str_slice}
use ropey.TextInfo
use ropey.TextInfo.{TextInfo, add, wrapping_add, wrapping_sub}
use ropey.Tree.{Limits, Node, leaf, internal, Child, pack}
use ropey.NodeText.{NodeText, insert_str, insert_str_split}
use ropey.NodeChildren
use ropey.NodeChildren.{push}
use ropey.Node.{text_info}
use ropey.Node.Edit.{Edited, edit_chunk_at_char}
use ropey.Error.{Error, Result, ok, err}
use ropey.Rope.{Rope, len_chars}

-- `a && b` where `b` may panic, and the test of a byte, which panics out of range.
infixr 30 ◌&&?◌
abbrev pub ◌&&?◌ : Option Bool → Option Bool → Option Bool
a &&? b = a >>= λ x. if x then b else some false

abbrev pub is_at : List ℕ → ℕ → ℕ → Option Bool
is_at t i b = get_elem? t i >>= λ x. some (x == b)

-- Whether the insertion makes a CRLF pair with the text to its left or right, or parts one.
abbrev pub joins_left : NodeText → ℕ → List ℕ → Option Bool
joins_left leaf_text byte_idx ins_text =
    some (ltb 0 byte_idx) &&? is_at leaf_text (byte_idx - 1) cr &&? is_at ins_text 0 lf

abbrev pub parts_pair : NodeText → ℕ → Option Bool
parts_pair leaf_text byte_idx =
    some (ltb 0 byte_idx)
    &&? some (ltb byte_idx (length leaf_text))
    &&? is_at leaf_text (byte_idx - 1) cr
    &&? is_at leaf_text byte_idx lf

abbrev pub joins_right : NodeText → ℕ → List ℕ → Option Bool
joins_right leaf_text byte_idx ins_text =
    some (ltb byte_idx (length leaf_text))
    &&? is_at ins_text (length ins_text - 1) cr
    &&? is_at leaf_text byte_idx lf

abbrev pub lf_info : TextInfo → Bool → TextInfo
lf_info cur_info after_cr = record {
  bytes = wrapping_add cur_info.bytes 1;
  chars = wrapping_add cur_info.chars 1;
  utf16_surrogates = cur_info.utf16_surrogates;
  line_breaks = if after_cr then cur_info.line_breaks else wrapping_add cur_info.line_breaks 1;
}

-- "First check if we have a left seam."
unfoldable pub has_left_seam : ℕ → List ℕ → ℕ → Option Bool
has_left_seam char_idx ins_text idx =
    some (idx == 0) &&? some (ltb 0 char_idx) &&? is_at ins_text 0 lf

-- The three corrections of the line breaks at the seams of an insertion.
abbrev pub seam_breaks : ℕ → Bool → Bool → Bool → ℕ
seam_breaks n left parted right =
    let n = if left then wrapping_sub n 1 else n in
    let n = if parted then wrapping_add n 1 else n in if right then wrapping_sub n 1 else n

module _ ⦃crates : Crates⦄ where
  -- The text info of the edited leaf, without a scan of its text.
  unfoldable pub inserted_info : TextInfo → NodeText → ℕ → List ℕ → Option TextInfo
  inserted_info cur_info leaf_text byte_idx ins_text = do
    let info = add cur_info (TextInfo.from_str ins_text)
    left ← joins_left leaf_text byte_idx ins_text
    parted ← parts_pair leaf_text byte_idx
    right ← joins_right leaf_text byte_idx ins_text
    some (record {
      bytes = info.bytes;
      chars = info.chars;
      utf16_surrogates = info.utf16_surrogates;
      line_breaks = seam_breaks info.line_breaks left parted right;
    })

  -- "No node splitting"
  unfoldable pub insert_here {ℓ} :
      {S : Type ℓ} → S → TextInfo → NodeText → ℕ → List ℕ → Option (Edited S NodeText)
  insert_here s cur_info leaf_text byte_idx ins_text = do
    new_info ← inserted_info cur_info leaf_text byte_idx ins_text
    text ← insert_str leaf_text byte_idx ins_text
    some (s, text, new_info, none)

  -- "We're splitting the node"
  unfoldable pub split_leaf {ℓ} :
      {S : Type ℓ} → S → NodeText → ℕ → List ℕ → Option (Edited S NodeText)
  split_leaf s leaf_text byte_idx ins_text = do
    (l_text, r_text) ← insert_str_split leaf_text byte_idx ins_text
    let l_text_info = TextInfo.from_str l_text
    some (
        if ltb 0 (length r_text)
        then (s, l_text, l_text_info, some (TextInfo.from_str r_text, leaf r_text))
        else (s, l_text, l_text_info, none))

module _ ⦃lim : Limits⦄ ⦃crates : Crates⦄ where
  unfoldable pub insert_at {ℓ} :
      {S : Type ℓ} → S → ℕ → TextInfo → NodeText → List ℕ → Option (Edited S NodeText)
  insert_at s idx cur_info leaf_text ins_text =
      let byte_idx = crates.chars_to_byte_idx leaf_text idx in
      if leb (length leaf_text + length ins_text) lim.max_bytes
      then insert_here s cur_info leaf_text byte_idx ins_text
      else split_leaf s leaf_text byte_idx ins_text

  -- Behind the test for a left seam.
  unfoldable pub insert_rest :
      Bool → List ℕ → ℕ → TextInfo → NodeText → Option (Edited (Bool × List ℕ) NodeText)
  insert_rest left_seam ins_text idx cur_info leaf_text =
      let ins = if left_seam then drop 1 ins_text else ins_text in
      if left_seam && length ins == 0
      then some ((left_seam, ins), leaf_text, cur_info, none)
      else insert_at (left_seam, ins) idx cur_info leaf_text ins

  -- The first closure: it captures `left_seam` and `ins_text`.
  unfoldable pub insert_text :
      ℕ → List ℕ → ℕ → TextInfo → NodeText → Option (Edited (Bool × List ℕ) NodeText)
  insert_text char_idx ins_text idx cur_info leaf_text = do
    left_seam ← has_left_seam char_idx ins_text idx
    insert_rest left_seam ins_text idx cur_info leaf_text

  -- The second closure, which inserts an LF at the end. As in the source, the test of the size
  -- counts the text that was inserted before, and not the LF.
  unfoldable pub insert_lf : List ℕ → ℕ → TextInfo → NodeText → Option (Edited (Unit {0}) NodeText)
  insert_lf ins_text _ cur_info leaf_text =
      let byte_idx = length leaf_text in
      if leb (length leaf_text + length ins_text) lim.max_bytes
      then (do
        after_cr ← is_at leaf_text (length leaf_text - 1) cr
        text ← insert_str leaf_text byte_idx (lf ∷ [])
        some (tt, text, lf_info cur_info after_cr, none))
      else split_leaf tt leaf_text byte_idx (lf ∷ [])

  -- "Handle root splitting, if any."
  unfoldable pub grow_root : Node → TextInfo → Option Child → Option Node
  grow_root l_node l_info none = some l_node
  grow_root l_node l_info (some (r_info, r_node)) = do
    children ← push NodeChildren.new (l_info, l_node)
    children ← push children (r_info, r_node)
    some (internal (pack children))

  unfoldable pub insert_internal : ℕ → Rope → ℕ → List ℕ → Option Rope
  insert_internal fuel self char_idx ins_text = do
    (captured, node, l_info, residual) ←
        edit_chunk_at_char fuel self.root char_idx (text_info self.root)
          (insert_text char_idx ins_text)
    root ← grow_root node l_info residual
    if captured.0
        then (do
          (_, node, l_info, residual) ←
              edit_chunk_at_char (fuel + 1) root (wrapping_sub char_idx 1) (text_info root)
                (insert_lf captured.1)
          root ← grow_root node l_info residual
          some (record { root = root }))
        else some (record { root = root })

  -- `ch` is the encoded char.
  unfoldable pub try_insert_char : ℕ → Rope → ℕ → List ℕ → Option (Result Rope)
  try_insert_char fuel self char_idx ch =
      if leb char_idx (len_chars self)
      then (do rope ← insert_internal fuel self char_idx ch; some (ok rope))
      else some (err (Error.char_index_out_of_bounds char_idx (len_chars self)))
