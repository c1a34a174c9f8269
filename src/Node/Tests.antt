-- ===== src/Node/Tests.antt =====
-- Examples of the theorems on src/tree/node.rs, on a tree of three leaves.
use ropey.Common.{ℕ, ◌≡◌, refl, some, List, [], ◌∷◌, arith, length, ◌>>=◌}
use ropey.Str.{continues, next_byte, first_byte}
use ropey.Crates.Reference.{reference, reference-IsDocumented}
use ropey.Crates.Measures.{count_chars}
use ropey.TextInfo.{TextInfo}
use ropey.TextInfo.Laws.{measure}
use ropey.Tree.{Node, leaf, internal, pack, Child, small_chunks, Entries, unpack}
use ropey.Tree.Content.{text, IsTree}
use ropey.Node.{text_info, get_chunk_at_byte, get_chunk_at_char}
use ropey.Node.Info.{text_info-measure}
use ropey.Node.Chunks.{ChunkAt, get_chunk_at_byte_lem, get_chunk_at_char_lem}
use ropey.Node.Edit.{search_char_idx_only}
use ropey.Node.Edit.Search.{search_char_idx_only_lem, chars_only}
use ropey.NodeChildren.{search_char_idx}
use ropey.Node.Divide.{split}
use ropey.Node.Divide.Divided.{AreDivided}
use ropey.Node.Divide.Whole.{split_lem}

abbrev of_text : List ℕ → Child
of_text t = (measure t, leaf t)

abbrev three_children : Entries
three_children = pack (of_text (97 ∷ []) ∷ of_text (0xC3 ∷ 0xA9 ∷ []) ∷ of_text (98 ∷ 10 ∷ []) ∷ [])

abbrev three : Node
three =
    internal (pack (of_text (97 ∷ []) ∷ of_text (0xC3 ∷ 0xA9 ∷ []) ∷ of_text (98 ∷ 10 ∷ []) ∷ []))

three-IsTree : IsTree ⦃lim = small_chunks⦄ 1 three
unfolding continues next_byte first_byte
three-IsTree = (
  omega arith,
  omega arith,
  (
    refl,
    omega arith,
    refl,
    refl,
    (refl, omega arith, refl, refl, (refl, omega arith, refl, refl, tt)),
  ),
)

text_info_example : text_info ⦃crates = reference⦄ three ≡ measure (text three)
text_info_example =
    text_info-measure ⦃lim = small_chunks⦄ ⦃crates = reference⦄ reference-IsDocumented 1 three
      three-IsTree

get_chunk_at_byte_example :
    (chunk : List ℕ) × (offset : TextInfo) × (get_chunk_at_byte 2 three 3 ≡ some (chunk, offset))
    × ChunkAt length (text three) 3 chunk offset
get_chunk_at_byte_example =
    get_chunk_at_byte_lem ⦃lim = small_chunks⦄ 1 2 three 3 three-IsTree (omega arith) (omega arith)
      (omega arith)

get_chunk_at_char_example :
    (chunk : List ℕ) × (offset : TextInfo) × (get_chunk_at_char 2 three 2 ≡ some (chunk, offset))
    × ChunkAt count_chars (text three) 2 chunk offset
get_chunk_at_char_example =
    get_chunk_at_char_lem ⦃lim = small_chunks⦄ 1 2 three 2 three-IsTree (omega arith) (omega arith)
      (omega arith)

search_char_idx_only_example :
    search_char_idx_only (unpack three_children) 2
    ≡ (search_char_idx (unpack three_children) 2 >>= λ found. some (chars_only found))
search_char_idx_only_example = search_char_idx_only_lem (unpack three_children) 2

split_example :
    (l r : Node) × (split ⦃lim = small_chunks⦄ ⦃crates = reference⦄ 2 three 2 ≡ some (l, r))
    × AreDivided ⦃lim = small_chunks⦄ 1 (text three) 2 l r
split_example =
    split_lem ⦃lim = small_chunks⦄ ⦃crates = reference⦄ reference-IsDocumented 1 2 three 2
      three-IsTree (omega arith) (omega arith) (omega arith) (omega arith)
