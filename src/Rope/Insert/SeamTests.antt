-- ===== src/Rope/Insert/SeamTests.antt =====
-- Tests of `insert_internal` (src/rope.rs) with an LF in front, at the start of a leaf.
use ropey.Common.{◌≡◌, refl, some, List, ℕ, [], ◌∷◌, ◌>>=◌}
use ropey.NodeText
use ropey.TextInfo
use ropey.Crates.Reference.{reference}
use ropey.TextInfo.Laws.{measure}
use ropey.Tree.{leaf, internal, pack, Child, small_chunks}
use ropey.Tree.Content.{text}
use ropey.Rope.{Rope}
use ropey.Rope.Insert.{
  insert_internal, insert_text, has_left_seam, insert_rest, insert_at, insert_here, inserted_info,
  grow_root, insert_lf, split_leaf,
}
use ropey.Node.Edit.{
  edit_chunk_at_char, compact_fragments, search_char_idx_only, count_from, place_residual,
}
use ropey.NodeText.{
  insert_str, byte_after_insert, fill_buf, find_split, seam_split, from_str, push_str, remove_range,
  truncate, truncate_front, split_before, split_inside, split_after, insert_str_split,
  push_str_split, move_to_right, move_to_left, fix_segment_seam,
}
use ropey.Node.Merge.{set_child, compact_step, compact_from, compact_leaves}
use ropey.NodeChildren.{
  push, pop, insert, remove, move_children, split_off, push_split, insert_split, sum_infos,
  combined_info,
}
use ropey.Crlf.{
  is_break, seam_is_break, walk_back, prev_break, walk_forward, next_break, nearest_internal_break,
}
use ropey.TextInfo.{add, sub}
use ropey.Str.{str_slice}
use ropey.Node.{text_info}

abbrev chunk : List ℕ → Child
chunk t = (measure t, leaf t)

abbrev lf_and_four : List ℕ
lf_and_four = 10 ∷ (87 ∷ (88 ∷ (89 ∷ (90 ∷ []))))

-- With two leaves, the LF goes to the end of the first one.
abbrev roomy : Rope
roomy = record { root = internal (pack (chunk (1 ∷ (2 ∷ [])) ∷ (chunk (3 ∷ (4 ∷ [])) ∷ []))) }

insert_lf_front :
    (insert_internal ⦃lim = small_chunks⦄ ⦃crates = reference⦄ 5 roomy 2 (10 ∷ (87 ∷ [])) >>= λ x.
    some (text x.root))
    ≡ some (1 ∷ (2 ∷ (10 ∷ (87 ∷ (3 ∷ (4 ∷ []))))))
unfolding insert_internal reference edit_chunk_at_char compact_fragments search_char_idx_only
    count_from insert_text has_left_seam insert_rest insert_at insert_here inserted_info insert_str
    set_child place_residual grow_root insert_lf
insert_lf_front = refl

-- Here the first edit splits a leaf and fills the root, and the second one compacts the leaves
-- before it looks for the char: the LF goes to the end of a longer leaf, behind 90 and 3 and 4.
abbrev crowded : Rope
crowded = record {
  root = internal (
      pack (
        chunk (1 ∷ (2 ∷ []))
        ∷ (chunk (3 ∷ (4 ∷ (5 ∷ (6 ∷ (7 ∷ (8 ∷ []))))))
            ∷ (chunk (9 ∷ []) ∷ (chunk (11 ∷ []) ∷ [])))));
}

insert_lf_behind_compaction :
    (insert_internal ⦃lim = small_chunks⦄ ⦃crates = reference⦄ 5 crowded 2 lf_and_four >>= λ x.
    some (text x.root))
    ≡ some (
        1
        ∷ (2
            ∷ (87
                ∷ (88 ∷ (89 ∷ (90 ∷ (3 ∷ (4 ∷ (10 ∷ (5 ∷ (6 ∷ (7 ∷ (8 ∷ (9 ∷ (11 ∷ [])))))))))))))))
unfolding reference has_left_seam inserted_info insert_here split_leaf insert_at insert_rest
    insert_text insert_lf grow_root insert_internal count_from search_char_idx_only
    compact_fragments place_residual edit_chunk_at_char set_child compact_step compact_from
    compact_leaves push pop insert remove move_children split_off push_split insert_split sum_infos
    combined_info byte_after_insert fill_buf find_split insert_str truncate_front split_before
    split_inside split_after insert_str_split move_to_right move_to_left fix_segment_seam is_break
    seam_is_break walk_back prev_break walk_forward next_break nearest_internal_break add sub
    str_slice text_info push_str truncate remove_range NodeText.from_str TextInfo.from_str
insert_lf_behind_compaction = refl
