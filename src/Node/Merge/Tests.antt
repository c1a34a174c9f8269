-- ===== src/Node/Merge/Tests.antt =====
-- Examples of the theorems on the merges of src/tree/node_children.rs, with the small limits.
use ropey.Common.{ℕ, ◌≤◌, ◌<◌, ◌≡◌, refl, Bool, some, List, [], ◌∷◌, ◌++◌, arith, length, ◌+◌}
use ropey.Str.{continues, next_byte, first_byte}
use ropey.Crates.Reference.{reference, reference-IsDocumented}
use ropey.TextInfo.Laws.{measure}
use ropey.Tree.{Node, leaf, internal, pack, Child, NodeChildren, small_chunks}
use ropey.Tree.Content.{text, children_text, Fits, IsTree}
use ropey.Node.Merge.{merge_nodes, compact_leaves, merge_distribute}
use ropey.Node.Merge.Merged.{AreMerged, merge_nodes_lem}
use ropey.Node.Merge.Compacted.{compact_leaves_lem}
use ropey.Tree.Counts.{nodes}
use ropey.Node.Merge.Distributed.{IsMergedArray, merge_distribute_lem}

abbrev of_text : List ℕ → Child
of_text t = (measure t, leaf t)

abbrev three : NodeChildren
three = of_text (97 ∷ []) ∷ of_text (0xC3 ∷ 0xA9 ∷ []) ∷ of_text (98 ∷ 10 ∷ []) ∷ []

three-Fits : Fits (IsTree ⦃lim = small_chunks⦄ 0) three
unfolding continues next_byte first_byte
three-Fits = (
  refl,
  omega arith,
  refl,
  refl,
  (refl, omega arith, refl, refl, (refl, omega arith, refl, refl, tt)),
)

three-IsTree : IsTree ⦃lim = small_chunks⦄ 1 (internal (pack three))
three-IsTree = (omega arith, omega arith, three-Fits)

merge_nodes_example :
    (merged : Bool) × (l' : Node) × (r' : Node) × (merge_nodes ⦃lim = small_chunks⦄
        ⦃crates = reference⦄
        (internal (pack three))
        (internal (pack three))
      ≡ some (merged, l', r'))
    × AreMerged ⦃lim = small_chunks⦄ 1
        (text (internal (pack three)) ++ text (internal (pack three)))
        (nodes (internal (pack three)) + nodes (internal (pack three)))
        merged
        l'
        r'
merge_nodes_example =
    merge_nodes_lem ⦃lim = small_chunks⦄ ⦃crates = reference⦄ reference-IsDocumented 1
      (internal (pack three)) (internal (pack three)) (omega arith) three-IsTree three-IsTree refl

compact_leaves_example :
    (ds : NodeChildren) × (compact_leaves ⦃lim = small_chunks⦄ ⦃crates = reference⦄ three ≡ some ds)
    × (children_text ds ≡ children_text three)
    × Fits (IsTree ⦃lim = small_chunks⦄ 0) ds
    × (0 < length ds)
    × (length ds ≤ length three)
compact_leaves_example =
    compact_leaves_lem ⦃lim = small_chunks⦄ ⦃crates = reference⦄ reference-IsDocumented three
      three-Fits (omega arith)

merge_distribute_example :
    (merged : Bool) × (ds : NodeChildren) × (merge_distribute ⦃lim = small_chunks⦄
        ⦃crates = reference⦄ three 1 2
      ≡ some (merged, ds))
    × IsMergedArray ⦃lim = small_chunks⦄ 0 three merged ds
merge_distribute_example =
    merge_distribute_lem ⦃lim = small_chunks⦄ ⦃crates = reference⦄ reference-IsDocumented 0
      (of_text (97 ∷ []) ∷ []) [] (of_text (0xC3 ∷ (0xA9 ∷ []))) (of_text (98 ∷ (10 ∷ [])))
      (omega arith) three-Fits
