-- ===== src/Node/FixSeam/Tests.antt =====
-- An example of the theorem on `fix_tree_seam` of src/tree/node.rs, on a node of three undersized
-- leaves.
use ropey.Common.{◌≡◌, refl, Bool, false, some, List, ℕ, [], ◌∷◌, arith}
use ropey.Str.{continues, next_byte, first_byte}
use ropey.Crates.Reference.{reference, reference-IsDocumented}
use ropey.TextInfo.Laws.{measure}
use ropey.Tree.{Node, leaf, internal, pack, Child, small_chunks}
use ropey.Tree.Content.{IsTree}
use ropey.Node.Zip.Zipped.{IsZipped}
use ropey.Node.FixSeam.{fix_tree_seam}
use ropey.Node.FixSeam.Fixed.{fix_tree_seam_lem}

abbrev of_text : List ℕ → Child
of_text t = (measure t, leaf t)

abbrev three : Node
three = internal (pack (of_text (97 ∷ []) ∷ (of_text (98 ∷ []) ∷ (of_text (99 ∷ []) ∷ []))))

three-IsTree : IsTree ⦃lim = small_chunks⦄ 1 three
unfolding continues next_byte first_byte
three-IsTree = (
  omega arith,
  omega arith,
  (
    refl,
    omega arith,
    refl,
    refl,
    (refl, omega arith, refl, refl, (refl, omega arith, refl, refl, tt)),
  ),
)

fix_tree_seam_example :
    (did : Bool) × (n' : Node) × (fix_tree_seam ⦃lim = small_chunks⦄ ⦃crates = reference⦄ 5 three 1
      ≡ some (did, n'))
    × IsZipped ⦃lim = small_chunks⦄ 1 three false did n'
fix_tree_seam_example =
    fix_tree_seam_lem ⦃lim = small_chunks⦄ ⦃crates = reference⦄ reference-IsDocumented (omega arith)
      5 1 three 1 three-IsTree (omega arith) (omega arith) (omega arith)
