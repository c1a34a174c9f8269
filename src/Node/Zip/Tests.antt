-- ===== src/Node/Zip/Tests.antt =====
-- Examples of the theorems on `zip_fix_left` and `zip_fix_right` of src/tree/node.rs, on a node of
-- three undersized leaves.
use ropey.Common.{◌≡◌, refl, Bool, false, some, List, ℕ, [], ◌∷◌, arith}
use ropey.Str.{continues, next_byte, first_byte}
use ropey.Crates.Reference.{reference, reference-IsDocumented}
use ropey.TextInfo.Laws.{measure}
use ropey.Tree.{Node, leaf, internal, pack, Child, small_chunks}
use ropey.Tree.Content.{IsTree}
use ropey.Node.Zip.{zip_fix_left, zip_fix_right}
use ropey.Node.Zip.Zipped.{IsZipped}
use ropey.Node.Zip.Left.{zip_fix_left_lem}
use ropey.Node.Zip.Right.{zip_fix_right_lem}

abbrev of_text : List ℕ → Child
of_text t = (measure t, leaf t)

abbrev three : Node
three = internal (pack (of_text (97 ∷ []) ∷ (of_text (98 ∷ []) ∷ (of_text (99 ∷ []) ∷ []))))

three-IsTree : IsTree ⦃lim = small_chunks⦄ 1 three
unfolding continues next_byte first_byte
three-IsTree = (
  omega arith,
  omega arith,
  (
    refl,
    omega arith,
    refl,
    refl,
    (refl, omega arith, refl, refl, (refl, omega arith, refl, refl, tt)),
  ),
)

zip_fix_left_example :
    (did : Bool) × (n' : Node) × (zip_fix_left ⦃lim = small_chunks⦄ ⦃crates = reference⦄ 5 three
      ≡ some (did, n'))
    × IsZipped ⦃lim = small_chunks⦄ 1 three false did n'
zip_fix_left_example =
    zip_fix_left_lem ⦃lim = small_chunks⦄ ⦃crates = reference⦄ reference-IsDocumented 5 1 three
      (omega arith) three-IsTree (omega arith)

zip_fix_right_example :
    (did : Bool) × (n' : Node) × (zip_fix_right ⦃lim = small_chunks⦄ ⦃crates = reference⦄ 5 three
      ≡ some (did, n'))
    × IsZipped ⦃lim = small_chunks⦄ 1 three false did n'
zip_fix_right_example =
    zip_fix_right_lem ⦃lim = small_chunks⦄ ⦃crates = reference⦄ reference-IsDocumented 5 1 three
      (omega arith) three-IsTree (omega arith)
