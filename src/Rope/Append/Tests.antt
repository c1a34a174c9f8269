-- ===== src/Rope/Append/Tests.antt =====
-- Examples of the theorems on `append` of src/rope.rs and on the joins of src/tree/node.rs.
use ropey.Common.{◌≡◌, refl, Option, some, List, ℕ, [], ◌∷◌, ◌++◌, arith}
use ropey.Str.{continues, next_byte, first_byte}
use ropey.Crates.Reference.{reference, reference-IsDocumented}
use ropey.TextInfo.Laws.{measure}
use ropey.Tree.{Node, leaf, internal, pack, Child, small_chunks}
use ropey.Tree.Content.{text, IsTree}
use ropey.Node.Append.{append_at_depth, prepend_at_depth}
use ropey.Node.Append.Joined.{IsJoined}
use ropey.Node.Append.AtEnd.{append_at_depth_lem}
use ropey.Node.Append.AtStart.{IsPrepended, prepend_at_depth_lem}
use ropey.Rope.{Rope}
use ropey.Rope.Append.{append}
use ropey.Rope.Append.Roots.{IsRoot}
use ropey.Rope.Append.Whole.{append_lem}

abbrev of_text : List ℕ → Child
of_text t = (measure t, leaf t)

abbrev one : Rope
one = record { root = leaf (99 ∷ []) }

abbrev two : Rope
two = record { root = internal (pack (of_text (97 ∷ []) ∷ (of_text (98 ∷ []) ∷ []))) }

one-IsTree : IsTree ⦃lim = small_chunks⦄ 0 one.root
unfolding continues next_byte first_byte
one-IsTree = refl

two-IsTree : IsTree ⦃lim = small_chunks⦄ 1 two.root
unfolding continues next_byte first_byte
two-IsTree =
    (omega arith, omega arith, (refl, omega arith, refl, refl, (refl, omega arith, refl, refl, tt)))

append_at_depth_example :
    (node : Node) × (right : Option Node) × (append_at_depth ⦃lim = small_chunks⦄
        ⦃crates = reference⦄ 1 two.root one.root
      ≡ some (node, right))
    × IsJoined ⦃lim = small_chunks⦄ 1 (text two.root ++ text one.root) node right
append_at_depth_example =
    append_at_depth_lem ⦃lim = small_chunks⦄ ⦃crates = reference⦄ reference-IsDocumented 1 0
      two.root one.root two-IsTree one-IsTree (omega arith) (omega arith) refl

prepend_at_depth_example :
    (node : Node) × (left : Option Node) × (prepend_at_depth ⦃lim = small_chunks⦄
        ⦃crates = reference⦄ 1 two.root one.root
      ≡ some (node, left))
    × IsPrepended ⦃lim = small_chunks⦄ 1 (text one.root ++ text two.root) node left
prepend_at_depth_example =
    prepend_at_depth_lem ⦃lim = small_chunks⦄ ⦃crates = reference⦄ reference-IsDocumented 1 0
      two.root one.root two-IsTree one-IsTree (omega arith) (omega arith) refl

append_example :
    (root : Node) × (append ⦃lim = small_chunks⦄ ⦃crates = reference⦄ 3 8 two one
      ≡ some (record { root = root }))
    × IsRoot ⦃lim = small_chunks⦄ 1 0 (text two.root ++ text one.root) root
append_example =
    append_lem ⦃lim = small_chunks⦄ ⦃crates = reference⦄ reference-IsDocumented 1 0 3 8 two one
      two-IsTree one-IsTree (omega arith) (omega arith) (omega arith) (omega arith) (omega arith)
      (omega arith) refl
