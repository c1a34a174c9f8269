-- ===== src/NodeChildren/Tests.antt =====
-- Examples of the theorems on src/tree/node_children.rs, with the small arrays of the tests.
use ropey.Common.{ℕ, ◌≡◌, refl, some, List, [], ◌∷◌, ◌++◌, arith, length}
use ropey.Str.{continues, next_byte, first_byte}
use ropey.TextInfo.Laws.{measure}
use ropey.Tree.{leaf, NodeChildren, Child, small_chunks}
use ropey.Tree.Content.{Fits, IsTree}
use ropey.NodeChildren.{insert_split, distribute_with}
use ropey.NodeChildren.Halves.{AreEven, insert_split_lem, distribute_with_lem}

abbrev of_text : List ℕ → Child
of_text t = (measure t, leaf t)

abbrev three : NodeChildren
three = of_text (97 ∷ []) ∷ of_text (0xC3 ∷ 0xA9 ∷ []) ∷ of_text (98 ∷ 10 ∷ []) ∷ []

abbrev five : NodeChildren
five = of_text (97 ∷ []) ∷ of_text (98 ∷ []) ∷ three

three-Fits : Fits (IsTree ⦃lim = small_chunks⦄ 0) three
unfolding continues next_byte first_byte
three-Fits = (
  refl,
  omega arith,
  refl,
  refl,
  (refl, omega arith, refl, refl, (refl, omega arith, refl, refl, tt)),
)

insert_split_example :
    (l : NodeChildren) × (r : NodeChildren) × (insert_split ⦃lim = small_chunks⦄
        (three ++ (of_text (98 ∷ []) ∷ []))
        (length three)
        (of_text (99 ∷ []))
      ≡ some (l, r))
    × AreEven (three ++ of_text (99 ∷ []) ∷ of_text (98 ∷ []) ∷ []) l r
insert_split_example =
    insert_split_lem ⦃lim = small_chunks⦄ three (of_text (98 ∷ []) ∷ []) (of_text (99 ∷ []))
      (omega arith) (omega arith)

distribute_with_example :
    (l : NodeChildren) × (r : NodeChildren) × (distribute_with ⦃lim = small_chunks⦄ five
        (of_text (99 ∷ []) ∷ [])
      ≡ some (l, r))
    × AreEven (five ++ of_text (99 ∷ []) ∷ []) l r
distribute_with_example =
    distribute_with_lem ⦃lim = small_chunks⦄ five (of_text (99 ∷ []) ∷ []) (omega arith)
      (omega arith)
