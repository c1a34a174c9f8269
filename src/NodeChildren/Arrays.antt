-- ===== src/NodeChildren/Arrays.antt =====
-- What the array operations of src/tree/node_children.rs leave, for an array given by its parts.
use ropey.Common.{
  ◌+◌, ◌-◌, ◌≤◌, ◌<◌, ◌≡◌, refl, true, some, [], ◌∷◌, ◌++◌, arith, length, drop, length-append,
  take-append, drop-append, append_assoc, append-nil, ltb, leb, get_elem?-append_middle, lt→ltb,
}
use ropey.Tree.{Limits, Child, NodeChildren}
use ropey.NodeChildren.{push, pop, insert, remove, move_children, split_off, init}
use native.Mathlib.Nat.{suc-add}

pub init-append : (xs : NodeChildren) (c : Child) → init (xs ++ c ∷ []) ≡ xs
init-append xs c =
    let len : length (xs ++ c ∷ []) - 1 ≡ length xs = omega (arith, length-append xs (c ∷ [])) in
    rw (len, take-append)

pub drop-append_cons : (xs ys : NodeChildren) (c : Child) → drop (length xs + 1) (xs ++ c ∷ ys) ≡ ys
drop-append_cons [] ys c = refl
drop-append_cons (x ∷ xs) ys c = rw suc-add (drop-append_cons xs ys c)

module _ ⦃lim : Limits⦄ where
  pub push_lem :
      (cs : NodeChildren) (c : Child)
      → length cs < lim.max_children
      → push cs c ≡ some (cs ++ c ∷ [])
  unfolding push
  push_lem cs c room = rw (lt→ltb _ _ room)

  pub pop_parts : (xs : NodeChildren) (c : Child) → pop (xs ++ c ∷ []) ≡ some (xs, c)
  unfolding pop
  pop_parts xs c =
      let len : length (xs ++ c ∷ []) - 1 ≡ length xs = omega (arith, length-append xs (c ∷ [])) in
      let some_left : ltb 0 (length (xs ++ c ∷ [])) ≡ true =
        ground (arith, length-append xs (c ∷ [])) in
      rw (some_left, len, get_elem?-append_middle, take-append)

  pub insert_parts :
      (xs ys : NodeChildren) (c : Child)
      → length (xs ++ ys) < lim.max_children
      → insert (xs ++ ys) (length xs) c ≡ some (xs ++ c ∷ ys)
  unfolding insert
  insert_parts xs ys c room =
      let in_range : leb (length xs) (length (xs ++ ys)) ≡ true =
        ground (arith, length-append xs ys) in
      rw (in_range, lt→ltb _ _ room, take-append, drop-append)

  pub remove_parts :
      (xs ys : NodeChildren) (c : Child) → remove (xs ++ c ∷ ys) (length xs) ≡ some (xs ++ ys, c)
  unfolding remove
  remove_parts xs ys c =
      let some_left : ltb 0 (length (xs ++ c ∷ ys)) ≡ true =
        ground (arith, length-append xs (c ∷ ys)) in
      let in_range : ltb (length xs) (length (xs ++ c ∷ ys)) ≡ true =
        ground (arith, length-append xs (c ∷ ys)) in
      rw (some_left, in_range, get_elem?-append_middle, take-append, drop-append_cons)

  pub move_children_parts :
      (xs ys zs : NodeChildren)
      → length zs + length ys ≤ lim.max_children
      → move_children (length ys) (length xs) (xs ++ ys) zs ≡ some (xs, zs ++ ys)
  unfolding move_children
  move_children_parts xs [] zs room = simp append-nil
  move_children_parts xs (y ∷ ys) zs room =
      let step =
        move_children_parts xs ys (zs ++ y ∷ []) (omega (arith, length-append zs (y ∷ []))) in
      rw (remove_parts xs ys y, push_lem zs y (omega arith), step, append_assoc)

  pub split_off_parts :
      (xs ys : NodeChildren)
      → length ys ≤ lim.max_children
      → split_off (xs ++ ys) (length xs) ≡ some (xs, ys)
  unfolding split_off
  split_off_parts xs ys room =
      let in_range : leb (length xs) (length (xs ++ ys)) ≡ true =
        ground (arith, length-append xs ys) in
      let len : length (xs ++ ys) - length xs ≡ length ys = omega (arith, length-append xs ys) in
      rw (in_range, len, move_children_parts xs ys [] (omega arith))
