-- ===== src/NodeChildren/Halves.antt =====
-- The operations of src/tree/node_children.rs that part an array in two, or even two out.
use ropey.Common.{
  ℕ, zero, suc, ◌+◌, ◌-◌, ◌/◌, ◌≤◌, ◌<◌, ◌≡◌, refl, ap, sym, true, inl, inr, some, [], ◌∷◌, ◌++◌,
  arith, length, take, drop, length-append, length-take, length-drop, take-append-drop,
  append_assoc, append-nil, ltb, leb, Bool-cases, max, ◌∙◌, subst,
}
use ropey.Tree.{Limits, Child, NodeChildren}
use ropey.NodeChildren.{
  pop, split_off, push_split, insert_split, shift_right, shift_left, distribute_with,
}
use ropey.NodeChildren.Arrays.{push_lem, pop_parts, insert_parts, remove_parts, split_off_parts}

-- Two arrays that join to the children, the right one with half of them, rounded down.
pub record AreEven (cs l r : NodeChildren) : Type 0 where
  pub joins : l ++ r ≡ cs
  pub right_len : length r ≡ length cs / 2

-- A list that is not empty has a last element.
pub last_of :
    (cs : NodeChildren) → 0 < length cs → (xs : NodeChildren) × (c : Child) × (cs ≡ xs ++ c ∷ [])
last_of [] h = absurd (omega arith)
last_of (c ∷ []) h = ([], c, refl)
last_of (c ∷ (d ∷ cs)) h =
    let (xs, e, p) = last_of (d ∷ cs) (omega arith) in (c ∷ xs, e, ap (λ t. c ∷ t) p)

module _ ⦃lim : Limits⦄ where
  split_off_lem :
      (cs : NodeChildren) (i : ℕ)
      → i ≤ length cs
      → length cs ≤ lim.max_children
      → split_off cs i ≡ some (take i cs, drop i cs)
  split_off_lem cs i h room =
      let len : length (take i cs) ≡ i = omega (arith, length-take i cs) in
      rw (take-append-drop, len) at
        (split_off_parts (take i cs) (drop i cs) (omega (arith, length-drop i cs)))

  -- For an array that is not empty and within the maximum, `push_split` does not panic and evens the
  -- halves out, with the new child at the end.
  pub push_split_lem :
      (cs : NodeChildren) (c : Child)
      → 0 < length cs
      → length cs ≤ lim.max_children
      → (l : NodeChildren) × (r : NodeChildren) × (push_split cs c ≡ some (l, r))
        × AreEven (cs ++ c ∷ []) l r
  unfolding push_split
  push_split_lem cs c pos room =
      let k = length cs + 1 - (length cs + 1) / 2 in
      let len = length-drop k cs in
      (
        take k cs,
        drop k cs ++ c ∷ [],
        rw (split_off_lem cs k (omega arith) room, push_lem (drop k cs) c (omega arith)),
        record {
          joins = rw (← append_assoc, take-append-drop);
          right_len = omega (arith, length-append (drop k cs) (c ∷ []), length-append cs (c ∷ []));
        },
      )

  insert_split_inside :
      (xs zs : NodeChildren) (c e : Child)
      → length (xs ++ (zs ++ e ∷ [])) ≤ lim.max_children
      → insert_split (xs ++ (zs ++ e ∷ [])) (length xs) c ≡ push_split (xs ++ c ∷ zs) e
  unfolding insert_split
  insert_split_inside xs zs c e room =
      let len = length-append xs (zs ++ e ∷ []) in
      let len' = length-append zs (e ∷ []) in
      let some_left : ltb 0 (length (xs ++ (zs ++ e ∷ []))) ≡ true = ground (arith, len, len') in
      let in_range : leb (length xs) (length (xs ++ (zs ++ e ∷ []))) ≡ true = ground (arith, len) in
      let inside : ltb (length xs) (length (xs ++ (zs ++ e ∷ []))) ≡ true =
        ground (arith, len, len') in
      let popped : pop (xs ++ (zs ++ e ∷ [])) ≡ some (xs ++ zs, e) =
        rw (← append_assoc) (pop_parts (xs ++ zs) e) in
      let inserted = insert_parts xs zs c (omega (arith, len, len', length-append xs zs)) in
      rw (some_left, in_range, inside, popped, inserted)

  insert_split_end :
      (xs : NodeChildren) (c : Child)
      → 0 < length xs
      → insert_split xs (length xs) c ≡ push_split xs c
  unfolding insert_split
  insert_split_end xs c pos = ground arith

  insert_split_last :
      (xs zs : NodeChildren) (c e : Child)
      → length (xs ++ (zs ++ e ∷ [])) ≤ lim.max_children
      → (l : NodeChildren) × (r : NodeChildren) × (insert_split (xs ++ (zs ++ e ∷ [])) (length xs) c
          ≡ some (l, r))
        × AreEven (xs ++ c ∷ (zs ++ e ∷ [])) l r
  insert_split_last xs zs c e room =
      let len = length-append xs (zs ++ e ∷ []) in
      let len' = length-append zs (e ∷ []) in
      let len'' = length-append xs (c ∷ zs) in
      let (l, r, q, even) =
        push_split_lem (xs ++ c ∷ zs) e (omega (arith, len'')) (omega (arith, len, len', len'')) in
      (
        l,
        r,
        insert_split_inside xs zs c e room ∙ q,
        subst (λ t. AreEven t l r) (append_assoc xs (c ∷ zs) (e ∷ [])) even,
      )

  -- For an array that is not empty and within the maximum, and an index in it or at its end,
  -- `insert_split` does not panic
  -- and evens the halves out, with the new child at the index.
  pub insert_split_lem :
      (xs ys : NodeChildren) (c : Child)
      → 0 < length (xs ++ ys)
      → length (xs ++ ys) ≤ lim.max_children
      → (l : NodeChildren) × (r : NodeChildren) × (insert_split (xs ++ ys) (length xs) c
          ≡ some (l, r))
        × AreEven (xs ++ c ∷ ys) l r
  insert_split_lem xs [] c pos room =
      let pos' : 0 < length xs = rw append-nil at pos in
      let (l, r, e, even) = push_split_lem xs c pos' (rw append-nil at room) in
      (l, r, rw append-nil (insert_split_end xs c pos' ∙ e), even)
  insert_split_lem xs (y ∷ ys) c pos room =
      let (zs, e, p) = last_of (y ∷ ys) (omega arith) in
      rw p (insert_split_last xs zs c e (rw p at room))

  shift_right_lem :
      (fuel target : ℕ) (a b : NodeChildren)
      → length a < fuel
      → target ≤ length a + length b
      → target ≤ lim.max_children
      → (l : NodeChildren) × (r : NodeChildren) × (shift_right fuel target a b ≡ some (l, r))
        × (l ++ r ≡ a ++ b)
        × (length r ≡ max (length b) target)
  unfolding shift_right
  shift_right_lem zero target a b f t room = absurd (omega arith)
  shift_right_lem (suc fuel) target a b f t room = elim (Bool-cases (ltb (length b) target)) [
    | inr done ↦ (a, b, rw done, refl, ground arith)
    | inl more ↦
        let less : length b < target = ground arith in
        let (xs, c, p) = last_of a (omega arith) in
        let step : pop a ≡ some (xs, c) = rw p (pop_parts xs c) in
        let put = insert_parts [] b c (omega arith) in
        let moved : xs ++ (c ∷ b) ≡ a ++ b = rw (p, append_assoc) refl in
        let len : length a ≡ length xs + 1 = ap length p ∙ length-append xs (c ∷ []) in
        let (l, r, e, joins, size) =
          shift_right_lem fuel target xs (c ∷ b) (omega arith) (omega arith) room in
        (l, r, rw (more, step, put) e, joins ∙ moved, omega arith)
  ]

  shift_left_lem :
      (fuel target : ℕ) (a b : NodeChildren)
      → length b < fuel
      → target ≤ length b
      → length a + length b ≤ target + lim.max_children
      → (l : NodeChildren) × (r : NodeChildren) × (shift_left fuel target a b ≡ some (l, r))
        × (l ++ r ≡ a ++ b)
        × (length r ≡ target)
  unfolding shift_left
  shift_left_lem zero target a b f t room = absurd (omega arith)
  shift_left_lem (suc fuel) target a [] f t room = (a, [], ground arith, refl, omega arith)
  shift_left_lem (suc fuel) target a (c ∷ b) f t room =
      elim (Bool-cases (ltb target (suc (length b)))) [
        | inr done ↦ (a, c ∷ b, rw done, refl, ground arith)
        | inl more ↦
            let less : target < suc (length b) = ground arith in
            let (l, r, e, joins, size) =
              shift_left_lem fuel target (a ++ c ∷ []) b (omega arith) (omega arith)
                (omega (arith, length-append a (c ∷ []))) in
            (
              l,
              r,
              rw (more, remove_parts [] b c, push_lem a c (omega arith)) e,
              joins ∙ append_assoc a (c ∷ []) b,
              size,
            )
      ]

  -- For two arrays within the maximum, `distribute_with` does not panic, keeps the order of all children, and evens them out.
  pub distribute_with_lem :
      (a b : NodeChildren)
      → length a ≤ lim.max_children
      → length b ≤ lim.max_children
      → (l : NodeChildren) × (r : NodeChildren) × (distribute_with a b ≡ some (l, r))
        × AreEven (a ++ b) l r
  unfolding distribute_with
  distribute_with_lem a b ha hb =
      let target = (length a + length b) / 2 in
      let len = length-append a b in
      let (l, r, e, joins, size) =
        shift_right_lem (suc (length a)) target a b (omega arith) (omega arith) (omega arith) in
      let total : length l + length r ≡ length a + length b =
        omega (arith, ap length joins, length-append l r, len) in
      let (l', r', e', joins', size') =
        shift_left_lem (suc (length r)) target l r (omega arith) (omega arith) (omega arith) in
      (
        l',
        r',
        rw e e',
        record { joins = joins' ∙ joins; right_len = size' ∙ ap (λ t. t / 2) (sym len) },
      )
