-- ===== src/Node/Zip/Right.antt =====
-- `zip_fix_right` of src/tree/node.rs as a whole.
use ropey.Common.{
  ℕ, zero, suc, ◌+◌, ◌-◌, ◌≤◌, ◌<◌, ◌≡◌, refl, sym, ◌∙◌, ap, inl, inr, Bool, true, false, ◌||◌,
  some, [], ◌∷◌, ◌++◌, arith, ltb, if◌then◌else◌, length, length-append, append_assoc, Bool-cases,
  subst, get_elem?-append_middle, Option,
}
use ropey.Crates.{Crates, IsDocumented}
use ropey.Tree.{Limits, Node, leaf, internal, Entries, Child, NodeChildren, pack, unpack}
use ropey.Tree.Content.{Fits, IsTree}
use ropey.Tree.Counts.{nodes, children_nodes-append, entries_nodes-unpack}
use ropey.NodeChildren.Halves.{last_of}
use ropey.NodeChildren.Infos.{Fits-suffix}
use ropey.Node.{is_undersized}
use ropey.Node.Info.{IsTree-IsStr}
use ropey.Node.Merge.{merge_distribute}
use ropey.Node.Merge.Leaves.{set_child_parts}
use ropey.Node.Merge.Distributed.{IsMergedArray, merge_distribute_lem, second_of}
use ropey.Node.Zip.{merge_last, zip_right, zip_fix_right}
use ropey.Node.Zip.Zipped.{IsZipped, IsZipStep, step_lem, finished, continued}

pub last_index : (xs : NodeChildren) (c : Child) → length (xs ++ c ∷ []) - 1 ≡ length xs
last_index xs c = omega (arith, length-append xs (c ∷ []))

some_left : (n m : ℕ) (merged : Bool) → n + (if merged then 1 else 0) ≡ m → 1 < m → 0 < n
some_left n m true e h = omega (arith, e)
some_left n m false e h = omega (arith, e)

module _ ⦃lim : Limits⦄ ⦃crates : Crates⦄ where
  -- What `merge_last` leaves.
  abbrev MergesLast : ℕ → NodeChildren → Type 0
  MergesLast d cs =
      (merged : Bool) × (xs : NodeChildren) × (c : Child) × (merge_last cs
        ≡ some (merged, xs ++ c ∷ []))
      × IsMergedArray d cs merged (xs ++ c ∷ [])

  merge_step :
      (ys : NodeChildren) (b c : Child)
      → is_undersized c.1 ≡ true
      → merge_last (ys ++ b ∷ (c ∷ []))
        ≡ merge_distribute (ys ++ b ∷ (c ∷ [])) (length ys) (length ys + 1)
  unfolding merge_last
  merge_step ys b c small =
      let len = length-append ys (b ∷ (c ∷ [])) in
      let more : ltb 1 (length (ys ++ b ∷ (c ∷ []))) ≡ true = ground (arith, len) in
      let place : length (ys ++ b ∷ (c ∷ [])) - 1 ≡ length ys + 1 = omega (arith, len) in
      let before : length ys + 1 - 1 ≡ length ys = omega arith in
      rw (place, second_of ys [] b c, more, small, before) refl

  merge_last_two :
      (docs : IsDocumented crates) (d : ℕ) (ys : NodeChildren) (b c : Child)
      → 7 ≤ lim.max_bytes
      → Fits (IsTree d) (ys ++ b ∷ (c ∷ []))
      → MergesLast d (ys ++ b ∷ (c ∷ []))
  unfolding merge_last
  merge_last_two docs d ys b c long h =
      let len = length-append ys (b ∷ (c ∷ [])) in
      let more : ltb 1 (length (ys ++ b ∷ (c ∷ []))) ≡ true = ground (arith, len) in
      let place : length (ys ++ b ∷ (c ∷ [])) - 1 ≡ length ys + 1 = omega (arith, len) in
      elim (Bool-cases (is_undersized c.1)) [
        | inl small ↦
            let (merged, ds, eq, m) = merge_distribute_lem docs d ys [] b c long h in
            let (xs, c', shape) = last_of ds (
              some_left (length ds) (length (ys ++ b ∷ (c ∷ []))) merged m.shorter
                (omega (arith, len))) in
            (
              merged,
              xs,
              c',
              merge_step ys b c small ∙ (eq ∙ ap (λ x. some (merged, x)) shape),
              subst (IsMergedArray d (ys ++ b ∷ (c ∷ [])) merged) shape m,
            )
        | inr large ↦ (
          false,
          ys ++ b ∷ [],
          c,
          rw (place, second_of ys [] b c, more, large, append_assoc) refl,
          rw append_assoc (record {
            same_text = refl;
            fits = h;
            fewer_nodes = omega arith;
            shorter = omega arith;
          }),
        )
      ]

  merge_last_lem :
      (docs : IsDocumented crates) (d : ℕ) (cs : NodeChildren)
      → 7 ≤ lim.max_bytes
      → Fits (IsTree d) cs
      → 0 < length cs
      → MergesLast d cs
  unfolding merge_last
  merge_last_lem docs d [] long h pos = absurd (omega arith)
  merge_last_lem docs d (c ∷ []) long h pos = (
    false,
    [],
    c,
    refl,
    record { same_text = refl; fits = h; fewer_nodes = omega arith; shorter = omega arith },
  )
  merge_last_lem docs d (a ∷ (e ∷ cs)) long h pos =
      let (zs, c, p) = last_of (e ∷ cs) (omega arith) in
      let (ys, b, q) = last_of (a ∷ zs) (omega arith) in
      let shape : a ∷ (e ∷ cs) ≡ ys ++ b ∷ (c ∷ []) =
        ap (λ t. a ∷ t) p ∙ (ap (λ t. t ++ c ∷ []) q ∙ append_assoc ys (b ∷ []) (c ∷ [])) in
      subst (MergesLast d) (sym shape)
        (merge_last_two docs d ys b c long (subst (Fits (IsTree d)) shape h))

  zip_right_step :
      (fuel : ℕ) (did merged again : Bool) (es : Entries) (xs : NodeChildren) (c : Child)
      (child : Node) (result : Option (Bool × Node))
      → merge_last (unpack es) ≡ some (merged, xs ++ c ∷ [])
      → zip_right fuel false c.1 ≡ some (again, child)
      → (if again
          then zip_right fuel (did || merged) (internal (pack (xs ++ (c.0, child) ∷ [])))
          else some (did || merged, internal (pack (xs ++ (c.0, child) ∷ []))))
        ≡ result
      → zip_right (suc fuel) did (internal es) ≡ result
  unfolding zip_right
  zip_right_step fuel did merged again es xs c child result h0 h1 h2 =
      rw
        (
          h0,
          last_index xs c,
          get_elem?-append_middle xs (c ∷ []),
          h1,
          set_child_parts xs [] c (c.0, child),
        )
        h2

  zip_right_lem :
      (docs : IsDocumented crates) (fuel d : ℕ) (did : Bool) (n : Node)
      → 7 ≤ lim.max_bytes
      → IsTree d n
      → nodes n < fuel
      → (did' : Bool) × (n' : Node) × (zip_right fuel did n ≡ some (did', n'))
        × IsZipped d n did did' n'
  unfolding zip_right
  zip_right_lem docs zero d did n long h enough = absurd (omega arith)
  zip_right_lem docs (suc fuel) zero did (leaf t) long h enough = (
    false,
    leaf t,
    refl,
    record { same_text = refl; tree = h; not_more = omega arith; fewer = λ e. cc },
  )
  zip_right_lem docs (suc fuel) zero did (internal es) long h enough = absurd h
  zip_right_lem docs (suc fuel) (suc d) did (leaf t) long h enough = absurd h
  zip_right_lem docs (suc fuel) (suc d) did (internal es) long h enough =
      let (merged, xs, c, e, m) = merge_last_lem docs d (unpack es) long h.2 h.0 in
      let here = Fits-suffix (IsTree d) (IsTree-IsStr d) xs (c ∷ []) m.fits in
      let below : nodes c.1 < fuel = omega (
        arith,
        enough,
        entries_nodes-unpack es,
        m.fewer_nodes,
        children_nodes-append xs (c ∷ []),
      ) in
      let (again, child, e', z) = zip_right_lem docs fuel d false c.1 long here.0 below in
      let n' = internal (pack (xs ++ (c.0, child) ∷ [])) in
      let step = step_lem d es merged again xs [] c child h m z in
      elim (Bool-cases again) [
        | inr done ↦ (
          did || merged,
          n',
          zip_right_step fuel did merged again es xs c child _ e e' (rw done refl),
          finished (suc d) (internal es) n' did merged
              (subst (λ b. IsZipStep (suc d) (internal es) merged b n') done step),
        )
        | inl more ↦
            let (did', n'', e'', rest) =
              zip_right_lem docs fuel (suc d) (did || merged) n' long step.tree
                (omega (arith, enough, step.nearer more)) in
            (
              did',
              n'',
              zip_right_step fuel did merged again es xs c child _ e e' (rw more e''),
              continued (suc d) (internal es) n' did merged did' n''
                  (subst (λ b. IsZipStep (suc d) (internal es) merged b n') more step) rest,
            )
      ]

  -- With a limit of at least seven bytes for a leaf, and more fuel than there are nodes,
  -- `zip_fix_right` ends without a panic on a balanced tree, and leaves a balanced tree of the same
  -- depth with the same text and no more nodes; fewer, if it returns that it did something.
  pub zip_fix_right_lem :
      (docs : IsDocumented crates) (fuel d : ℕ) (n : Node)
      → 7 ≤ lim.max_bytes
      → IsTree d n
      → nodes n < fuel
      → (did : Bool) × (n' : Node) × (zip_fix_right fuel n ≡ some (did, n'))
        × IsZipped d n false did n'
  unfolding zip_fix_right
  zip_fix_right_lem docs fuel d n long h enough = zip_right_lem docs fuel d false n long h enough
