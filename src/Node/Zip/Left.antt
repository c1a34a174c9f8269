-- ===== src/Node/Zip/Left.antt =====
-- `zip_fix_left` of src/tree/node.rs as a whole.
use ropey.Common.{
  ℕ, zero, suc, ◌≤◌, ◌<◌, ◌≡◌, refl, ◌∙◌, ap, inl, inr, Bool, true, false, ◌||◌, some, [], ◌∷◌,
  arith, ltb, if◌then◌else◌, length, Bool-cases, subst, Option,
}
use ropey.Crates.{Crates, IsDocumented}
use ropey.Tree.{Limits, Node, leaf, internal, Entries, Child, NodeChildren, pack, unpack}
use ropey.Tree.Content.{Fits, IsTree}
use ropey.Tree.Counts.{nodes, entries_nodes-unpack}
use ropey.Node.{is_undersized}
use ropey.Node.Merge.Leaves.{set_child_parts}
use ropey.Node.Merge.Distributed.{IsMergedArray, merge_distribute_lem}
use ropey.Node.Zip.{merge_first, zip_left, zip_fix_left}
use ropey.Node.Zip.Zipped.{IsZipped, IsZipStep, step_lem, finished, continued}

module _ ⦃lim : Limits⦄ ⦃crates : Crates⦄ where
  first_of :
      (d : ℕ) (cs : NodeChildren) (merged : Bool) (ds : NodeChildren)
      → 1 < length cs
      → IsMergedArray d cs merged ds
      → (c : Child) × (rest : NodeChildren) × (ds ≡ c ∷ rest)
  first_of d cs merged (c ∷ rest) more m = (c, rest, refl)
  first_of d cs true [] more m = absurd (omega (arith, m.shorter))
  first_of d cs false [] more m = absurd (omega (arith, m.shorter))

  merge_first_lem :
      (docs : IsDocumented crates) (d : ℕ) (cs : NodeChildren)
      → 7 ≤ lim.max_bytes
      → Fits (IsTree d) cs
      → 0 < length cs
      → (merged : Bool) × (c : Child) × (ds : NodeChildren) × (merge_first cs
          ≡ some (merged, c ∷ ds))
        × IsMergedArray d cs merged (c ∷ ds)
  unfolding merge_first
  merge_first_lem docs d [] long h pos = absurd (omega arith)
  merge_first_lem docs d (c ∷ []) long h pos = (
    false,
    c,
    [],
    refl,
    record { same_text = refl; fits = h; fewer_nodes = omega arith; shorter = omega arith },
  )
  merge_first_lem docs d (c ∷ (e ∷ cs)) long h pos =
      let more : ltb 1 (length (c ∷ (e ∷ cs))) ≡ true = ground arith in
      elim (Bool-cases (is_undersized c.1)) [
        | inl small ↦
            let (merged, ds, eq, m) = merge_distribute_lem docs d [] cs c e long h in
            let (c', rest, shape) = first_of d (c ∷ (e ∷ cs)) merged ds (omega arith) m in
            (
              merged,
              c',
              rest,
              rw (more, small) (eq ∙ ap (λ x. some (merged, x)) shape),
              subst (IsMergedArray d (c ∷ (e ∷ cs)) merged) shape m,
            )
        | inr large ↦ (
          false,
          c,
          e ∷ cs,
          rw (more, large) refl,
          record { same_text = refl; fits = h; fewer_nodes = omega arith; shorter = omega arith },
        )
      ]

  zip_left_step :
      (fuel : ℕ) (did merged again : Bool) (es : Entries) (c : Child) (ds : NodeChildren)
      (child : Node) (result : Option (Bool × Node))
      → merge_first (unpack es) ≡ some (merged, c ∷ ds)
      → zip_left fuel false c.1 ≡ some (again, child)
      → (if again
          then zip_left fuel (did || merged) (internal (pack ((c.0, child) ∷ ds)))
          else some (did || merged, internal (pack ((c.0, child) ∷ ds))))
        ≡ result
      → zip_left (suc fuel) did (internal es) ≡ result
  unfolding zip_left
  zip_left_step fuel did merged again es c ds child result h0 h1 h2 =
      rw (h0, h1, set_child_parts [] ds c (c.0, child)) h2

  zip_left_lem :
      (docs : IsDocumented crates) (fuel d : ℕ) (did : Bool) (n : Node)
      → 7 ≤ lim.max_bytes
      → IsTree d n
      → nodes n < fuel
      → (did' : Bool) × (n' : Node) × (zip_left fuel did n ≡ some (did', n'))
        × IsZipped d n did did' n'
  unfolding zip_left
  zip_left_lem docs zero d did n long h enough = absurd (omega arith)
  zip_left_lem docs (suc fuel) zero did (leaf t) long h enough = (
    false,
    leaf t,
    refl,
    record { same_text = refl; tree = h; not_more = omega arith; fewer = λ e. cc },
  )
  zip_left_lem docs (suc fuel) zero did (internal es) long h enough = absurd h
  zip_left_lem docs (suc fuel) (suc d) did (leaf t) long h enough = absurd h
  zip_left_lem docs (suc fuel) (suc d) did (internal es) long h enough =
      let (merged, c, ds, e, m) = merge_first_lem docs d (unpack es) long h.2 h.0 in
      let below : nodes c.1 < fuel =
        omega (arith, enough, entries_nodes-unpack es, m.fewer_nodes) in
      let (again, child, e', z) = zip_left_lem docs fuel d false c.1 long m.fits.0 below in
      let n' = internal (pack ((c.0, child) ∷ ds)) in
      let step = step_lem d es merged again [] ds c child h m z in
      elim (Bool-cases again) [
        | inr done ↦ (
          did || merged,
          n',
          zip_left_step fuel did merged again es c ds child _ e e' (rw done refl),
          finished (suc d) (internal es) n' did merged
              (subst (λ b. IsZipStep (suc d) (internal es) merged b n') done step),
        )
        | inl more ↦
            let (did', n'', e'', rest) =
              zip_left_lem docs fuel (suc d) (did || merged) n' long step.tree
                (omega (arith, enough, step.nearer more)) in
            (
              did',
              n'',
              zip_left_step fuel did merged again es c ds child _ e e' (rw more e''),
              continued (suc d) (internal es) n' did merged did' n''
                  (subst (λ b. IsZipStep (suc d) (internal es) merged b n') more step) rest,
            )
      ]

  -- With a limit of at least seven bytes for a leaf, and more fuel than there are nodes,
  -- `zip_fix_left` ends without a panic on a balanced tree, and leaves a balanced tree of the same
  -- depth with the same text and no more nodes; fewer, if it returns that it did something.
  pub zip_fix_left_lem :
      (docs : IsDocumented crates) (fuel d : ℕ) (n : Node)
      → 7 ≤ lim.max_bytes
      → IsTree d n
      → nodes n < fuel
      → (did : Bool) × (n' : Node) × (zip_fix_left fuel n ≡ some (did, n'))
        × IsZipped d n false did n'
  unfolding zip_fix_left
  zip_fix_left_lem docs fuel d n long h enough = zip_left_lem docs fuel d false n long h enough
