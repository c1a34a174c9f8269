-- ===== src/Node/FixSeam/Steps.antt =====
-- A round of `fix_tree_seam` of src/tree/node.rs: at a child, or at two of them.
use ropey.Common.{
  ℕ, suc, ◌+◌, ◌-◌, ◌≡◌, refl, sym, ◌∙◌, inl, inr, Bool, true, false, not, ◌&&◌, ◌||◌, some, Option,
  [], ◌∷◌, ◌++◌, arith, ◌==◌, if◌then◌else◌, length, append_assoc, subst, get_elem?-append_middle,
}
use ropey.Crates.{Crates}
use ropey.TextInfo.{TextInfo, wrapping_sub}
use ropey.Tree.{Limits, Node, internal, Entries, Child, NodeChildren, pack, unpack, unpack-pack}
use ropey.Tree.Content.{IsTree}
use ropey.NodeChildren.{search_char_idx}
use ropey.Node.Merge.Leaves.{set_child_parts, set_child-second}
use ropey.Node.Merge.Distributed.{IsMergedArray, second_of}
use ropey.Node.Zip.Zipped.{IsZipped, IsZipStep, step_lem, finished, continued, or_cases}
use ropey.Node.FixSeam.{merge_at, fix_seam}
use ropey.Node.FixSeam.MergedAt.{unmerged}

module _ ⦃lim : Limits⦄ ⦃crates : Crates⦄ where
  pub step_one :
      (fuel i : ℕ) (did merged again : Bool) (es : Entries) (xs ys : NodeChildren) (c : Child)
      (accum : TextInfo) (child : Node) (result : Option (Bool × Node))
      → merge_at (unpack es) i ≡ some (merged, xs ++ c ∷ ys)
      → search_char_idx (xs ++ c ∷ ys) i ≡ some (length xs, accum)
      → (accum.chars == i && not (length xs == 0)) ≡ false
      → fix_seam fuel false c.1 (wrapping_sub i accum.chars) ≡ some (again, child)
      → (if again
          then fix_seam fuel (did || merged) (internal (pack (xs ++ (c.0, child) ∷ ys))) i
          else some (did || merged, internal (pack (xs ++ (c.0, child) ∷ ys))))
        ≡ result
      → fix_seam (suc fuel) did (internal es) i ≡ result
  unfolding fix_seam
  step_one fuel i did merged again es xs ys c accum child result h0 h1 h2 h3 h4 =
      rw (h0, h1, get_elem?-append_middle xs (c ∷ ys), h2, h3, set_child_parts xs ys c (c.0, child))
        h4

  pub step_two :
      (fuel i : ℕ) (did merged again again' : Bool) (es : Entries) (xs ys : NodeChildren)
      (b c : Child) (accum : TextInfo) (child child' : Node) (result : Option (Bool × Node))
      → merge_at (unpack es) i ≡ some (merged, xs ++ b ∷ (c ∷ ys))
      → search_char_idx (xs ++ b ∷ (c ∷ ys)) i ≡ some (length xs + 1, accum)
      → (accum.chars == i) ≡ true
      → fix_seam fuel false b.1 b.0.chars ≡ some (again, child)
      → fix_seam fuel false c.1 0 ≡ some (again', child')
      → (if again || again'
          then fix_seam fuel
              (did || merged)
              (internal (pack (xs ++ (b.0, child) ∷ ((c.0, child') ∷ ys))))
              i
          else some (did || merged, internal (pack (xs ++ (b.0, child) ∷ ((c.0, child') ∷ ys)))))
        ≡ result
      → fix_seam (suc fuel) did (internal es) i ≡ result
  unfolding fix_seam
  step_two fuel i did merged again again' es xs ys b c accum child child' result h0 h1 h2 h3 h4 h5 =
      let later : (length xs + 1 == 0) ≡ false = ground arith in
      let before : length xs + 1 - 1 ≡ length xs = omega arith in
      rw
        (
          h0,
          h1,
          second_of xs ys b c,
          h2,
          later,
          before,
          get_elem?-append_middle xs (b ∷ (c ∷ ys)),
          h3,
          h4,
          set_child_parts xs (c ∷ ys) b (b.0, child),
          set_child-second xs ys (b.0, child) c (c.0, child'),
        )
        h5

-- Two steps, one after the other.
both_steps :
    ⦃lim : Limits⦄ (d : ℕ) (n n' n'' : Node) (merged again again' : Bool)
    → IsZipStep d n merged again n'
    → IsZipStep d n' false again' n''
    → IsZipStep d n merged (again || again') n''
both_steps d n n' n'' merged again again' s t = record {
  same_text = t.same_text ∙ s.same_text;
  tree = t.tree;
  fewer = omega (arith, s.fewer, t.fewer);
  nearer = λ e. elim (or_cases again again' e) [
    | inl first ↦ omega (arith, s.nearer first, t.fewer)
    | inr second ↦ omega (arith, t.nearer second, s.fewer)
  ];
}

module _ ⦃lim : Limits⦄ ⦃crates : Crates⦄ where
  pub two_lem :
      (d : ℕ) (es : Entries) (merged again again' : Bool) (xs ys : NodeChildren) (b c : Child)
      (child child' : Node)
      → IsTree (suc d) (internal es)
      → IsMergedArray d (unpack es) merged (xs ++ b ∷ (c ∷ ys))
      → IsZipped d b.1 false again child
      → IsZipped d c.1 false again' child'
      → IsZipStep
          (suc d)
          (internal es)
          merged
          (again || again')
          (internal (pack (xs ++ (b.0, child) ∷ ((c.0, child') ∷ ys))))
  two_lem d es merged again again' xs ys b c child child' h m z z' =
      let b' : Child = (b.0, child) in
      let first = step_lem d es merged again xs (c ∷ ys) b child h m z in
      let fs = pack (xs ++ b' ∷ (c ∷ ys)) in
      let shape : unpack fs ≡ (xs ++ b' ∷ []) ++ c ∷ ys =
        unpack-pack (xs ++ b' ∷ (c ∷ ys)) ∙ sym (append_assoc xs (b' ∷ []) (c ∷ ys)) in
      let m' : IsMergedArray d (unpack fs) false ((xs ++ b' ∷ []) ++ c ∷ ys) =
        subst (IsMergedArray d (unpack fs) false) shape (unmerged d (unpack fs) first.tree.2) in
      let second = step_lem d fs false again' (xs ++ b' ∷ []) ys c child' first.tree m' z' in
      both_steps (suc d) (internal es) (internal fs) _ merged again again' first (
        subst (λ t. IsZipStep (suc d) (internal fs) false again' (internal (pack t)))
          (append_assoc xs (b' ∷ []) ((c.0, child') ∷ ys)) second)

  -- After a round, the loop is at its end or goes on.
  pub conclude :
      (fuel i d : ℕ) (did merged again : Bool) (n n' : Node)
      → IsZipStep d n merged again n'
      → ((result : Option (Bool × Node))
          → (if again then fix_seam fuel (did || merged) n' i else some (did || merged, n'))
            ≡ result
          → fix_seam (suc fuel) did n i ≡ result)
      → (again ≡ true
          → (did' : Bool) × (n'' : Node) × (fix_seam fuel (did || merged) n' i ≡ some (did', n''))
            × IsZipped d n' (did || merged) did' n'')
      → (did' : Bool) × (n'' : Node) × (fix_seam (suc fuel) did n i ≡ some (did', n''))
        × IsZipped d n did did' n''
  conclude fuel i d did merged false n n' s step next =
      (did || merged, n', step _ refl, finished d n n' did merged s)
  conclude fuel i d did merged true n n' s step next =
      let (did', n'', e, rest) = next refl in
      (did', n'', step _ e, continued d n n' did merged did' n'' s rest)
