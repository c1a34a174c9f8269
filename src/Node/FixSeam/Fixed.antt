-- ===== src/Node/FixSeam/Fixed.antt =====
-- `fix_tree_seam` of src/tree/node.rs as a whole.
use ropey.Common.{
  ℕ, zero, suc, ◌+◌, ◌≤◌, ◌<◌, ◌≡◌, refl, sym, ◌∙◌, ap, inl, inr, Bool, true, false, not, ◌&&◌,
  ◌||◌, some, List, [], ◌∷◌, ◌++◌, arith, ◌==◌, length, length-append, append_assoc, Bool-cases,
  subst,
}
use ropey.Crlf.{is_continuation}
use ropey.Crates.{Crates, IsDocumented}
use ropey.Crates.Measures.{count_chars}
use ropey.Crates.Measures.Laws.{tally-le-length}
use ropey.TextInfo.{TextInfo, word, wrapping_sub}
use ropey.TextInfo.Laws.{wrapping_sub-exact, measure}
use ropey.Tree.{Limits, Node, leaf, internal, Entries, Child, NodeChildren, unpack}
use ropey.Tree.Content.{text, children_text, IsTree}
use ropey.Tree.Counts.{nodes, children_nodes, children_nodes-append, entries_nodes-unpack}
use ropey.NodeChildren.{search_char_idx}
use ropey.NodeChildren.Halves.{last_of}
use ropey.NodeChildren.Infos.{children_text-append, Fits-suffix}
use ropey.NodeChildren.Located.{search_char_idx_lem}
use ropey.Node.Info.{IsTree-IsStr, entries_text-unpack, Fits-some_text}
use ropey.Node.Merge.Distributed.{IsMergedArray}
use ropey.Node.Zip.Zipped.{IsZipped, IsZipStep, step_lem}
use ropey.Node.FixSeam.{merge_at, fix_seam, fix_tree_seam}
use ropey.Node.FixSeam.MergedAt.{merge_at_lem}
use ropey.Crates.Measures.Seams.{and_false}
use ropey.Node.FixSeam.Steps.{step_one, step_two, two_lem, conclude}

some_child : (cs : NodeChildren) → 0 < length (children_text cs) → 0 < length cs
some_child [] h = absurd (omega arith)
some_child (c ∷ cs) h = omega arith

chars_of : (t : List ℕ) (x : TextInfo) → x ≡ measure t → length t < word → x.chars ≡ count_chars t
chars_of t x e small =
    ap (λ y. y.chars) e ∙ omega (arith, tally-le-length (λ b. not (is_continuation b)) t)

pub chars_le : (t : List ℕ) (x : TextInfo) → x ≡ measure t → x.chars ≤ count_chars t
chars_le t x e = omega (arith, ap (λ y. y.chars) e)

module _ ⦃lim : Limits⦄ ⦃crates : Crates⦄ (fuel : ℕ) where
  -- The theorem for less fuel.
  abbrev Fixes : ℕ → Type 0
  Fixes k =
      (d : ℕ) (did : Bool) (n : Node) (i : ℕ)
      → IsTree d n
      → nodes n < k
      → length (text n) < word
      → i ≤ count_chars (text n)
      → (did' : Bool) × (n' : Node) × (fix_seam k did n i ≡ some (did', n'))
        × IsZipped d n did did' n'

  module _ (ih : Fixes fuel) (d i : ℕ) (did merged : Bool) (es : Entries) (xs ys : NodeChildren)
      (h : IsTree (suc d) (internal es)) (enough : nodes (internal es) < suc fuel)
      (small : length (text (internal es)) < word) (le : i ≤ count_chars (text (internal es)))
      (accum : TextInfo) where
    sizes :
        (cs : NodeChildren)
        → IsMergedArray d (unpack es) merged (xs ++ cs)
        → (children_nodes cs < fuel) × (length (children_text cs) < word)
    sizes cs m =
        let t = entries_text-unpack es in
        (
          omega
              (arith, enough, entries_nodes-unpack es, m.fewer_nodes, children_nodes-append xs cs),
          omega (
            arith,
            small,
            ap length t,
            ap length m.same_text,
            ap length (children_text-append xs cs),
            length-append (children_text xs) (children_text cs),
          ),
        )

    goes_on :
        (again : Bool) (n' : Node)
        → IsZipStep (suc d) (internal es) merged again n'
        → again ≡ true
        → (did' : Bool) × (n'' : Node) × (fix_seam fuel (did || merged) n' i ≡ some (did', n''))
          × IsZipped (suc d) n' (did || merged) did' n''
    goes_on again n' s e =
        ih (suc d) (did || merged) n' i s.tree (omega (arith, enough, s.nearer e))
          (rw s.same_text small) (rw s.same_text le)

    inside_lem :
        (c : Child)
        → merge_at (unpack es) i ≡ some (merged, xs ++ c ∷ ys)
        → IsMergedArray d (unpack es) merged (xs ++ c ∷ ys)
        → search_char_idx (xs ++ c ∷ ys) i ≡ some (length xs, accum)
        → (accum.chars == i && not (length xs == 0)) ≡ false
        → wrapping_sub i accum.chars ≤ count_chars (text c.1)
        → (did' : Bool) × (n' : Node) × (fix_seam (suc fuel) did (internal es) i ≡ some (did', n'))
          × IsZipped (suc d) (internal es) did did' n'
    inside_lem c e m q single in_child =
        let (few, short) = sizes (c ∷ ys) m in
        let here = Fits-suffix (IsTree d) (IsTree-IsStr d) xs (c ∷ ys) m.fits in
        let (again, child, e', z) =
          ih d false c.1 (wrapping_sub i accum.chars) here.0 (omega (arith, few))
            (omega (arith, short, length-append (text c.1) (children_text ys))) in_child in
        let step = step_lem d es merged again xs ys c child h m z in
        conclude fuel i (suc d) did merged again (internal es) _ step
          (λ result r.
            step_one fuel i did merged again es xs ys c accum child result e q single e' r)
          (goes_on again _ step)

    between_lem :
        (b c : Child)
        → merge_at (unpack es) i ≡ some (merged, xs ++ b ∷ (c ∷ ys))
        → IsMergedArray d (unpack es) merged (xs ++ b ∷ (c ∷ ys))
        → search_char_idx (xs ++ b ∷ (c ∷ ys)) i ≡ some (length xs + 1, accum)
        → (accum.chars == i) ≡ true
        → (did' : Bool) × (n' : Node) × (fix_seam (suc fuel) did (internal es) i ≡ some (did', n'))
          × IsZipped (suc d) (internal es) did did' n'
    between_lem b c e m q edge =
        let (few, short) = sizes (b ∷ (c ∷ ys)) m in
        let here = Fits-suffix (IsTree d) (IsTree-IsStr d) xs (b ∷ (c ∷ ys)) m.fits in
        let len = length-append (text b.1) (text c.1 ++ children_text ys) in
        let len' = length-append (text c.1) (children_text ys) in
        let (again, child, e', z) =
          ih d false b.1 b.0.chars here.0 (omega (arith, few)) (omega (arith, short, len))
            (chars_le (text b.1) b.0 here.2) in
        let (again', child', e'', z') =
          ih d false c.1 0 here.4.0 (omega (arith, few)) (omega (arith, short, len, len'))
            (omega arith) in
        let step = two_lem d es merged again again' xs ys b c child child' h m z z' in
        conclude fuel i (suc d) did merged (again || again') (internal es) _ step
          (λ result r.
            step_two fuel i did merged again again' es xs ys b c accum child child' result e q edge
              e' e'' r)
          (goes_on (again || again') _ step)

  -- Between two children if the char is the first one of a later child, and else in a child.
  round_lem :
      (ih : Fixes fuel) (d i : ℕ) (did merged : Bool) (es : Entries) (xs ys : NodeChildren)
      → IsTree (suc d) (internal es)
      → nodes (internal es) < suc fuel
      → length (text (internal es)) < word
      → i ≤ count_chars (text (internal es))
      → (accum : TextInfo) (c : Child) → merge_at (unpack es) i ≡ some (merged, xs ++ c ∷ ys)
      → IsMergedArray d (unpack es) merged (xs ++ c ∷ ys)
      → search_char_idx (xs ++ c ∷ ys) i ≡ some (length xs, accum)
      → wrapping_sub i accum.chars ≤ count_chars (text c.1)
      → (did' : Bool) × (n' : Node) × (fix_seam (suc fuel) did (internal es) i ≡ some (did', n'))
        × IsZipped (suc d) (internal es) did did' n'
  round_lem ih d i did merged es [] ys h enough small le accum c e m q in_child =
      inside_lem ih d i did merged es [] ys h enough small le accum c e m q
        (and_false (accum.chars == i)) in_child
  round_lem ih d i did merged es (x ∷ xs) ys h enough small le accum c e m q in_child =
      elim (Bool-cases (accum.chars == i)) [
        | inr inner ↦
            inside_lem ih d i did merged es (x ∷ xs) ys h enough small le accum c e m q
              (ap (λ b. b && not (length (x ∷ xs) == 0)) inner) in_child
        | inl edge ↦
            let (zs, b, shape) = last_of (x ∷ xs) (omega arith) in
            let whole : (x ∷ xs) ++ c ∷ ys ≡ zs ++ b ∷ (c ∷ ys) =
              ap (λ t. t ++ c ∷ ys) shape ∙ append_assoc zs (b ∷ []) (c ∷ ys) in
            let len : length (x ∷ xs) ≡ length zs + 1 =
              omega (arith, ap length shape, length-append zs (b ∷ [])) in
            between_lem ih d i did merged es zs ys h enough small le accum b c
              (e ∙ ap (λ t. some (merged, t)) whole)
              (subst (IsMergedArray d (unpack es) merged) whole m)
              (sym (ap (λ t. search_char_idx t i) whole) ∙ (q ∙ ap (λ n. some (n, accum)) len)) edge
      ]

module _ ⦃lim : Limits⦄ ⦃crates : Crates⦄ (docs : IsDocumented crates)
    (long : 7 ≤ lim.max_bytes) where
  fix_seam_lem : (fuel : ℕ) → Fixes fuel fuel
  unfolding fix_seam
  fix_seam_lem zero d did n i h enough small le = absurd (omega arith)
  fix_seam_lem (suc fuel) zero did (leaf t) i h enough small le = (
    false,
    leaf t,
    refl,
    record { same_text = refl; tree = h; not_more = omega arith; fewer = λ e. cc },
  )
  fix_seam_lem (suc fuel) zero did (internal es) i h enough small le = absurd h
  fix_seam_lem (suc fuel) (suc d) did (leaf t) i h enough small le = absurd h
  fix_seam_lem (suc fuel) (suc d) did (internal es) i h enough small le =
      let same = entries_text-unpack es in
      let (merged, ds, e, m) =
        merge_at_lem docs d i (unpack es) long h.2 h.0 (rw same at small) (rw same at le) in
      let same' : children_text ds ≡ text (internal es) = m.same_text ∙ sym same in
      let some_text : 0 < length (children_text ds) =
        rw m.same_text (Fits-some_text d (unpack es) h.2 h.0) in
      let small' : length (children_text ds) < word = rw same' small in
      let (idx, accum, q, hd) =
        search_char_idx_lem (IsTree d) (IsTree-IsStr d) ds i (some_child ds some_text) m.fits small'
          (rw same' le) in
      let x = children_text hd.before in
      let short : length x < word = omega (
        arith,
        small',
        ap (λ t. length (children_text t)) hd.parts,
        ap length (children_text-append hd.before (hd.child ∷ hd.after)),
        length-append x (children_text (hd.child ∷ hd.after)),
      ) in
      let acc = chars_of x accum hd.total short in
      let near : i < word =
        omega
          (arith, le, small, tally-le-length (λ b. not (is_continuation b)) (text (internal es))) in
      let in_child : wrapping_sub i accum.chars ≤ count_chars (text hd.child.1) = omega (
        arith,
        ap (wrapping_sub i) acc ∙ wrapping_sub-exact (count_chars x) i hd.not_before near,
        hd.not_behind,
      ) in
      round_lem fuel (fix_seam_lem fuel) d i did merged es hd.before hd.after h enough small le
        accum hd.child (e ∙ ap (λ t. some (merged, t)) (sym hd.parts))
        (subst (IsMergedArray d (unpack es) merged) (sym hd.parts) m)
        (ap (λ t. search_char_idx t i) hd.parts ∙ (q ∙ ap (λ n. some (n, accum)) hd.index)) in_child

  -- With a limit of at least seven bytes for a leaf, more fuel than there are nodes, and a char index
  -- up to the number of chars, `fix_tree_seam` ends without a panic on a balanced tree that holds less than
  -- 2^64 bytes, and leaves a balanced tree of the same depth with the same text and no more nodes;
  -- fewer, if it returns that it did something.
  pub fix_tree_seam_lem :
      (fuel d : ℕ) (n : Node) (i : ℕ)
      → IsTree d n
      → nodes n < fuel
      → length (text n) < word
      → i ≤ count_chars (text n)
      → (did : Bool) × (n' : Node) × (fix_tree_seam fuel n i ≡ some (did, n'))
        × IsZipped d n false did n'
  unfolding fix_tree_seam
  fix_tree_seam_lem fuel d n i h enough small le = fix_seam_lem fuel d false n i h enough small le
