-- ===== src/Node/Divide/Whole.antt =====
-- `split` of src/tree/node.rs as a whole.
use ropey.Common.{
  ℕ, zero, suc, ◌+◌, ◌-◌, ◌≤◌, ◌<◌, ◌≡◌, sym, ◌∙◌, ap, ap₂, inl, inr, true, false, not, some, [],
  ◌∷◌, ◌++◌, arith, ◌==◌, length, length-append, subst, Bool-cases, get_elem?-append_middle,
  get_elem?, Option,
}
use ropey.Crlf.{is_continuation}
use ropey.Crates.{Crates, IsDocumented}
use ropey.Crates.Measures.{count_chars}
use ropey.Crates.Measures.Laws.{tally-append, tally-le-length}
use ropey.TextInfo.{TextInfo, word, wrapping_add, wrapping_sub}
use ropey.TextInfo.Laws.{wrapping_sub-exact}
use ropey.Tree.{Limits, Node, leaf, internal, Child, NodeChildren, unpack, Entries}
use ropey.Tree.Content.{text, children_text, Fits, IsTree}
use ropey.NodeChildren.{search_char_idx}
use ropey.NodeChildren.Infos.{children_text-append, Fits-suffix}
use ropey.NodeChildren.Located.{search_char_idx_lem}
use ropey.Node.Info.{entries_text-unpack, IsTree-IsStr}
use ropey.Node.Divide.{split, split_between, split_through, split_children}
use ropey.Node.Divide.Divided.{AreDivided, divided_leaf, between_lem, through_lem}

some_child : (cs : NodeChildren) → 0 < count_chars (children_text cs) → 0 < length cs
some_child [] h = absurd (omega arith)
some_child (c ∷ cs) h = omega arith

module _ ⦃lim : Limits⦄ ⦃crates : Crates⦄ (docs : IsDocumented crates) where
  choose_between :
      (cs xs : NodeChildren) (i k m acc : ℕ) (c : Child) (below : Option (Node × Node)) (l r : Node)
      → (i == acc) ≡ true
      → xs ≡ cs
      → k ≡ m
      → split_between xs m ≡ some (l, r)
      → split_children cs i k acc c below ≡ some (l, r)
  unfolding split_children
  choose_between cs xs i k m acc c below l r start same place e =
      rw start (ap₂ split_between (sym same) place ∙ e)

  choose_through :
      (cs xs : NodeChildren) (i k m acc : ℕ) (c : Child) (below : Option (Node × Node))
      (nodes : Node × Node) (l r : Node)
      → (i == acc) ≡ false
      → (i == wrapping_add acc c.0.chars) ≡ false
      → below ≡ some nodes
      → xs ≡ cs
      → k ≡ m
      → split_through xs m c nodes ≡ some (l, r)
      → split_children cs i k acc c below ≡ some (l, r)
  unfolding split_children
  choose_through cs xs i k m acc c below nodes l r inner not_end found same place e =
      rw (inner, not_end, found) (ap₂ (λ t n. split_through t n c nodes) (sym same) place ∙ e)

  split_internal :
      (fuel : ℕ) (es : Entries) (i idx : ℕ) (accum : TextInfo) (c : Child) (l r : Node)
      → search_char_idx (unpack es) i ≡ some (idx, accum)
      → get_elem? (unpack es) idx ≡ some c
      → split_children (unpack es) i idx accum.chars c (split fuel c.1 (wrapping_sub i accum.chars))
        ≡ some (l, r)
      → split (suc fuel) (internal es) i ≡ some (l, r)
  unfolding split
  split_internal fuel es i idx accum c l r e at q = rw (e, at) q

  -- A balanced tree that holds less than 2^64 bytes, with fuel for its levels, is divided inside
  -- its text at a char index without a panic: the two trees hold the text, the left one the chars
  -- before the index, and both are balanced, with the depth of the tree.
  pub split_lem :
      (d fuel : ℕ) (n : Node) (i : ℕ)
      → IsTree d n
      → d < fuel
      → length (text n) < word
      → 0 < i
      → i < count_chars (text n)
      → (l r : Node) × (split fuel n i ≡ some (l, r)) × AreDivided d (text n) i l r
  unfolding split
  split_lem d zero n i h enough small pos lt = absurd (omega arith)
  split_lem zero (suc fuel) (leaf t) i h enough small pos lt =
      divided_leaf docs t i fuel h (omega arith)
  split_lem zero (suc fuel) (internal es) i h enough small pos lt = absurd h
  split_lem (suc d) (suc fuel) (leaf t) i h enough small pos lt = absurd h
  split_lem (suc d) (suc fuel) (internal es) i h enough small pos lt =
      let same_text = entries_text-unpack es in
      let (idx, accum, e, hd) =
        search_char_idx_lem (IsTree d) (IsTree-IsStr d) (unpack es) i h.0 h.2
          (rw same_text at small) (omega (arith, ap count_chars same_text)) in
      let c = hd.child in
      let cs = hd.before ++ c ∷ hd.after in
      let fits : Fits (IsTree d) cs = rw hd.parts h.2 in
      let room : length cs ≤ lim.max_children = rw hd.parts h.1 in
      let whole : children_text cs ≡ text (internal es) =
        ap children_text hd.parts ∙ sym same_text in
      let at : get_elem? (unpack es) idx ≡ some c =
        ap₂ get_elem? (sym hd.parts) hd.index ∙ get_elem?-append_middle hd.before (c ∷ hd.after) in
      let shape : text (internal es)
          ≡ children_text hd.before ++ (text c.1 ++ children_text hd.after) =
        sym whole ∙ children_text-append hd.before (c ∷ hd.after) in
      let len : length (text (internal es))
          ≡ length (children_text hd.before)
            + (length (text c.1) + length (children_text hd.after)) =
        ap length shape
        ∙ omega (
          arith,
          length-append (children_text hd.before) (text c.1 ++ children_text hd.after),
          length-append (text c.1) (children_text hd.after),
        ) in
      let chars : count_chars (text (internal es))
          ≡ count_chars (children_text hd.before)
            + (count_chars (text c.1) + count_chars (children_text hd.after)) =
        ap count_chars shape
        ∙ omega (
          arith,
          tally-append (λ b. not (is_continuation b)) (children_text hd.before)
              (text c.1 ++ children_text hd.after),
          tally-append (λ b. not (is_continuation b)) (text c.1) (children_text hd.after),
        ) in
      let here : accum.chars ≡ count_chars (children_text hd.before) =
        ap (λ x. x.chars) hd.total
        ∙ omega (
          arith,
          len,
          tally-le-length (λ b. not (is_continuation b)) (children_text hd.before),
        ) in
      let child_fits = Fits-suffix (IsTree d) (IsTree-IsStr d) hd.before (c ∷ hd.after) fits in
      let inside : i < count_chars (children_text hd.before) + count_chars (text c.1) =
        elim hd.at_end_only [
          | inl last ↦ omega (arith, chars, ap (λ t. count_chars (children_text t)) last)
          | inr less ↦ less
        ] in
      let end : wrapping_add accum.chars c.0.chars
          ≡ count_chars (children_text hd.before) + count_chars (text c.1) =
        ap₂ (λ x y. wrapping_add x y) here (ap (λ x. x.chars) child_fits.2)
        ∙ omega (
          arith,
          len,
          tally-le-length (λ b. not (is_continuation b)) (children_text hd.before),
          tally-le-length (λ b. not (is_continuation b)) (text c.1),
        ) in
      let not_end : (i == wrapping_add accum.chars c.0.chars) ≡ false =
        ground (arith, end, inside) in
      let same : wrapping_sub i accum.chars ≡ i - count_chars (children_text hd.before) =
        ap (wrapping_sub i) here
        ∙ wrapping_sub-exact (count_chars (children_text hd.before)) i hd.not_before
            (omega (arith, tally-le-length (λ b. not (is_continuation b)) (text (internal es)))) in
      elim (Bool-cases (i == accum.chars)) [
        | inl start ↦
            let (l, r, e', parts) =
              between_lem docs d hd.before (c ∷ hd.after) fits room
                (some_child hd.before (ground (arith, here))) (omega arith) in
            (
              l,
              r,
              rw (e, at)
                  (choose_between (unpack es) cs i idx (length hd.before) accum.chars c _ l r start
                    hd.parts hd.index e'),
              subst (λ t. AreDivided (suc d) t i l r) whole
                  (subst (λ k. AreDivided (suc d) (children_text cs) k l r) (ground (arith, here))
                    parts),
            )
        | inr inner ↦
            let j = i - count_chars (children_text hd.before) in
            let (a, b, below, parts) =
              split_lem d fuel c.1 j child_fits.0 (omega arith) (omega (arith, len))
                (ground (arith, here, hd.not_before)) (omega (arith, inside, hd.not_before)) in
            let (l, r, e', divided) =
              through_lem docs d hd.before hd.after c.0 c.1 fits room j a b
                (ground (arith, here, hd.not_before)) (omega (arith, inside, hd.not_before))
                parts in
            (
              l,
              r,
              split_internal fuel es i idx accum c l r e at (
                  choose_through (unpack es) cs i idx (length hd.before) accum.chars c _ (a, b) l r
                    inner not_end (ap (split fuel c.1) same ∙ below) hd.parts hd.index e'),
              subst (λ t. AreDivided (suc d) t i l r) whole
                  (subst (λ k. AreDivided (suc d) (children_text cs) k l r)
                    (omega (arith, hd.not_before)) divided),
            )
      ]
