-- ===== src/Node/Zip/Zipped.antt =====
-- What a round of the loops of `zip_fix_left` and `zip_fix_right` (src/tree/node.rs) leaves of a
-- node, and what all rounds do.
use ropey.Common.{
  ℕ, suc, ◌+◌, ◌≤◌, ◌<◌, ◌≡◌, refl, sym, ◌∙◌, ap, ◌⊎◌, inl, inr, Bool, true, false, ◌||◌, [], ◌∷◌,
  ◌++◌, arith, if◌then◌else◌, length, length-append,
}
use ropey.Crates.Measures.Laws.{ends_cr}
use ropey.Crates.Measures.Seams.{and_false}
use ropey.Tree.{Limits, Node, internal, Entries, Child, NodeChildren, pack, unpack}
use ropey.Tree.Content.{text, children_text, Fits, IsTree}
use ropey.Tree.Counts.{nodes, packed_nodes, children_nodes-append, entries_nodes-unpack}
use ropey.NodeChildren.Infos.{Fits-suffix}
use ropey.Node.Info.{IsTree-IsStr, entries_text-unpack}
use ropey.Node.Merge.Merged.{packed_text, packed-IsTree}
use ropey.Node.Merge.Distributed.{IsMergedArray, Fits-replace, children_text-replace}

-- A balanced tree with the same text, and no more nodes; fewer, where the result says that the
-- loop did something that was not done before.
pub record IsZipped ⦃lim : Limits⦄ (d : ℕ) (n : Node) (before after : Bool) (n' : Node)
    : Type 0 where
  pub same_text : text n' ≡ text n
  pub tree : IsTree d n'
  pub not_more : nodes n' ≤ nodes n
  pub fewer : after ≡ true → (before ≡ true) ⊎ (nodes n' < nodes n)

-- One round.
pub record IsZipStep ⦃lim : Limits⦄ (d : ℕ) (n : Node) (merged again : Bool) (n' : Node)
    : Type 0 where
  pub same_text : text n' ≡ text n
  pub tree : IsTree d n'
  pub fewer : nodes n' + (if merged then 1 else 0) ≤ nodes n
  pub nearer : again ≡ true → nodes n' < nodes n

module _ ⦃lim : Limits⦄ (d : ℕ) (es : Entries) (merged again : Bool) (xs ys : NodeChildren)
    (c : Child) (child : Node) (h : IsTree (suc d) (internal es))
    (m : IsMergedArray d (unpack es) merged (xs ++ c ∷ ys))
    (z : IsZipped d c.1 false again child) where
  pub step_lem :
      IsZipStep (suc d) (internal es) merged again (internal (pack (xs ++ (c.0, child) ∷ ys)))
  step_lem =
      let here = Fits-suffix (IsTree d) (IsTree-IsStr d) xs (c ∷ ys) m.fits in
      let pos : 0 < length (text child) = rw z.same_text here.1 in
      let fits : Fits (IsTree d) ((c.0, child) ∷ []) =
        (z.tree, pos, rw z.same_text here.2, and_false (ends_cr (text child)), tt) in
      let same : children_text ((c.0, child) ∷ []) ≡ children_text (c ∷ []) =
        ap (λ t. t ++ []) z.same_text in
      let len = length-append xs ((c.0, child) ∷ ys) in
      let len' = length-append xs (c ∷ ys) in
      let less : (k : ℕ)
          → nodes child + k ≤ nodes c.1
          → nodes (internal (pack (xs ++ (c.0, child) ∷ ys))) + (if merged then 1 else 0) + k
            ≤ nodes (internal es) =
        λ k le. omega (
          arith,
          le,
          packed_nodes (xs ++ (c.0, child) ∷ ys),
          children_nodes-append xs ((c.0, child) ∷ ys),
          children_nodes-append xs (c ∷ ys),
          entries_nodes-unpack es,
          m.fewer_nodes,
        ) in
      record {
        same_text =
            packed_text (xs ++ (c.0, child) ∷ ys)
            ∙ (children_text-replace xs (c ∷ []) ((c.0, child) ∷ []) ys same
                ∙ (m.same_text ∙ sym (entries_text-unpack es)));
        tree =
            packed-IsTree d (xs ++ (c.0, child) ∷ ys) (omega (arith, len))
              (omega (arith, len, len', m.shorter, h.1))
              (Fits-replace d xs (c ∷ []) ((c.0, child) ∷ []) ys m.fits fits same);
        fewer = omega (arith, less 0 (omega (arith, z.not_more)));
        nearer = λ e. elim (z.fewer e) [
          | inl wrong ↦ cc
          | inr lt ↦ omega (arith, less 1 (omega (arith, lt)))
        ];
      }

pub or_cases : (a b : Bool) → (a || b) ≡ true → (a ≡ true) ⊎ (b ≡ true)
or_cases true b h = inl refl
or_cases false b h = inr h

one_fewer : (m n : ℕ) (merged : Bool) → m + (if merged then 1 else 0) ≤ n → merged ≡ true → m < n
one_fewer m n true h e = omega (arith, h)
one_fewer m n false h e = cc

module _ ⦃lim : Limits⦄ (d : ℕ) (n n' : Node) (did merged : Bool) where
  pub finished : IsZipStep d n merged false n' → IsZipped d n did (did || merged) n'
  finished s = record {
    same_text = s.same_text;
    tree = s.tree;
    not_more = omega (arith, s.fewer);
    fewer = λ e. elim (or_cases did merged e) [
      | inl earlier ↦ inl earlier
      | inr now ↦ inr (one_fewer (nodes n') (nodes n) merged s.fewer now)
    ];
  }

  pub continued :
      (did' : Bool) (n'' : Node)
      → IsZipStep d n merged true n'
      → IsZipped d n' (did || merged) did' n''
      → IsZipped d n did did' n''
  continued did' n'' s z = record {
    same_text = z.same_text ∙ s.same_text;
    tree = z.tree;
    not_more = omega (arith, s.nearer refl, z.not_more);
    fewer = λ e. inr (omega (arith, s.nearer refl, z.not_more));
  }
