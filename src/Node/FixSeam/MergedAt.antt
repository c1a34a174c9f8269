-- ===== src/Node/FixSeam/MergedAt.antt =====
-- The first step of a round of `fix_tree_seam` (src/tree/node.rs): the merge of two neighbours.
use ropey.Common.{
  ℕ, ◌+◌, ◌-◌, ◌≤◌, ◌<◌, ◌≡◌, refl, sym, ◌∙◌, ap, inl, inr, Bool, true, false, ◌&&◌, ◌||◌, some, [],
  ◌∷◌, ◌++◌, arith, ltb, ◌==◌, length, length-append, append_assoc, Bool-cases, subst,
  get_elem?-append_middle,
}
use ropey.Crates.{Crates, IsDocumented}
use ropey.Crates.Measures.{count_chars}
use ropey.TextInfo.{TextInfo, word}
use ropey.Tree.{Limits, Child, NodeChildren}
use ropey.Tree.Content.{children_text, Fits, IsTree}
use ropey.NodeChildren.{search_char_idx}
use ropey.NodeChildren.Halves.{last_of}
use ropey.NodeChildren.Located.{search_char_idx_lem}
use ropey.Node.{is_undersized}
use ropey.Node.Info.{IsTree-IsStr}
use ropey.Node.Merge.Distributed.{IsMergedArray, merge_distribute_lem, second_of}
use ropey.Node.FixSeam.{merge_at}

module _ ⦃lim : Limits⦄ ⦃crates : Crates⦄ where
  abbrev MergesAt : ℕ → NodeChildren → ℕ → Type 0
  MergesAt d cs i =
      (merged : Bool) × (ds : NodeChildren) × (merge_at cs i ≡ some (merged, ds))
      × IsMergedArray d cs merged ds

  pub unmerged : (d : ℕ) (cs : NodeChildren) → Fits (IsTree d) cs → IsMergedArray d cs false cs
  unmerged d cs h = record {
    same_text = refl;
    fits = h;
    fewer_nodes = omega arith;
    shorter = omega arith;
  }

  module _ (docs : IsDocumented crates) (d i : ℕ) (accum : TextInfo)
      (long : 7 ≤ lim.max_bytes) where
    at_first :
        (c : Child) (cs : NodeChildren)
        → Fits (IsTree d) (c ∷ cs)
        → 1 < length (c ∷ cs)
        → search_char_idx (c ∷ cs) i ≡ some (0, accum)
        → MergesAt d (c ∷ cs) i
    unfolding merge_at
    at_first c [] h more e = absurd (omega (arith, more))
    at_first c (b ∷ cs) h more e =
        let more' : ltb 1 (length (c ∷ (b ∷ cs))) ≡ true = ground arith in
        elim (Bool-cases (is_undersized c.1)) [
          | inl small ↦
              let (merged, ds, q, m) = merge_distribute_lem docs d [] cs c b long h in
              (merged, ds, rw (more', e, small) q, m)
          | inr large ↦
              (false, c ∷ (b ∷ cs), rw (more', e, large) refl, unmerged d (c ∷ (b ∷ cs)) h)
        ]

    at_later :
        (xs ys : NodeChildren) (b c : Child)
        → Fits (IsTree d) (xs ++ b ∷ (c ∷ ys))
        → search_char_idx (xs ++ b ∷ (c ∷ ys)) i ≡ some (length xs + 1, accum)
        → MergesAt d (xs ++ b ∷ (c ∷ ys)) i
    unfolding merge_at
    at_later xs ys b c h e =
        let more' : ltb 1 (length (xs ++ b ∷ (c ∷ ys))) ≡ true =
          ground (arith, length-append xs (b ∷ (c ∷ ys))) in
        let later : (length xs + 1 == 0) ≡ false = ground arith in
        let before : length xs + 1 - 1 ≡ length xs = omega arith in
        let here = second_of xs ys b c in
        let there = get_elem?-append_middle xs (b ∷ (c ∷ ys)) in
        elim (Bool-cases (is_undersized c.1 || (accum.chars == i && is_undersized b.1))) [
          | inl small ↦
              let (merged, ds, q, m) = merge_distribute_lem docs d xs ys b c long h in
              (merged, ds, rw (more', e, here, later, before, there, small) q, m)
          | inr large ↦ (
            false,
            xs ++ b ∷ (c ∷ ys),
            rw (more', e, here, later, before, there, large) refl,
            unmerged d (xs ++ b ∷ (c ∷ ys)) h,
          )
        ]

  -- Two parts of an array, the left one empty or with a last child.
  located :
      (docs : IsDocumented crates) (d i : ℕ) (accum : TextInfo)
      → 7 ≤ lim.max_bytes
      → (xs ys : NodeChildren) (c : Child) → Fits (IsTree d) (xs ++ c ∷ ys)
      → 1 < length (xs ++ c ∷ ys)
      → search_char_idx (xs ++ c ∷ ys) i ≡ some (length xs, accum)
      → MergesAt d (xs ++ c ∷ ys) i
  located docs d i accum long [] ys c h more e = at_first docs d i accum long c ys h more e
  located docs d i accum long (x ∷ xs) ys c h more e =
      let (zs, b, shape) = last_of (x ∷ xs) (omega arith) in
      let whole : (x ∷ xs) ++ c ∷ ys ≡ zs ++ b ∷ (c ∷ ys) =
        ap (λ t. t ++ c ∷ ys) shape ∙ append_assoc zs (b ∷ []) (c ∷ ys) in
      let len : length (x ∷ xs) ≡ length zs + 1 =
        omega (arith, ap length shape, length-append zs (b ∷ [])) in
      subst (λ t. MergesAt d t i) (sym whole)
        (at_later docs d i accum long zs ys b c (subst (Fits (IsTree d)) whole h)
          (sym (ap (λ t. search_char_idx t i) whole) ∙ (e ∙ ap (λ n. some (n, accum)) len)))

  pub merge_at_lem :
      (docs : IsDocumented crates) (d i : ℕ) (cs : NodeChildren)
      → 7 ≤ lim.max_bytes
      → Fits (IsTree d) cs
      → 0 < length cs
      → length (children_text cs) < word
      → i ≤ count_chars (children_text cs)
      → (merged : Bool) × (ds : NodeChildren) × (merge_at cs i ≡ some (merged, ds))
        × IsMergedArray d cs merged ds
  unfolding merge_at
  merge_at_lem docs d i cs long h pos small le = elim (Bool-cases (ltb 1 (length cs))) [
    | inr single ↦ (false, cs, rw single refl, unmerged d cs h)
    | inl more ↦
        let (idx, accum, e, hd) =
          search_char_idx_lem (IsTree d) (IsTree-IsStr d) cs i pos h small le in
        subst (λ t. MergesAt d t i) hd.parts
          (located docs d i accum long hd.before hd.after hd.child
            (subst (Fits (IsTree d)) (sym hd.parts) h)
            (subst (λ t. 1 < length t) (sym hd.parts) (ground arith))
            (ap (λ t. search_char_idx t i) hd.parts ∙ (e ∙ ap (λ n. some (n, accum)) hd.index)))
  ]
