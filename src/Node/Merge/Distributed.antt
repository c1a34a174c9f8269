-- ===== src/Node/Merge/Distributed.antt =====
-- `merge_distribute` of src/tree/node_children.rs on the array, with the children around the two
-- neighbours.
use ropey.Common.{
  ℕ, ◌+◌, ◌≤◌, ◌<◌, ◌≡◌, refl, sym, ◌∙◌, ap, inl, inr, Bool, true, false, some, [], ◌∷◌, ◌++◌,
  arith, ltb, if◌then◌else◌, length, length-append, append-nil, append_assoc, get_elem?,
  get_elem?-append_middle,
}
use ropey.Crates.{Crates, IsDocumented}
use ropey.Crates.Measures.Laws.{cuts_crlf, ends_cr}
use ropey.Crates.Measures.Seams.{and_false, cuts_crlf-front}
use ropey.Tree.{Limits, Node, Child, NodeChildren}
use ropey.Tree.Content.{text, children_text, Fits, IsTree}
use ropey.Tree.Counts.{nodes, children_nodes, children_nodes-append}
use ropey.NodeChildren.Infos.{children_text-append, Fits-prefix, Fits-suffix}
use ropey.Node.{text_info}
use ropey.Node.Info.{IsTree-IsStr, Fits-seam, text_info-measure}
use ropey.Node.Merge.{merge_nodes, merge_distribute, update_child_info, with_info}
use ropey.Node.Merge.Merged.{AreMerged, merge_nodes_lem, Fits-append}
use ropey.Node.Merge.Leaves.{set_child_parts, set_child-second, remove-second, text_behind}

-- Children in the middle may be replaced by children with the same text.
pub Fits-replace :
    ⦃lim : Limits⦄ (d : ℕ) (xs old ms ys : NodeChildren)
    → Fits (IsTree d) (xs ++ (old ++ ys))
    → Fits (IsTree d) ms
    → children_text ms ≡ children_text old
    → Fits (IsTree d) (xs ++ (ms ++ ys))
Fits-replace d xs old ms ys h k same =
    let behind = Fits-suffix (IsTree d) (IsTree-IsStr d) xs (old ++ ys) h in
    let rest : Fits (IsTree d) (ms ++ ys) =
      Fits-append (IsTree d) ms ys k (Fits-suffix (IsTree d) (IsTree-IsStr d) old ys behind)
        (rw same (Fits-seam d old ys behind)) in
    let same_behind : children_text (ms ++ ys) ≡ children_text (old ++ ys) =
      children_text-append ms ys
      ∙ (ap (λ t. t ++ children_text ys) same ∙ sym (children_text-append old ys)) in
    Fits-append (IsTree d) xs (ms ++ ys) (Fits-prefix (IsTree d) (IsTree-IsStr d) xs (old ++ ys) h)
      rest (rw same_behind (Fits-seam d xs (old ++ ys) h))

pub children_text-replace :
    (xs old ms ys : NodeChildren)
    → children_text ms ≡ children_text old
    → children_text (xs ++ (ms ++ ys)) ≡ children_text (xs ++ (old ++ ys))
children_text-replace xs old ms ys same = text_behind xs (old ++ ys) (ms ++ ys) (
    sym (
      children_text-append ms ys
      ∙ (ap (λ t. t ++ children_text ys) same ∙ sym (children_text-append old ys))))

pub update_parts :
    ⦃lim : Limits⦄ ⦃crates : Crates⦄ (xs ys : NodeChildren) (c : Child)
    → update_child_info (xs ++ c ∷ ys) (length xs) ≡ some (xs ++ with_info c ∷ ys)
unfolding update_child_info
update_parts xs ys c =
    rw (get_elem?-append_middle xs (c ∷ ys), set_child_parts xs ys c (with_info c))

update-second :
    ⦃lim : Limits⦄ ⦃crates : Crates⦄ (xs ys : NodeChildren) (b c : Child)
    → update_child_info (xs ++ b ∷ (c ∷ ys)) (length xs + 1) ≡ some (xs ++ b ∷ (with_info c ∷ ys))
update-second xs ys b c =
    rw (append_assoc, append_assoc, length-append) at (update_parts (xs ++ b ∷ []) ys c)

pub second_of :
    (xs ys : NodeChildren) (b c : Child) → get_elem? (xs ++ b ∷ (c ∷ ys)) (length xs + 1) ≡ some c
second_of xs ys b c =
    rw (append_assoc, length-append) at (get_elem?-append_middle (xs ++ b ∷ []) (c ∷ ys))

-- What `merge_distribute` leaves of an array.
pub record IsMergedArray ⦃lim : Limits⦄ (d : ℕ) (cs : NodeChildren) (merged : Bool)
    (ds : NodeChildren) : Type 0 where
  pub same_text : children_text ds ≡ children_text cs
  pub fits : Fits (IsTree d) ds
  pub fewer_nodes : children_nodes ds + (if merged then 1 else 0) ≡ children_nodes cs
  pub shorter : length ds + (if merged then 1 else 0) ≡ length cs

module _ ⦃lim : Limits⦄ ⦃crates : Crates⦄ where
  merged_step :
      (xs ys : NodeChildren) (a b : Child) (l r : Node)
      → merge_nodes a.1 b.1 ≡ some (true, l, r)
      → merge_distribute (xs ++ a ∷ (b ∷ ys)) (length xs) (length xs + 1)
        ≡ some (true, xs ++ (text_info l, l) ∷ ys)
  unfolding merge_distribute
  merged_step xs ys a b l r e =
      let order : ltb (length xs) (length xs + 1) ≡ true = ground arith in
      let room : ltb (length xs + 1) (length (xs ++ a ∷ (b ∷ ys))) ≡ true =
        ground (arith, length-append xs (a ∷ (b ∷ ys))) in
      rw (
        order,
        room,
        get_elem?-append_middle xs (a ∷ (b ∷ ys)),
        second_of xs ys a b,
        e,
        set_child_parts xs (b ∷ ys) a (a.0, l),
        set_child-second xs ys (a.0, l) b (b.0, r),
        remove-second xs ys (a.0, l) (b.0, r),
        update_parts xs ys (a.0, l),
      )

  apart_step :
      (xs ys : NodeChildren) (a b : Child) (l r : Node)
      → merge_nodes a.1 b.1 ≡ some (false, l, r)
      → merge_distribute (xs ++ a ∷ (b ∷ ys)) (length xs) (length xs + 1)
        ≡ some (false, xs ++ (text_info l, l) ∷ ((text_info r, r) ∷ ys))
  unfolding merge_distribute
  apart_step xs ys a b l r e =
      let order : ltb (length xs) (length xs + 1) ≡ true = ground arith in
      let room : ltb (length xs + 1) (length (xs ++ a ∷ (b ∷ ys))) ≡ true =
        ground (arith, length-append xs (a ∷ (b ∷ ys))) in
      rw (
        order,
        room,
        get_elem?-append_middle xs (a ∷ (b ∷ ys)),
        second_of xs ys a b,
        e,
        set_child_parts xs (b ∷ ys) a (a.0, l),
        set_child-second xs ys (a.0, l) b (b.0, r),
        update_parts xs ((b.0, r) ∷ ys) (a.0, l),
        update-second xs ys (text_info l, l) (b.0, r),
      )

  module _ (docs : IsDocumented crates) (d : ℕ) (xs ys : NodeChildren) (a b : Child)
      (h : Fits (IsTree d) (xs ++ (a ∷ (b ∷ []) ++ ys))) (l r : Node) where
    abbrev old : NodeChildren
    old = a ∷ (b ∷ [])

    replaced :
        (ms : NodeChildren) (merged : Bool)
        → Fits (IsTree d) ms
        → children_text ms ≡ children_text old
        → children_nodes ms + (if merged then 1 else 0) ≡ children_nodes old
        → length ms + (if merged then 1 else 0) ≡ 2
        → IsMergedArray d (xs ++ (old ++ ys)) merged (xs ++ (ms ++ ys))
    replaced ms merged fits same fewer shorter = record {
      same_text = children_text-replace xs old ms ys same;
      fits = Fits-replace d xs old ms ys h fits same;
      fewer_nodes = omega (
        arith,
        fewer,
        children_nodes-append xs (ms ++ ys),
        children_nodes-append ms ys,
        children_nodes-append xs (old ++ ys),
        children_nodes-append old ys,
      );
      shorter = omega (
        arith,
        shorter,
        length-append xs (ms ++ ys),
        length-append ms ys,
        length-append xs (old ++ ys),
        length-append old ys,
      );
    }

    replaced_merged :
        AreMerged d (text a.1 ++ text b.1) (nodes a.1 + nodes b.1) true l r
        → IsMergedArray d (xs ++ (old ++ ys)) true (xs ++ ((text_info l, l) ∷ [] ++ ys))
    replaced_merged m =
        let here = Fits-suffix (IsTree d) (IsTree-IsStr d) xs (old ++ ys) h in
        let whole : text l ≡ text a.1 ++ text b.1 = sym (append-nil (text l)) ∙ m.joins in
        let pos : 0 < length (text l) =
          omega (arith, ap length whole, length-append (text a.1) (text b.1), here.1) in
        replaced ((text_info l, l) ∷ []) true
          (
            m.left_tree,
            pos,
            text_info-measure docs d l m.left_tree,
            and_false (ends_cr (text l)),
            tt,
          )
          (append-nil (text l) ∙ (whole ∙ ap (λ t. text a.1 ++ t) (sym (append-nil (text b.1)))))
          (omega (arith, m.counts)) refl

    replaced_apart :
        AreMerged d (text a.1 ++ text b.1) (nodes a.1 + nodes b.1) false l r
        → IsMergedArray d
            (xs ++ (old ++ ys))
            false
            (xs ++ ((text_info l, l) ∷ ((text_info r, r) ∷ []) ++ ys))
    replaced_apart m = elim m.right_tree [
      | inl wrong ↦ cc
      | inr tree ↦ elim m.apart [
        | inl wrong ↦ cc
        | inr (pos, pos', seam) ↦
            replaced ((text_info l, l) ∷ ((text_info r, r) ∷ [])) false
              (
                m.left_tree,
                pos,
                text_info-measure docs d l m.left_tree,
                rw append-nil seam,
                (tree, pos', text_info-measure docs d r tree, and_false (ends_cr (text r)), tt),
              )
              (ap (λ t. text l ++ t) (append-nil (text r))
                ∙ (m.joins ∙ ap (λ t. text a.1 ++ t) (sym (append-nil (text b.1)))))
              (omega (arith, m.counts)) refl
      ]
    ]

  merge_cases :
      (docs : IsDocumented crates) (d : ℕ) (xs ys : NodeChildren) (a b : Child)
      → Fits (IsTree d) (xs ++ a ∷ (b ∷ ys))
      → (l r : Node) (merged : Bool) → merge_nodes a.1 b.1 ≡ some (merged, l, r)
      → AreMerged d (text a.1 ++ text b.1) (nodes a.1 + nodes b.1) merged l r
      → (merged' : Bool) × (ds : NodeChildren) × (merge_distribute
            (xs ++ a ∷ (b ∷ ys))
            (length xs)
            (length xs + 1)
          ≡ some (merged', ds))
        × IsMergedArray d (xs ++ a ∷ (b ∷ ys)) merged' ds
  merge_cases docs d xs ys a b h l r true e m = (
    true,
    xs ++ (text_info l, l) ∷ ys,
    merged_step xs ys a b l r e,
    replaced_merged docs d xs ys a b h l r m,
  )
  merge_cases docs d xs ys a b h l r false e m = (
    false,
    xs ++ (text_info l, l) ∷ ((text_info r, r) ∷ ys),
    apart_step xs ys a b l r e,
    replaced_apart docs d xs ys a b h l r m,
  )

  -- With a limit of at least seven bytes for a leaf, `merge_distribute` does not panic on two
  -- neighbours of a sound array. It leaves a sound array with the same text, with one child and one node less if it
  -- returns true, and else as many of both.
  pub merge_distribute_lem :
      (docs : IsDocumented crates) (d : ℕ) (xs ys : NodeChildren) (a b : Child)
      → 7 ≤ lim.max_bytes
      → Fits (IsTree d) (xs ++ a ∷ (b ∷ ys))
      → (merged : Bool) × (ds : NodeChildren) × (merge_distribute
            (xs ++ a ∷ (b ∷ ys))
            (length xs)
            (length xs + 1)
          ≡ some (merged, ds))
        × IsMergedArray d (xs ++ a ∷ (b ∷ ys)) merged ds
  merge_distribute_lem docs d xs ys a b long h =
      let here = Fits-suffix (IsTree d) (IsTree-IsStr d) xs (a ∷ (b ∷ ys)) h in
      let seam : cuts_crlf (text a.1) (text b.1) ≡ false =
        sym (cuts_crlf-front (text a.1) (text b.1) (children_text ys) here.4.1) ∙ here.3 in
      let (merged, l, r, e, m) = merge_nodes_lem docs d a.1 b.1 long here.0 here.4.0 seam in
      merge_cases docs d xs ys a b h l r merged e m
