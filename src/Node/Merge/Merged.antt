-- ===== src/Node/Merge/Merged.antt =====
-- Two siblings that `merge_distribute` (src/tree/node_children.rs) merges or evens out.
use ropey.Crates.Measures.Seams.{cuts_crlf-join, cuts_crlf-behind, no_seam, IsBreak-cuts_crlf}
use ropey.Common.{
  ℕ, zero, suc, ◌+◌, ◌/◌, ◌≤◌, ◌<◌, ◌≡◌, refl, sym, ◌∙◌, ap, ap₂, ◌⊎◌, inl, inr, Bool, true, false,
  some, List, [], ◌∷◌, ◌++◌, arith, leb, if◌then◌else◌, length, length-append, subst, Bool-cases,
  append-nil, take_all, drop_all, take, drop,
}
use ropey.Crates.{Crates, IsDocumented}
use ropey.Crates.Measures.Laws.{cuts_crlf}
use ropey.Str.Cut.{boundary_end}
use ropey.Str.Utf8.{append-IsStr}
use ropey.Tree.{Limits, Node, leaf, internal, NodeChildren, pack, unpack, unpack-pack}
use ropey.Tree.Content.{text, entries_text, children_text, Fits, IsTree}
use ropey.NodeText.{push_str_split}
use ropey.NodeText.Edits.{push_str_lem}
use ropey.NodeText.Halves.{insert_str_split_lem, AreHalves}
use ropey.NodeChildren.Arrays.{move_children_parts}
use ropey.NodeChildren.Halves.{distribute_with_lem}
use ropey.NodeChildren.Infos.{children_text-append, Fits-prefix, Fits-suffix}
use ropey.Node.Info.{entries_text-unpack, IsTree-IsStr, Fits-seam, Fits-some_text}
use ropey.Node.Merge.{merge_nodes}
use ropey.NodeText.Split.Eight.{long_have_break}
use ropey.Str.{IsStr}
use ropey.Tree.Counts.{
  nodes, packed_nodes, children_nodes, children_nodes-append, entries_nodes-unpack,
}

-- The merged node, or the two nodes, hold the text `whole`, and are balanced trees of depth `d`, with
-- `count` nodes, or one less if they are merged. Two nodes are not empty, and do not cut a CRLF pair.
pub record AreMerged ⦃lim : Limits⦄ (d : ℕ) (whole : List ℕ) (count : ℕ) (merged : Bool)
    (l r : Node) : Type 0 where
  pub joins : text l ++ (if merged then [] else text r) ≡ whole
  pub left_tree : IsTree d l
  pub counts : nodes l + (if merged then 1 else nodes r) ≡ count
  pub right_tree : (merged ≡ true) ⊎ IsTree d r
  pub apart :
      (merged ≡ true)
      ⊎ ((0 < length (text l)) × (0 < length (text r)) × (cuts_crlf (text l) (text r) ≡ false))

module _ (P : Node → Type 0) where
  pub Fits-append :
      (xs ys : NodeChildren)
      → Fits P xs
      → Fits P ys
      → cuts_crlf (children_text xs) (children_text ys) ≡ false
      → Fits P (xs ++ ys)
  Fits-append [] ys h k seam = k
  Fits-append ((i, n) ∷ xs) ys h k seam =
      let later : ((children_text xs ≡ [])
            ⊎ (cuts_crlf (children_text xs) (children_text ys) ≡ false))
          → cuts_crlf (children_text xs) (children_text ys) ≡ false =
        no_seam (children_text xs) (children_text ys) in
      (
        h.0,
        h.1,
        h.2,
        rw (children_text-append xs ys)
            (cuts_crlf-join (text n) (children_text xs) (children_text ys) h.3 seam),
        Fits-append xs ys h.4 k
            (later (cuts_crlf-behind (text n) (children_text xs) (children_text ys) seam)),
      )

pub packed_text : (cs : NodeChildren) → text (internal (pack cs)) ≡ children_text cs
packed_text cs = entries_text-unpack (pack cs) ∙ ap children_text (unpack-pack cs)

pub packed-IsTree :
    ⦃lim : Limits⦄ (d : ℕ) (cs : NodeChildren)
    → 0 < length cs
    → length cs ≤ lim.max_children
    → Fits (IsTree d) cs
    → IsTree (suc d) (internal (pack cs))
packed-IsTree ⦃lim = lim⦄ d cs pos room fits =
    subst (λ t. (0 < length t) × (length t ≤ lim.max_children) × Fits (IsTree d) t)
      (sym (unpack-pack cs)) (pos, room, fits)

right_of_long : (t l r : List ℕ) → IsStr t → 8 ≤ length t → AreHalves t l r → 0 < length r
right_of_long t l [] h long halves = absurd (
    long_have_break t h long
      (halves.meets.at_end_only (sym (ap length (append-nil l)) ∙ ap length halves.joins)))
right_of_long t l (b ∷ r) h long halves = omega arith

module _ ⦃lim : Limits⦄ ⦃crates : Crates⦄ (docs : IsDocumented crates) where
  -- With a limit of at least seven bytes for a leaf, two balanced trees of the same depth, which do
  -- not cut a CRLF pair between them, are merged or evened out without a panic; the merged tree, or
  -- the two trees, hold the same text and are balanced again, with one node less or as many nodes.
  -- Two trees are not empty, and do not cut a CRLF pair.
  pub merge_nodes_lem :
      (d : ℕ) (l r : Node)
      → 7 ≤ lim.max_bytes
      → IsTree d l
      → IsTree d r
      → cuts_crlf (text l) (text r) ≡ false
      → (merged : Bool) × (l' : Node) × (r' : Node) × (merge_nodes l r ≡ some (merged, l', r'))
        × AreMerged d (text l ++ text r) (nodes l + nodes r) merged l' r'
  unfolding merge_nodes push_str_split
  merge_nodes_lem zero (leaf t) (leaf u) long h k seam =
      elim (Bool-cases (leb (length t + length u) lim.max_bytes)) [
        | inl fits ↦ (
          true,
          leaf (t ++ u),
          leaf u,
          rw (fits, push_str_lem docs t u),
          record {
            joins = append-nil (t ++ u);
            left_tree = append-IsStr t u h k;
            counts = refl;
            right_tree = inl refl;
            apart = inl refl;
          },
        )
        | inr big ↦
            let (a, b, e, halves) =
              insert_str_split_lem docs t u (length t) h k (boundary_end t) (ground arith) in
            let same : take (length t) t ++ (u ++ drop (length t) t) ≡ t ++ u =
              rw (take_all, drop_all, append-nil) refl in
            (
              false,
              leaf a,
              leaf b,
              rw (big, e),
              record {
                joins = halves.joins ∙ same;
                left_tree = halves.left_str;
                counts = refl;
                right_tree = inr halves.right_str;
                apart = inr (
                  halves.meets.after_start,
                  right_of_long (t ++ u) a b (append-IsStr t u h k)
                      (ground (arith, big, long, length-append t u)) (rw same at halves),
                  IsBreak-cuts_crlf a b halves.meets.after_start
                      (rw (← halves.joins) at halves.meets.is_split),
                );
              },
            )
      ]
  merge_nodes_lem zero (leaf t) (internal es) long h k seam = absurd k
  merge_nodes_lem zero (internal es) r long h k seam = absurd h
  merge_nodes_lem (suc d) (leaf t) r long h k seam = absurd h
  merge_nodes_lem (suc d) (internal es) (leaf t) long h k seam = absurd k
  merge_nodes_lem (suc d) (internal es) (internal fs) long h k seam =
      let cs = unpack es in
      let ds = unpack fs in
      let whole : children_text (cs ++ ds) ≡ entries_text es ++ entries_text fs =
        children_text-append cs ds
        ∙ sym (ap₂ (λ a b. a ++ b) (entries_text-unpack es) (entries_text-unpack fs)) in
      let all : Fits (IsTree d) (cs ++ ds) =
        Fits-append (IsTree d) cs ds h.2 k.2
          (rw (entries_text-unpack es, entries_text-unpack fs) at seam) in
      elim (Bool-cases (leb (length cs + length ds) lim.max_children)) [
        | inl fits ↦ (
          true,
          internal (pack (cs ++ ds)),
          internal (pack []),
          rw (fits, move_children_parts [] ds cs (ground arith)),
          record {
            joins =
                append-nil (text (internal (pack (cs ++ ds)))) ∙ (packed_text (cs ++ ds) ∙ whole);
            counts = omega (
              arith,
              packed_nodes (cs ++ ds),
              children_nodes-append cs ds,
              entries_nodes-unpack es,
              entries_nodes-unpack fs,
            );
            left_tree =
                packed-IsTree d (cs ++ ds) (omega (arith, length-append cs ds, h.0))
                  (ground (arith, length-append cs ds)) all;
            right_tree = inl refl;
            apart = inl refl;
          },
        )
        | inr big ↦
            let (a, b, e, even) = distribute_with_lem cs ds h.1 k.1 in
            let len = ap length even.joins in
            let total : length a + length b ≡ length cs + length ds =
              omega (arith, len, length-append a b, length-append cs ds) in
            let half : length b ≡ (length cs + length ds) / 2 =
              even.right_len ∙ ap (λ n. n / 2) (length-append cs ds) in
            let split : Fits (IsTree d) (a ++ b) = rw even.joins all in
            (
              false,
              internal (pack a),
              internal (pack b),
              rw (big, e),
              record {
                joins =
                    ap₂ (λ x y. x ++ y) (packed_text a) (packed_text b)
                    ∙ (sym (children_text-append a b) ∙ (ap children_text even.joins ∙ whole));
                counts = omega (
                  arith,
                  packed_nodes a,
                  packed_nodes b,
                  children_nodes-append a b,
                  ap children_nodes even.joins,
                  children_nodes-append cs ds,
                  entries_nodes-unpack es,
                  entries_nodes-unpack fs,
                );
                left_tree =
                    packed-IsTree d a (omega (arith, total, half, h.0, h.1, k.0, k.1))
                      (omega (arith, total, half, h.0, h.1, k.0, k.1))
                      (Fits-prefix (IsTree d) (IsTree-IsStr d) a b split);
                right_tree = inr (
                    packed-IsTree d b (omega (arith, total, half, h.0, h.1, k.0, k.1))
                      (omega (arith, total, half, h.0, h.1, k.0, k.1))
                      (Fits-suffix (IsTree d) (IsTree-IsStr d) a b split));
                apart = inr (
                  rw (packed_text a) (
                      Fits-some_text d a (Fits-prefix (IsTree d) (IsTree-IsStr d) a b split)
                        (omega (arith, total, half, h.0, h.1, k.0, k.1))),
                  rw (packed_text b) (
                      Fits-some_text d b (Fits-suffix (IsTree d) (IsTree-IsStr d) a b split)
                        (omega (arith, total, half, h.0, h.1, k.0, k.1))),
                  rw (packed_text a, packed_text b) (Fits-seam d a b split),
                );
              },
            )
      ]
