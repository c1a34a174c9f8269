-- ===== src/Node/Divide/Divided.antt =====
-- The two trees that `split` of src/tree/node.rs makes at a leaf, between two children of a node,
-- and through a child.
use ropey.Crates.Measures.Seams.{and_false, cuts_crlf-front}
use ropey.Common.{
  ℕ, suc, ◌+◌, ◌≤◌, ◌<◌, ◌≡◌, sym, ◌∙◌, ap, ap₂, false, not, some, List, [], ◌∷◌, ◌++◌, arith,
  length, length-append, subst, take, drop, append_assoc, get_elem?-append_middle, append-nil, ◌&&◌,
}
use ropey.Crlf.{is_continuation, lf}
use ropey.Crates.{Crates, IsDocumented}
use ropey.Crates.Measures.{count_chars, byte_is}
use ropey.Crates.Measures.Laws.{cuts_crlf, tally-append, tally-le-length, ends_cr, ends_cr-append}
use ropey.Str.{IsStr}
use ropey.Str.Cut.{IsCut-at}
use ropey.TextInfo.{TextInfo}
use ropey.Tree.{Limits, Node, leaf, internal, Child, NodeChildren, pack}
use ropey.Tree.Content.{text, children_text, Fits, IsTree}
use ropey.NodeText.Edits.{split_off_parts}
use ropey.NodeChildren.{search_char_idx}
use ropey.NodeChildren
use ropey.NodeChildren.Arrays
use ropey.NodeChildren.Infos.{children_text-append, Fits-prefix, Fits-suffix, seam_before}
use ropey.Node.Info.{IsTree-IsStr, text_info-measure}
use ropey.Node.Merge.Merged.{packed_text, packed-IsTree, Fits-append}
use ropey.Node.Divide.{split, split_between, split_through}
use ropey.Node.Merge.{update_child_info}
use ropey.Node.{text_info}
use ropey.Node.Merge.Leaves.{set_child_parts}
use ropey.NodeChildren.Arrays.{insert_parts}

-- Two balanced trees that hold the text `t`, the left one its first `i` chars.
pub record AreDivided ⦃lim : Limits⦄ (d : ℕ) (t : List ℕ) (i : ℕ) (l r : Node) : Type 0 where
  pub joins : text l ++ text r ≡ t
  pub left_chars : count_chars (text l) ≡ i
  pub left_tree : IsTree d l
  pub right_tree : IsTree d r

module _ ⦃lim : Limits⦄ ⦃crates : Crates⦄ (docs : IsDocumented crates) where
  pub divided_leaf :
      (t : List ℕ) (i fuel : ℕ)
      → IsStr t
      → i ≤ count_chars t
      → (l r : Node) × (split (suc fuel) (leaf t) i ≡ some (l, r)) × AreDivided 0 t i l r
  unfolding split
  divided_leaf t i fuel h le =
      let b = crates.chars_to_byte_idx t i in
      let cut = IsCut-at t b h (docs.to_byte-boundary t i h) in
      let e =
        rw (cut.joins, cut.left_len) at
          (split_off_parts docs (take b t) (drop b t) cut.right_str) in
      (
        leaf (take b t),
        leaf (drop b t),
        rw e,
        record {
          joins = cut.joins;
          left_chars = omega (arith, docs.to_byte-count t i h);
          left_tree = cut.left_str;
          right_tree = cut.right_str;
        },
      )

  pub between_lem :
      (d : ℕ) (xs ys : NodeChildren)
      → Fits (IsTree d) (xs ++ ys)
      → length (xs ++ ys) ≤ lim.max_children
      → 0 < length xs
      → 0 < length ys
      → (l r : Node) × (split_between (xs ++ ys) (length xs) ≡ some (l, r))
        × AreDivided (suc d) (children_text (xs ++ ys)) (count_chars (children_text xs)) l r
  unfolding split_between
  between_lem d xs ys h room px py =
      let len = length-append xs ys in
      (
        internal (pack xs),
        internal (pack ys),
        rw (Arrays.split_off_parts xs ys (omega (arith, len))),
        record {
          joins =
              ap₂ (λ a b. a ++ b) (packed_text xs) (packed_text ys)
              ∙ sym (children_text-append xs ys);
          left_chars = ap count_chars (packed_text xs);
          left_tree =
              packed-IsTree d xs px (omega (arith, len))
                (Fits-prefix (IsTree d) (IsTree-IsStr d) xs ys h);
          right_tree =
              packed-IsTree d ys py (omega (arith, len))
                (Fits-suffix (IsTree d) (IsTree-IsStr d) xs ys h);
        },
      )

  update_child_info_parts :
      (xs ys : NodeChildren) (c : Child)
      → update_child_info (xs ++ c ∷ ys) (length xs) ≡ some (xs ++ (text_info c.1, c.1) ∷ ys)
  unfolding update_child_info
  update_child_info_parts xs ys c =
      rw (get_elem?-append_middle xs (c ∷ ys), set_child_parts xs ys c (text_info c.1, c.1))

  module _ (d : ℕ) (xs ys : NodeChildren) (ci : TextInfo) (n : Node)
      (h : Fits (IsTree d) (xs ++ (ci, n) ∷ ys))
      (room : length (xs ++ (ci, n) ∷ ys) ≤ lim.max_children) (j : ℕ) (a b : Node) (pos : 0 < j)
      (inside : j < count_chars (text n)) (parts : AreDivided d (text n) j a b) where
    chars_b : count_chars (text n) ≡ j + count_chars (text b)
    chars_b =
        ap count_chars (sym parts.joins)
        ∙ omega
            (arith, tally-append (λ b. not (is_continuation b)) (text a) (text b), parts.left_chars)

    some_a : 0 < length (text a)
    some_a =
        omega (arith, parts.left_chars, tally-le-length (λ b. not (is_continuation b)) (text a))

    some_b : 0 < length (text b)
    some_b = omega (arith, chars_b, tally-le-length (λ b. not (is_continuation b)) (text b))

    here : Fits (IsTree d) ((ci, n) ∷ ys)
    here = Fits-suffix (IsTree d) (IsTree-IsStr d) xs ((ci, n) ∷ ys) h

    left-Fits : Fits (IsTree d) (xs ++ (text_info a, a) ∷ [])
    left-Fits =
        let seam = seam_before (IsTree d) (IsTree-IsStr d) xs ys (ci, n) h in
        Fits-append (IsTree d) xs ((text_info a, a) ∷ [])
          (Fits-prefix (IsTree d) (IsTree-IsStr d) xs ((ci, n) ∷ ys) h)
          (
            parts.left_tree,
            some_a,
            text_info-measure docs d a parts.left_tree,
            and_false (ends_cr (text a)),
            tt,
          )
          (rw append-nil (
            sym (cuts_crlf-front (children_text xs) (text a) (text b) some_a)
            ∙ (ap (cuts_crlf (children_text xs)) parts.joins ∙ seam)))

    right-Fits : Fits (IsTree d) ((text_info b, b) ∷ ys)
    right-Fits = (
      parts.right_tree,
      some_b,
      text_info-measure docs d b parts.right_tree,
      subst (λ e. (e && byte_is (children_text ys) 0 lf) ≡ false)
          (ap ends_cr (sym parts.joins) ∙ ends_cr-append (text a) (text b) some_b) here.3,
      here.4,
    )

    left_text : text (internal (pack (xs ++ (text_info a, a) ∷ []))) ≡ children_text xs ++ text a
    left_text =
        packed_text (xs ++ (text_info a, a) ∷ [])
        ∙ (children_text-append xs ((text_info a, a) ∷ [])
            ∙ ap (λ t. children_text xs ++ t) (append-nil (text a)))

    pub through_lem :
        (l r : Node) × (split_through (xs ++ (ci, n) ∷ ys) (length xs) (ci, n) (a, b) ≡ some (l, r))
        × AreDivided
            (suc d)
            (children_text (xs ++ (ci, n) ∷ ys))
            (count_chars (children_text xs) + j)
            l
            r
    unfolding split_through
    through_lem =
        let len = length-append xs ((ci, n) ∷ ys) in
        let len' = length-append xs ((ci, n) ∷ []) in
        let cut : NodeChildren.split_off (xs ++ (ci, n) ∷ ys) (length xs + 1)
            ≡ some (xs ++ (ci, n) ∷ [], ys) =
          rw (append_assoc, length-append) at
            (Arrays.split_off_parts (xs ++ (ci, n) ∷ []) ys (omega (arith, len))) in
        let lefts = xs ++ (text_info a, a) ∷ [] in
        let rights = (text_info b, b) ∷ ys in
        (
          internal (pack lefts),
          internal (pack rights),
          rw (
            cut,
            set_child_parts xs [] (ci, n) (ci, a),
            insert_parts [] ys (text_info b, b) (omega (arith, len)),
            update_child_info_parts xs [] (ci, a),
            update_child_info_parts [] ys (text_info b, b),
          ),
          record {
            joins =
                ap₂ (λ u v. u ++ v) left_text (packed_text ((text_info b, b) ∷ ys))
                ∙ (append_assoc (children_text xs) (text a) (text b ++ children_text ys)
                    ∙ (ap (λ t. children_text xs ++ t)
                          (sym (append_assoc (text a) (text b) (children_text ys))
                            ∙ ap (λ t. t ++ children_text ys) parts.joins)
                        ∙ sym (children_text-append xs ((ci, n) ∷ ys))));
            left_chars =
                ap count_chars left_text
                ∙ omega (
                  arith,
                  tally-append (λ b. not (is_continuation b)) (children_text xs) (text a),
                  parts.left_chars,
                );
            left_tree =
                packed-IsTree d lefts (omega (arith, length-append xs ((text_info a, a) ∷ [])))
                  (omega (arith, len, length-append xs ((text_info a, a) ∷ []))) left-Fits;
            right_tree = packed-IsTree d rights (omega arith) (omega (arith, len)) right-Fits;
          },
        )
