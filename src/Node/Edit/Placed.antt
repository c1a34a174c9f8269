-- ===== src/Node/Edit/Placed.antt =====
-- The step of `edit_chunk_at_char` of src/tree/node.rs that puts an edited child and the node split
-- off it in the place of the child.
use ropey.Common.{
  ℕ, suc, ◌+◌, ◌/◌, ◌≤◌, ◌<◌, ◌≡◌, refl, sym, ◌∙◌, ap, ap₂, false, Option, none, some, List, [],
  ◌∷◌, ◌++◌, arith, ltb, inl, inr, Bool-cases, length, length-append, append-nil,
}
use ropey.Crates.Measures.Laws.{cuts_crlf, ends_cr}
use ropey.Str.{IsStr}
use ropey.TextInfo.{TextInfo, add, sub}
use ropey.TextInfo.Laws.{
  measure, measure-append_three, add-sub_middle, add-sub_middle_two, measure-IsCount,
  measure-append, add_assoc,
}
use ropey.Tree.{Limits, Node, internal, Child, NodeChildren, pack}
use ropey.Tree.Content.{text, children_text, Fits, IsTree}
use ropey.NodeChildren.{combined_info}
use ropey.NodeChildren.Infos.{
  children_text-append, combined_info_lem, Fits-prefix, Fits-suffix, children-IsStr, seam_before,
}
use ropey.Node.Info.{IsTree-IsStr, Fits-seam, Fits-some_text}
use ropey.Node.Merge.Merged.{Fits-append, packed_text, packed-IsTree}
use ropey.Node.Edit.{place_residual}
use ropey.Crates.Measures.Seams.{cuts_crlf-front, and_false}
use ropey.Crates.{Crates}
use ropey.Str.Utf8.{append-IsStr}
use ropey.Node.Edit.Edited.{IsEdited, insert_behind, insert_split_behind}

module _ ⦃lim : Limits⦄ (d : ℕ) (xs ys : NodeChildren) (info : TextInfo) (n : Node)
    (h : Fits (IsTree d) (xs ++ (info, n) ∷ ys))
    (room : length (xs ++ (info, n) ∷ ys) ≤ lim.max_children) (whole : List ℕ) (n' : Node)
    (l_info : TextInfo) (left_seam : cuts_crlf (children_text xs) whole ≡ false)
    (right_seam : cuts_crlf whole (children_text ys) ≡ false) where
  before-IsStr : IsStr (children_text xs)
  before-IsStr =
      children-IsStr (IsTree d) (IsTree-IsStr d) xs
        (Fits-prefix (IsTree d) (IsTree-IsStr d) xs ((info, n) ∷ ys) h)

  here : Fits (IsTree d) ((info, n) ∷ ys)
  here = Fits-suffix (IsTree d) (IsTree-IsStr d) xs ((info, n) ∷ ys) h

  -- The new children in the middle, which hold the text.
  placed-Fits :
      (ms : NodeChildren)
      → Fits (IsTree d) ms
      → children_text ms ≡ whole
      → 0 < length whole
      → Fits (IsTree d) (xs ++ (ms ++ ys))
  placed-Fits ms fits same pos =
      let after : Fits (IsTree d) (ms ++ ys) =
        Fits-append (IsTree d) ms ys fits here.4 (rw same right_seam) in
      Fits-append (IsTree d) xs (ms ++ ys)
        (Fits-prefix (IsTree d) (IsTree-IsStr d) xs ((info, n) ∷ ys) h) after
        (rw (children_text-append ms ys, same)
          (cuts_crlf-front (children_text xs) whole (children_text ys) pos ∙ left_seam))

  placed_text :
      (ms : NodeChildren)
      → children_text ms ≡ whole
      → children_text (xs ++ (ms ++ ys)) ≡ children_text xs ++ (whole ++ children_text ys)
  placed_text ms same =
      children_text-append xs (ms ++ ys)
      ∙ ap (λ t. children_text xs ++ t)
          (children_text-append ms ys ∙ ap (λ t. t ++ children_text ys) same)

  old_measure :
      measure (children_text (xs ++ (info, n) ∷ ys))
      ≡ add (measure (children_text xs)) (add (measure (text n)) (measure (children_text ys)))
  old_measure =
      ap measure (children_text-append xs ((info, n) ∷ ys))
      ∙ measure-append_three (children_text xs) (text n) (children_text ys) before-IsStr
          (IsTree-IsStr d n here.0)
          (cuts_crlf-front (children_text xs) (text n) (children_text ys) here.1
            ∙ seam_before (IsTree d) (IsTree-IsStr d) xs ys (info, n) h)
          here.3

  new_measure :
      IsStr whole
      → 0 < length whole
      → measure (children_text xs ++ (whole ++ children_text ys))
        ≡ add (measure (children_text xs)) (add (measure whole) (measure (children_text ys)))
  new_measure h pos =
      measure-append_three (children_text xs) whole (children_text ys) before-IsStr h
        (cuts_crlf-front (children_text xs) whole (children_text ys) pos ∙ left_seam) right_seam

  -- The node with the children `cs`, which hold the new text.
  placed-IsEdited :
      (cs : NodeChildren) (info' : TextInfo)
      → Fits (IsTree d) cs
      → 0 < length cs
      → length cs ≤ lim.max_children
      → children_text cs ≡ children_text xs ++ (whole ++ children_text ys)
      → info' ≡ measure (children_text xs ++ (whole ++ children_text ys))
      → 0 < length whole
      → IsEdited
          (suc d)
          (children_text xs ++ (whole ++ children_text ys))
          (internal (pack cs))
          info'
          none
  placed-IsEdited cs info' fits pos fit same exact some_text =
      let t = packed_text cs ∙ same in
      record {
        joins = append-nil (text (internal (pack cs))) ∙ t;
        tree = packed-IsTree d cs pos fit fits;
        not_empty = rw t (
            omega (
              arith,
              length-append (children_text xs) (whole ++ children_text ys),
              length-append whole (children_text ys),
            ));
        accurate = exact ∙ ap measure (sym t);
        split_off = tt;
        meets = and_false (ends_cr (text (internal (pack cs))));
      }

  module _ {ℓ} {S : Type ℓ} ⦃crates : Crates⦄ (s : S) where
    pub place_none :
        IsEdited d whole n' l_info none
        → (node : Node) × (info' : TextInfo) × (residual : Option Child) × (place_residual s
              (xs ++ (l_info, n') ∷ ys)
              (length xs)
              (measure (children_text (xs ++ (info, n) ∷ ys)))
              info
              l_info
              none
            ≡ some (s, node, info', residual))
          × IsEdited (suc d) (children_text xs ++ (whole ++ children_text ys)) node info' residual
    unfolding place_residual
    place_none e =
        let w : text n' ≡ whole = sym (append-nil (text n')) ∙ e.joins in
        let str : IsStr whole = rw w at (IsTree-IsStr d n' e.tree) in
        let pos : 0 < length whole = rw w at e.not_empty in
        let ms = (l_info, n') ∷ [] in
        let fits : Fits (IsTree d) ms =
          (e.tree, e.not_empty, e.accurate, and_false (ends_cr (text n')), tt) in
        let len = length-append xs ((info, n) ∷ ys) in
        let len' = length-append xs ((l_info, n') ∷ ys) in
        (
          internal (pack (xs ++ (l_info, n') ∷ ys)),
          add (sub (measure (children_text (xs ++ (info, n) ∷ ys))) info) l_info,
          none,
          refl,
          placed-IsEdited (xs ++ (l_info, n') ∷ ys) _ (placed-Fits ms fits e.joins pos)
              (omega (arith, len')) (omega (arith, len, len', room)) (placed_text ms e.joins)
              (ap₂ (λ m i. add (sub m i) l_info) old_measure here.2
                ∙ (ap
                      (λ l.
                        add
                          (sub
                            (add (measure (children_text xs))
                              (add (measure (text n)) (measure (children_text ys))))
                            (measure (text n)))
                          l)
                      (e.accurate ∙ ap measure w)
                    ∙ (add-sub_middle (measure (children_text xs)) (measure (children_text ys))
                          (measure (text n)) (measure whole) (measure-IsCount (text n))
                        ∙ sym (new_measure str pos))))
              pos,
        )

    pub place_some :
        (ri : TextInfo) (r : Node)
        → IsEdited d whole n' l_info (some (ri, r))
        → (node : Node) × (info' : TextInfo) × (residual : Option Child) × (place_residual s
              (xs ++ (l_info, n') ∷ ys)
              (length xs)
              (measure (children_text (xs ++ (info, n) ∷ ys)))
              info
              l_info
              (some (ri, r))
            ≡ some (s, node, info', residual))
          × IsEdited (suc d) (children_text xs ++ (whole ++ children_text ys)) node info' residual
    unfolding place_residual
    place_some ri r e =
        let str : IsStr whole = rw e.joins at (
          append-IsStr (text n') (text r) (IsTree-IsStr d n' e.tree)
            (IsTree-IsStr d r e.split_off.0)) in
        let two = length-append (text n') (text r) in
        let joined : 0 < length (text n' ++ text r) = omega (arith, two, e.not_empty) in
        let pos : 0 < length whole = rw e.joins at joined in
        let ms = (l_info, n') ∷ ((ri, r) ∷ []) in
        let joins : children_text ms ≡ whole =
          ap (λ t. text n' ++ t) (append-nil (text r)) ∙ e.joins in
        let fits : Fits (IsTree d) ms = (
          e.tree,
          e.not_empty,
          e.accurate,
          rw append-nil e.meets,
          (e.split_off.0, e.split_off.1, e.split_off.2, and_false (ends_cr (text r)), tt),
        ) in
        let parts : measure whole ≡ add (measure (text n')) (measure (text r)) =
          ap measure (sym e.joins)
          ∙ measure-append (text n') (text r) (IsTree-IsStr d n' e.tree) e.meets in
        let all = placed-Fits ms fits joins pos in
        let len = length-append xs ((info, n) ∷ ys) in
        let len' = length-append xs ((l_info, n') ∷ ys) in
        let len'' = length-append xs ((l_info, n') ∷ ((ri, r) ∷ ys)) in
        elim (Bool-cases (ltb (length (xs ++ (l_info, n') ∷ ys)) lim.max_children)) [
          | inl space ↦ (
            internal (pack (xs ++ (l_info, n') ∷ ((ri, r) ∷ ys))),
            add (add (sub (measure (children_text (xs ++ (info, n) ∷ ys))) info) l_info) ri,
            none,
            rw (space, insert_behind xs ys (l_info, n') (ri, r) (ground arith)),
            placed-IsEdited (xs ++ (l_info, n') ∷ ((ri, r) ∷ ys)) _ all (omega (arith, len''))
                (ground (arith, len', len'')) (placed_text ms joins)
                (ap₂ (λ m i. add (add (sub m i) l_info) ri) old_measure here.2
                  ∙ (ap₂
                        (λ l m.
                          add
                            (add
                              (sub
                                (add (measure (children_text xs))
                                  (add (measure (text n)) (measure (children_text ys))))
                                (measure (text n)))
                              l)
                            m)
                        e.accurate e.split_off.2
                      ∙ (add-sub_middle_two (measure (children_text xs))
                            (measure (children_text ys)) (measure (text n)) (measure (text n'))
                            (measure (text r)) (measure-IsCount (text n))
                          ∙ (ap (add (measure (children_text xs))) (
                                sym (
                                  add_assoc (measure (text n')) (measure (text r))
                                    (measure (children_text ys)))
                                ∙ ap (λ m. add m (measure (children_text ys))) (sym parts))
                              ∙ sym (new_measure str pos)))))
                pos,
          )
          | inr full ↦
              let (a, b, q, even) =
                insert_split_behind xs ys (l_info, n') (ri, r) (omega (arith, len, len', room)) in
              let sizes = ap length even.joins in
              let total : length a + length b ≡ length xs + length ys + 2 =
                omega (arith, sizes, length-append a b, len'') in
              let half : length b ≡ (length xs + length ys + 2) / 2 =
                even.right_len ∙ ap (λ m. m / 2) (omega (arith, len'')) in
              let both : Fits (IsTree d) (a ++ b) = rw even.joins all in
              let fa = Fits-prefix (IsTree d) (IsTree-IsStr d) a b both in
              let fb = Fits-suffix (IsTree d) (IsTree-IsStr d) a b both in
              let la : 0 < length a = omega (arith, total, half) in
              let ra : length a ≤ lim.max_children = omega (arith, total, half, len, room) in
              let rb : length b ≤ lim.max_children = omega (arith, total, half, len, room) in
              let lb : 0 < length b = omega (arith, total, half) in
              (
                internal (pack a),
                combined_info a,
                some (combined_info b, internal (pack b)),
                rw (full, q),
                record {
                  joins =
                      ap₂ (λ t u. t ++ u) (packed_text a) (packed_text b)
                      ∙ (sym (children_text-append a b)
                          ∙ (ap children_text even.joins ∙ placed_text ms joins));
                  tree = packed-IsTree d a la ra fa;
                  not_empty = rw (packed_text a) (Fits-some_text d a fa la);
                  accurate =
                      combined_info_lem (IsTree d) (IsTree-IsStr d) a fa
                      ∙ ap measure (sym (packed_text a));
                  split_off = (
                    packed-IsTree d b lb rb fb,
                    rw (packed_text b) (Fits-some_text d b fb lb),
                    combined_info_lem (IsTree d) (IsTree-IsStr d) b fb
                        ∙ ap measure (sym (packed_text b)),
                  );
                  meets = rw (packed_text a, packed_text b) (Fits-seam d a b both);
                },
              )
        ]
