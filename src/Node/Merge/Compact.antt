-- ===== src/Node/Merge/Compact.antt =====
-- One round of `compact_leaves` of src/tree/node_children.rs.
use ropey.Crates.Measures.Seams.{cuts_crlf-front, IsBreak-cuts_crlf}
use ropey.Common.{
  ℕ, zero, suc, ◌+◌, ◌-◌, ◌<◌, ◌≡◌, refl, sym, ◌∙◌, ap, inl, inr, true, false, some, List, ◌∷◌,
  ◌++◌, arith, ltb, leb, length, length-append, subst, Bool-cases, append-nil, append_assoc, take,
  drop, take-append-drop, length-drop, get_elem?-append_right, get_elem?-append_middle, ◌&&◌,
}
use ropey.Crates.{Crates, IsDocumented}
use ropey.Crates.Measures.Laws.{cuts_crlf, ends_cr-append, ends_cr}
use ropey.Crlf.{prev_break, lf}
use ropey.Crlf.Breaks.{IsBreak, prev_break_lem}
use ropey.Str.{IsStr, is_char_boundary}
use ropey.Str.Cut.{IsCut-at, break-boundary}
use ropey.Str.Utf8.{append-IsStr}
use ropey.Tree.{Limits, leaf, NodeChildren}
use ropey.Tree.Content.{children_text}
use ropey.TextInfo.{TextInfo}
use ropey.NodeText.Edits.{push_str_lem}
use ropey.Node.Merge.{compact_step}
use ropey.Crates.Measures.{byte_is}
use ropey.Node.Merge.Leaves.{
  AreLeaves, AreLeaves-suffix, AreLeaves-replace, set_child_parts, set_child-second, remove-second,
  IsRound, text_behind, slice_take, truncate_front-drop,
}

module _ ⦃lim : Limits⦄ ⦃crates : Crates⦄ (docs : IsDocumented crates) where
  module _ (xs ys : NodeChildren) (li ri : TextInfo) (tl tr : List ℕ)
      (h : AreLeaves (xs ++ (li, leaf tl) ∷ ((ri, leaf tr) ∷ ys))) where
    here : AreLeaves ((li, leaf tl) ∷ ((ri, leaf tr) ∷ ys))
    here = AreLeaves-suffix xs ((li, leaf tl) ∷ ((ri, leaf tr) ∷ ys)) h

    prev : length xs + 1 - 1 ≡ length xs
    prev = omega arith

    step_merges :
        leb (length tl + length tr) lim.max_bytes ≡ true
        → compact_step (length xs + 1) (xs ++ (li, leaf tl) ∷ ((ri, leaf tr) ∷ ys))
          ≡ some (length xs + 1, xs ++ (li, leaf (tl ++ tr)) ∷ ys)
    unfolding compact_step
    step_merges fits = rw (
      prev,
      get_elem?-append_middle xs ((li, leaf tl) ∷ ((ri, leaf tr) ∷ ys)),
      get_elem?-append_right xs ((li, leaf tl) ∷ ((ri, leaf tr) ∷ ys)) 1,
      fits,
      push_str_lem docs tl tr,
      set_child_parts xs ((ri, leaf tr) ∷ ys) (li, leaf tl) (li, leaf (tl ++ tr)),
      remove-second xs ys (li, leaf (tl ++ tr)) (ri, leaf tr),
    )

    step_shifts :
        (s : ℕ)
        → IsStr tr
        → leb (length tl + length tr) lim.max_bytes ≡ false
        → ltb (length tl) lim.max_bytes ≡ true
        → prev_break (lim.max_bytes - length tl) tr ≡ some s
        → is_char_boundary tr s ≡ true
        → compact_step (length xs + 1) (xs ++ (li, leaf tl) ∷ ((ri, leaf tr) ∷ ys))
          ≡ some (
            length xs + 1 + 1,
            xs ++ (li, leaf (tl ++ take s tr)) ∷ ((ri, leaf (drop s tr)) ∷ ys),
          )
    unfolding compact_step
    step_shifts s str big room found bound = rw (
      prev,
      get_elem?-append_middle xs ((li, leaf tl) ∷ ((ri, leaf tr) ∷ ys)),
      get_elem?-append_right xs ((li, leaf tl) ∷ ((ri, leaf tr) ∷ ys)) 1,
      big,
      room,
      found,
      slice_take tr s str bound,
      push_str_lem docs tl (take s tr),
      truncate_front-drop docs tr s str bound,
      set_child_parts xs ((ri, leaf tr) ∷ ys) (li, leaf tl) (li, leaf (tl ++ take s tr)),
      set_child-second xs ys (li, leaf (tl ++ take s tr)) (ri, leaf tr) (ri, leaf (drop s tr)),
    )

    step_skips :
        leb (length tl + length tr) lim.max_bytes ≡ false
        → ltb (length tl) lim.max_bytes ≡ false
        → compact_step (length xs + 1) (xs ++ (li, leaf tl) ∷ ((ri, leaf tr) ∷ ys))
          ≡ some (length xs + 1 + 1, xs ++ (li, leaf tl) ∷ ((ri, leaf tr) ∷ ys))
    unfolding compact_step
    step_skips big full = rw (
      prev,
      get_elem?-append_middle xs ((li, leaf tl) ∷ ((ri, leaf tr) ∷ ys)),
      get_elem?-append_right xs ((li, leaf tl) ∷ ((ri, leaf tr) ∷ ys)) 1,
      big,
      full,
    )

    joined-AreLeaves : AreLeaves ((li, leaf (tl ++ tr)) ∷ ys)
    joined-AreLeaves = (
      append-IsStr tl tr here.0 here.3.0,
      omega (arith, length-append tl tr, here.1),
      rw (ends_cr-append tl tr here.3.1) here.3.2,
      here.3.3,
    )

    shifted_seam :
        (s : ℕ)
        → s < length tr
        → IsBreak s tr
        → cuts_crlf (tl ++ take s tr) (drop s tr ++ children_text ys) ≡ false
    shifted_seam zero lt isb = rw append-nil here.2
    shifted_seam (suc k) lt isb =
        let cut = IsCut-at tr (suc k) here.3.0 (break-boundary tr (suc k) isb) in
        rw (ends_cr-append tl (take (suc k) tr) (omega (arith, cut.left_len))) (
          cuts_crlf-front (take (suc k) tr) (drop (suc k) tr) (children_text ys)
            (omega (arith, length-drop (suc k) tr))
          ∙ IsBreak-cuts_crlf (take (suc k) tr) (drop (suc k) tr) (omega (arith, cut.left_len))
              (rw (cut.joins, cut.left_len) isb))

    shifted_seam_right :
        (s : ℕ) → s < length tr → IsBreak s tr → cuts_crlf (drop s tr) (children_text ys) ≡ false
    shifted_seam_right s lt isb =
        let cut = IsCut-at tr s here.3.0 (break-boundary tr s isb) in
        let ends = ends_cr-append (take s tr) (drop s tr) (omega (arith, length-drop s tr)) in
        subst (λ e. (e && byte_is (children_text ys) 0 lf) ≡ false)
          (ap ends_cr (sym cut.joins) ∙ ends) here.3.2

    shifted-AreLeaves :
        (s : ℕ)
        → s < length tr
        → IsBreak s tr
        → AreLeaves ((li, leaf (tl ++ take s tr)) ∷ ((ri, leaf (drop s tr)) ∷ ys))
    shifted-AreLeaves s lt isb =
        let cut = IsCut-at tr s here.3.0 (break-boundary tr s isb) in
        (
          append-IsStr tl (take s tr) here.0 cut.left_str,
          omega (arith, length-append tl (take s tr), here.1),
          shifted_seam s lt isb,
          (cut.right_str, omega (arith, length-drop s tr), shifted_seam_right s lt isb, here.3.3),
        )

    abbrev old : NodeChildren
    old = (li, leaf tl) ∷ ((ri, leaf tr) ∷ ys)

    shifted_text :
        (s : ℕ)
        → children_text ((li, leaf tl) ∷ ((ri, leaf tr) ∷ ys))
          ≡ children_text ((li, leaf (tl ++ take s tr)) ∷ ((ri, leaf (drop s tr)) ∷ ys))
    shifted_text s =
        let y = children_text ys in
        ap (λ t. tl ++ (t ++ y)) (sym (take-append-drop s tr))
        ∙ (ap (λ t. tl ++ t) (append_assoc (take s tr) (drop s tr) y)
            ∙ sym (append_assoc tl (take s tr) (drop s tr ++ y)))

    pub round :
        (j : ℕ) × (ds : NodeChildren) × (compact_step
            (length xs + 1)
            (xs ++ (li, leaf tl) ∷ ((ri, leaf tr) ∷ ys))
          ≡ some (j, ds))
        × IsRound (length xs + 1) (xs ++ (li, leaf tl) ∷ ((ri, leaf tr) ∷ ys)) j ds
    round = elim (Bool-cases (leb (length tl + length tr) lim.max_bytes)) [
      | inl fits ↦ (
        length xs + 1,
        xs ++ (li, leaf (tl ++ tr)) ∷ ys,
        step_merges fits,
        record {
          same_text =
              text_behind xs old ((li, leaf (tl ++ tr)) ∷ ys)
                (sym (append_assoc tl tr (children_text ys)));
          are_leaves =
              AreLeaves-replace xs old ((li, leaf (tl ++ tr)) ∷ ys)
                (sym (append_assoc tl tr (children_text ys))) h joined-AreLeaves;
          index_positive = omega arith;
          not_longer =
              omega (arith, length-append xs old, length-append xs ((li, leaf (tl ++ tr)) ∷ ys));
          some_left = omega (arith, length-append xs ((li, leaf (tl ++ tr)) ∷ ys));
          nearer =
              omega (arith, length-append xs old, length-append xs ((li, leaf (tl ++ tr)) ∷ ys));
        },
      )
      | inr big ↦ elim (Bool-cases (ltb (length tl) lim.max_bytes)) [
        | inl room ↦
            let (s, e, lt, isb, _) =
              prev_break_lem (lim.max_bytes - length tl) tr (ground arith) (ground arith) in
            let lt' : s < length tr = ground (arith, lt) in
            let new = (li, leaf (tl ++ take s tr)) ∷ ((ri, leaf (drop s tr)) ∷ ys) in
            (
              length xs + 1 + 1,
              xs ++ new,
              step_shifts s here.3.0 big room e (break-boundary tr s isb),
              record {
                same_text = text_behind xs old new (shifted_text s);
                are_leaves =
                    AreLeaves-replace xs old new (shifted_text s) h (shifted-AreLeaves s lt' isb);
                index_positive = omega arith;
                not_longer = omega (arith, length-append xs old, length-append xs new);
                some_left = omega (arith, length-append xs new);
                nearer = omega (arith, length-append xs old, length-append xs new);
              },
            )
        | inr full ↦ (
          length xs + 1 + 1,
          xs ++ old,
          step_skips big full,
          record {
            same_text = refl;
            are_leaves = h;
            index_positive = omega arith;
            not_longer = omega arith;
            some_left = omega (arith, length-append xs old);
            nearer = omega arith;
          },
        )
      ]
    ]
