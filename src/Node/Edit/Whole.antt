-- ===== src/Node/Edit/Whole.antt =====
-- `edit_chunk_at_char` of src/tree/node.rs as a whole, for any closure.
use ropey.Common.{
  ℕ, zero, suc, ◌+◌, ◌-◌, ◌≤◌, ◌<◌, ◌≡◌, refl, sym, ◌∙◌, ap, ap₂, ◌⊎◌, inl, false, Option, List, [],
  ◌∷◌, ◌++◌, arith, length, length-append, append-nil, append_assoc, subst, not,
  get_elem?-append_middle,
}
use ropey.Crlf.{is_continuation}
use ropey.Str.{IsStr}
use ropey.Str.Utf8.{append-IsStr}
use ropey.Crates.Measures.Seams.{cuts_crlf-front}
use ropey.Crates.{Crates, IsDocumented}
use ropey.Crates.Measures.{count_chars}
use ropey.Crates.Measures.Laws.{cuts_crlf, tally-append, tally-le-length}
use ropey.TextInfo.{TextInfo, word}
use ropey.TextInfo.Laws.{measure, wrapping_sub-exact}
use ropey.Tree.{Limits, Node, leaf, internal, Entries}
use ropey.Tree.Content.{text, children_text, IsTree}
use ropey.NodeText.{NodeText}
use ropey.NodeChildren.Infos.{
  children_text-append, Fits-suffix, Fits-prefix, children-IsStr, seam_before,
}
use ropey.Node.Info.{IsTree-IsStr}
use ropey.Node.Merge.Leaves.{set_child_parts}
use ropey.Node.Edit.{Edited, place_residual, edit_chunk_at_char}
use ropey.Node.Edit.Edited.{IsEdited}
use ropey.Node.Edit.Contexts.{left_down, left_up, left_in, right_down, right_up, right_in}
use ropey.Node.Edit.Opened.{Opens, open_lem}
use ropey.Node.Edit.Reached.{
  Handles, Reaches, IsEdited-some_text, nest, widen, child_end, place_lem, edit_internal,
}

module _ {ℓ} {S : Type ℓ} ⦃lim : Limits⦄ ⦃crates : Crates⦄
    (edit : ℕ → TextInfo → NodeText → Option (Edited S NodeText)) (docs : IsDocumented crates)
    (Q : List ℕ → List ℕ → List ℕ → S → List ℕ → Type 0) (all : List ℕ) (total : ℕ)
    (small : length all < word)
    (handles : (before t after : List ℕ) (idx : ℕ)
      → before ++ (t ++ after) ≡ all
      → IsStr before
      → IsStr t
      → IsStr after
      → cuts_crlf before t ≡ false
      → cuts_crlf t after ≡ false
      → count_chars before + idx ≡ total
      → idx ≤ count_chars t
      → (after ≡ []) ⊎ (idx < count_chars t)
      → (0 < length t) ⊎ (all ≡ [])
      → Handles Q before t after (edit idx (measure t) t)) where
  edit_leaf :
      (fuel : ℕ) (t before after : List ℕ) (i : ℕ)
      → Handles Q before t after (edit i (measure t) t)
      → Reaches Q 0 before t after (edit_chunk_at_char (suc fuel) (leaf t) i (measure t) edit)
  unfolding edit_chunk_at_char
  edit_leaf fuel t before after i h = record {
    front = [];
    chunk = t;
    back = [];
    state = h.state;
    node = leaf h.new_text;
    info = h.info;
    residual = h.residual;
    whole = h.whole;
    parts = append-nil t;
    returns = rw h.returns refl;
    edited =
        subst (λ w. IsEdited 0 w (leaf h.new_text) h.info h.residual) (sym (append-nil h.whole))
          h.edited;
    left = rw append-nil h.left;
    right = rw append-nil h.right;
    claim = subst (λ u. Q u t after h.state h.whole) (sym (append-nil before)) h.claim;
  }

  edit_up :
      (d fuel : ℕ) (es : Entries) (before after : List ℕ) (i : ℕ) (o : Opens d es i)
      → i < word
      → cuts_crlf before (text (internal es)) ≡ false
      → cuts_crlf (text (internal es)) after ≡ false
      → Reaches Q d
          (before ++ children_text o.before)
          (text o.child.1)
          (children_text o.after ++ after)
          (edit_chunk_at_char fuel o.child.1
            (i - count_chars (children_text o.before))
            (measure (text o.child.1))
            edit)
      → Reaches Q
          (suc d)
          before
          (text (internal es))
          after
          (edit_chunk_at_char (suc fuel) (internal es) i (measure (text (internal es))) edit)
  edit_up d fuel es before after i o near left right r =
      let x = children_text o.before in
      let y = text o.child.1 in
      let z = children_text o.after in
      let w = r.front ++ (r.whole ++ r.back) in
      let here = Fits-suffix (IsTree d) (IsTree-IsStr d) o.before (o.child ∷ o.after) o.fits in
      let shape : x ++ (y ++ z) ≡ text (internal es) =
        sym (children_text-append o.before (o.child ∷ o.after)) ∙ o.same_text in
      let outer_left : cuts_crlf before (x ++ (y ++ z)) ≡ false = rw shape left in
      let outer_right : cuts_crlf (x ++ (y ++ z)) after ≡ false = rw shape right in
      let same = wrapping_sub-exact (count_chars x) i o.not_before near in
      let (node, info, residual, e, edited) =
        place_lem d o.before o.after o.child.0 o.child.1 o.fits o.room w r.node r.info
          (left_in before x w r.left) (right_in w z after r.right) r.state r.residual r.edited in
      record {
        front = x ++ r.front;
        chunk = r.chunk;
        back = r.back ++ z;
        state = r.state;
        node = node;
        info = info;
        residual = residual;
        whole = r.whole;
        parts = sym (nest x r.front r.chunk r.back z) ∙ (ap (λ t. x ++ (t ++ z)) r.parts ∙ shape);
        returns =
            edit_internal edit fuel es i (measure (text (internal es)))
              (o.before ++ o.child ∷ o.after) (o.before ++ (r.info, r.node) ∷ o.after)
              (length o.before) (count_chars x) o.child r.state r.node r.info r.residual _
              o.compacted o.found (get_elem?-append_middle o.before (o.child ∷ o.after))
              (ap₂ (λ k m. edit_chunk_at_char fuel o.child.1 k m edit) same here.2 ∙ r.returns)
              (set_child_parts o.before o.after o.child (r.info, r.node))
              (ap
                  (λ t.
                    place_residual r.state (o.before ++ (r.info, r.node) ∷ o.after)
                      (length o.before) (measure t) o.child.0 r.info r.residual)
                  (sym o.same_text)
                ∙ e);
        edited =
            subst (λ t. IsEdited (suc d) t node info residual) (nest x r.front r.whole r.back z)
              edited;
        left =
            ap (cuts_crlf before) (sym (nest x r.front r.whole r.back z))
            ∙ left_up before x y z (w ++ z) here.1 outer_left (
                cuts_crlf-front (before ++ x) w z
                  (IsEdited-some_text d w r.node r.info r.residual r.edited)
                ∙ r.left);
        right =
            ap (λ t. cuts_crlf t after) (sym (nest x r.front r.whole r.back z))
            ∙ right_up x y z after w (IsEdited-some_text d w r.node r.info r.residual r.edited)
                outer_right r.right;
        claim =
            subst (λ u. Q u r.chunk ((r.back ++ z) ++ after) r.state r.whole)
              (append_assoc before x r.front)
              (subst (λ u. Q ((before ++ x) ++ r.front) r.chunk u r.state r.whole)
                (sym (append_assoc r.back z after)) r.claim);
      }

  pub edit_lem :
      (d fuel : ℕ) (n : Node) (before after : List ℕ) (i : ℕ)
      → IsTree d n
      → d < fuel
      → before ++ (text n ++ after) ≡ all
      → IsStr before
      → IsStr after
      → cuts_crlf before (text n) ≡ false
      → cuts_crlf (text n) after ≡ false
      → count_chars before + i ≡ total
      → i ≤ count_chars (text n)
      → (after ≡ []) ⊎ (i < count_chars (text n))
      → (0 < length (text n)) ⊎ (all ≡ [])
      → Reaches Q d before (text n) after (edit_chunk_at_char fuel n i (measure (text n)) edit)
  edit_lem d zero n before after i h enough joins bh ah left right place le end some_text =
      absurd (omega arith)
  edit_lem zero (suc fuel) (leaf t) before after i h enough joins bh ah left right place le end
        some_text =
      edit_leaf fuel t before after i
        (handles before t after i joins bh h ah left right place le end some_text)
  edit_lem zero (suc fuel) (internal es) before after i h enough joins bh ah left right place le end
        some_text =
      absurd h
  edit_lem (suc d) (suc fuel) (leaf t) before after i h enough joins bh ah left right place le end
        some_text =
      absurd h
  edit_lem (suc d) (suc fuel) (internal es) before after i h enough joins bh ah left right place le
        end some_text =
      let t = text (internal es) in
      let len : length before + (length t + length after) ≡ length all =
        omega (arith, ap length joins, length-append before (t ++ after), length-append t after) in
      let o = open_lem docs d es i h (omega (arith, len, small)) le in
      let x = children_text o.before in
      let y = text o.child.1 in
      let z = children_text o.after in
      let here = Fits-suffix (IsTree d) (IsTree-IsStr d) o.before (o.child ∷ o.after) o.fits in
      let shape : x ++ (y ++ z) ≡ t =
        sym (children_text-append o.before (o.child ∷ o.after)) ∙ o.same_text in
      let seam = seam_before (IsTree d) (IsTree-IsStr d) o.before o.after o.child o.fits in
      edit_up d fuel es before after i o
        (omega (arith, len, small, le, tally-le-length (λ b. not (is_continuation b)) t)) left right
        (edit_lem d fuel o.child.1 (before ++ x) (z ++ after) (i - count_chars x) here.0
          (omega arith)
          (widen before x y z after ∙ (ap (λ u. before ++ (u ++ after)) shape ∙ joins))
          (append-IsStr before x bh (
            children-IsStr (IsTree d) (IsTree-IsStr d) o.before
              (Fits-prefix (IsTree d) (IsTree-IsStr d) o.before (o.child ∷ o.after) o.fits)))
          (append-IsStr z after (children-IsStr (IsTree d) (IsTree-IsStr d) o.after here.4) ah)
          (left_down before x y z here.1 (rw shape left) seam)
          (right_down x y z after here.1 (rw shape right) here.3)
          (omega (arith, place, o.not_before, tally-append (λ b. not (is_continuation b)) before x))
          (omega (arith, o.not_before, o.not_behind)) (child_end d es i o after end) (inl here.1))
