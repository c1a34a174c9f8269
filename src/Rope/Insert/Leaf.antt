-- ===== src/Rope/Insert/Leaf.antt =====
-- What the closures of `insert_internal` (src/rope.rs) leave of a leaf.
use ropey.Crates.Measures.Seams.{and_false, IsBreak-cuts_crlf}
use ropey.Common.{
  ℕ, ◌+◌, ◌<◌, ◌≡◌, refl, sym, ◌∙◌, ap, true, Option, none, some, List, [], ◌∷◌, ◌++◌, arith, ltb,
  leb, length, length-append, take, drop, subst, Bool-cases, append-nil, inl, inr,
}
use ropey.Str.{IsStr, is_char_boundary}
use ropey.Str.Cut.{IsCut-at}
use ropey.Str.Utf8.{append-IsStr}
use ropey.Crates.{Crates, IsDocumented}
use ropey.Crates.Measures.Laws.{ends_cr}
use ropey.TextInfo.{TextInfo}
use ropey.TextInfo.Laws.{measure, from_str-measure}
use ropey.Tree.{Limits, leaf, Child}
use ropey.NodeText.Edits.{insert_str_parts}
use ropey.NodeText.Halves.{insert_str_split_lem}
use ropey.Node.Edit.Edited.{IsEdited}
use ropey.Rope.Insert.{split_leaf, insert_at, insert_here}
use ropey.Rope.Insert.Measured.{inserted_info_parts}

nil_of : (r : List ℕ) → length r ≡ 0 → r ≡ []
nil_of [] h = refl
nil_of (b ∷ r) h = absurd (omega arith)

module _ ⦃lim : Limits⦄ ⦃crates : Crates⦄ (docs : IsDocumented crates) where
  pub split_leaf_lem {ℓ} :
      {S : Type ℓ} (s : S) (t ins : List ℕ) (b : ℕ)
      → IsStr t
      → IsStr ins
      → is_char_boundary t b ≡ true
      → 0 < length ins
      → (t' : List ℕ) × (info : TextInfo) × (residual : Option Child) × (split_leaf s t b ins
          ≡ some (s, t', info, residual))
        × IsEdited 0 (take b t ++ (ins ++ drop b t)) (leaf t') info residual
  unfolding split_leaf
  split_leaf_lem s t ins b ht hi bound pos =
      let (l, r, e, halves) = insert_str_split_lem docs t ins b ht hi bound (omega arith) in
      let len : 0 < length l = halves.meets.after_start in
      elim (Bool-cases (ltb 0 (length r))) [
        | inl more ↦ (
          l,
          measure l,
          some (measure r, leaf r),
          rw (
            e,
            more,
            from_str-measure docs l halves.left_str,
            from_str-measure docs r halves.right_str,
          ),
          record {
            joins = halves.joins;
            tree = halves.left_str;
            accurate = refl;
            not_empty = len;
            split_off = (halves.right_str, ground arith, refl);
            meets = IsBreak-cuts_crlf l r len (rw (← halves.joins) at halves.meets.is_split);
          },
        )
        | inr none_left ↦ (
          l,
          measure l,
          none,
          rw (e, none_left, from_str-measure docs l halves.left_str),
          record {
            joins = ap (λ u. l ++ u) (sym (nil_of r (ground arith))) ∙ halves.joins;
            tree = halves.left_str;
            accurate = refl;
            not_empty = len;
            split_off = tt;
            meets = and_false (ends_cr l);
          },
        )
      ]

  insert_whole {ℓ} :
      {S : Type ℓ} (s : S) (l r ins : List ℕ)
      → IsStr l
      → IsStr r
      → IsStr ins
      → 0 < length ins
      → insert_here s (measure (l ++ r)) (l ++ r) (length l) ins
        ≡ some (s, l ++ (ins ++ r), measure (l ++ (ins ++ r)), none)
  unfolding insert_here
  insert_whole s l r ins hl hr hi pos =
      rw (inserted_info_parts docs l r ins hl hr hi pos, insert_str_parts docs l r ins hr)

  -- A text that is not empty, inserted at a char index up to the number of chars of a leaf with an
  -- accurate text info, leaves the text with the insertion, in one leaf or in two, whose text infos
  -- are accurate and whose seam does not cut a CRLF pair.
  pub insert_at_lem {ℓ} :
      {S : Type ℓ} (s : S) (t ins : List ℕ) (idx : ℕ)
      → IsStr t
      → IsStr ins
      → 0 < length ins
      → (t' : List ℕ) × (info : TextInfo) × (residual : Option Child) × (insert_at s idx
            (measure t)
            t
            ins
          ≡ some (s, t', info, residual))
        × IsEdited 0
            (take (crates.chars_to_byte_idx t idx) t
              ++ (ins ++ drop (crates.chars_to_byte_idx t idx) t))
            (leaf t')
            info
            residual
  unfolding insert_at
  insert_at_lem s t ins idx ht hi pos =
      let b = crates.chars_to_byte_idx t idx in
      let bound = docs.to_byte-boundary t idx ht in
      let cut = IsCut-at t b ht bound in
      let l = take b t in
      let r = drop b t in
      elim (Bool-cases (leb (length t + length ins) lim.max_bytes)) [
        | inl fits ↦ (
          l ++ (ins ++ r),
          measure (l ++ (ins ++ r)),
          none,
          rw fits (
              subst
                (λ u.
                  insert_here s (measure u) u b ins
                  ≡ some (s, l ++ (ins ++ r), measure (l ++ (ins ++ r)), none))
                cut.joins
                (subst
                  (λ n.
                    insert_here s (measure (l ++ r)) (l ++ r) n ins
                    ≡ some (s, l ++ (ins ++ r), measure (l ++ (ins ++ r)), none))
                  cut.left_len (insert_whole s l r ins cut.left_str cut.right_str hi pos))),
          record {
            joins = append-nil (l ++ (ins ++ r));
            tree = append-IsStr l (ins ++ r) cut.left_str (append-IsStr ins r hi cut.right_str);
            accurate = refl;
            not_empty = omega (arith, length-append l (ins ++ r), length-append ins r);
            split_off = tt;
            meets = and_false (ends_cr (l ++ (ins ++ r)));
          },
        )
        | inr big ↦
            let (t', info, residual, e, leaves) = split_leaf_lem s t ins b ht hi bound pos in
            (t', info, residual, rw big e, leaves)
      ]
