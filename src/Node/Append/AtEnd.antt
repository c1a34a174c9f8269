-- ===== src/Node/Append/AtEnd.antt =====
-- `append_at_depth` of src/tree/node.rs as a whole.
use ropey.Common.{
  ℕ, zero, suc, ◌+◌, ◌-◌, ◌≤◌, ◌<◌, ◌≡◌, refl, sym, ◌∙◌, ap, ap₂, inl, inr, false, Option, none,
  some, List, [], ◌∷◌, ◌++◌, arith, ltb, leb, length, length-append, append_assoc, append-nil,
  subst, Bool-cases, get_elem?-append_middle,
}
use ropey.Crates.{Crates, IsDocumented}
use ropey.Crates.Measures.Laws.{cuts_crlf}
use ropey.Crates.Measures.Seams.{cuts_crlf-front}
use ropey.Tree.{Limits, Node, leaf, internal, Entries, Child, NodeChildren, pack, unpack}
use ropey.Tree.Content.{text, entries_text, children_text, Fits, IsTree}
use ropey.NodeChildren.Arrays.{move_children_parts, push_lem}
use ropey.NodeChildren.Halves.{distribute_with_lem, push_split_lem, last_of}
use ropey.NodeChildren.Infos.{children_text-append, Fits-prefix, Fits-suffix}
use ropey.Node.{text_info}
use ropey.Node.Info.{IsTree-IsStr, entries_text-unpack, Fits-seam}
use ropey.Node.Merge.Merged.{Fits-append}
use ropey.Node.Merge.Leaves.{set_child_parts}
use ropey.Node.Merge.Distributed.{update_parts}
use ropey.Node.Edit.Contexts.{cuts_crlf-back}
use ropey.Node.Zip.Right.{last_index}
use ropey.Node.Append.{append_at_depth, push_residual}
use ropey.Node.Append.Joined.{IsJoined, extra, IsJoined-one, IsJoined-two, joined-Fits}

-- The depth of a tree whose nodes `levels` below the root have the depth `d`.
abbrev pub above : ℕ → ℕ → ℕ
above zero d = d
above (suc levels) d = suc (above levels d)

above_sum : (k d : ℕ) → above k d ≡ k + d
above_sum zero d = omega arith
above_sum (suc k) d = omega (arith, above_sum k d)

pub above_difference : (l d : ℕ) → d ≤ l → above (l - d) d ≡ l
above_difference l d h = omega (arith, above_sum (l - d) d, h)

module _ ⦃lim : Limits⦄ ⦃crates : Crates⦄ where
  push_residual_lem :
      (d : ℕ) (xs : NodeChildren) (l : Node) (right : Option Node)
      → Fits (IsTree d) (xs ++ (text_info l, l) ∷ extra right)
      → length xs < lim.max_children
      → (node : Node) × (residual : Option Node) × (push_residual
            (xs ++ (text_info l, l) ∷ [])
            right
          ≡ some (node, residual))
        × IsJoined (suc d) (children_text (xs ++ (text_info l, l) ∷ extra right)) node residual
  unfolding push_residual
  push_residual_lem d xs l none fits room =
      let len = length-append xs ((text_info l, l) ∷ []) in
      (
        internal (pack (xs ++ (text_info l, l) ∷ [])),
        none,
        refl,
        IsJoined-one d (xs ++ (text_info l, l) ∷ []) fits (omega (arith, len))
            (omega (arith, len, room)),
      )
  push_residual_lem d xs l (some r) fits room =
      let c : Child = (text_info l, l) in
      let e : Child = (text_info r, r) in
      let shape : (xs ++ c ∷ []) ++ e ∷ [] ≡ xs ++ c ∷ (e ∷ []) =
        append_assoc xs (c ∷ []) (e ∷ []) in
      let len = length-append xs (c ∷ []) in
      let len' = length-append xs (c ∷ (e ∷ [])) in
      elim (Bool-cases (ltb (length (xs ++ c ∷ [])) lim.max_children)) [
        | inl space ↦
            let space' : length (xs ++ c ∷ []) < lim.max_children = ground arith in
            (
              internal (pack (xs ++ c ∷ (e ∷ []))),
              none,
              rw (space, push_lem (xs ++ c ∷ []) e space', shape) refl,
              IsJoined-one d (xs ++ c ∷ (e ∷ [])) fits (omega (arith, len'))
                  (omega (arith, len, len', space')),
            )
        | inr full ↦
            let (a, b, q, even) =
              push_split_lem (xs ++ c ∷ []) e (omega (arith, len)) (omega (arith, len, room)) in
            (
              internal (pack a),
              some (internal (pack b)),
              rw (full, q) refl,
              IsJoined-two d (xs ++ c ∷ (e ∷ [])) a b fits (rw shape at even) (omega (arith, len'))
                  (omega (arith, len', room)),
            )
      ]

  append_step :
      (depth : ℕ) (es : Entries) (other : Node) (xs : NodeChildren) (c : Child) (node : Node)
      (right : Option Node) (result : Option (Node × Option Node))
      → unpack es ≡ xs ++ c ∷ []
      → append_at_depth depth c.1 other ≡ some (node, right)
      → push_residual (xs ++ (text_info node, node) ∷ []) right ≡ result
      → append_at_depth (suc depth) (internal es) other ≡ result
  unfolding append_at_depth
  append_step depth es other xs c node right result shape e h =
      rw
        (
          shape,
          last_index xs c,
          get_elem?-append_middle xs (c ∷ []),
          e,
          set_child_parts xs [] c (c.0, node),
          update_parts xs [] (c.0, node),
        )
        h

  append_level :
      (d : ℕ) (es fs : Entries)
      → IsTree (suc d) (internal es)
      → IsTree (suc d) (internal fs)
      → cuts_crlf (text (internal es)) (text (internal fs)) ≡ false
      → (node : Node) × (right : Option Node) × (append_at_depth 0 (internal es) (internal fs)
          ≡ some (node, right))
        × IsJoined (suc d) (text (internal es) ++ text (internal fs)) node right
  unfolding append_at_depth
  append_level d es fs h k seam =
      let cs = unpack es in
      let ds = unpack fs in
      let whole : children_text (cs ++ ds) ≡ entries_text es ++ entries_text fs =
        children_text-append cs ds
        ∙ sym (ap₂ (λ a b. a ++ b) (entries_text-unpack es) (entries_text-unpack fs)) in
      let all : Fits (IsTree d) (cs ++ ds) =
        Fits-append (IsTree d) cs ds h.2 k.2
          (rw (entries_text-unpack es, entries_text-unpack fs) at seam) in
      let len = length-append cs ds in
      elim (Bool-cases (leb (length cs + length ds) lim.max_children)) [
        | inl fits ↦
            let room : length cs + length ds ≤ lim.max_children = ground arith in
            (
              internal (pack (cs ++ ds)),
              none,
              rw (fits, move_children_parts [] ds cs room) refl,
              subst (λ t. IsJoined (suc d) t (internal (pack (cs ++ ds))) none) whole
                  (IsJoined-one d (cs ++ ds) all (omega (arith, len, h.0))
                    (omega (arith, len, room))),
            )
        | inr big ↦
            let (a, b, e, even) = distribute_with_lem cs ds h.1 k.1 in
            (
              internal (pack a),
              some (internal (pack b)),
              rw (big, e) refl,
              subst (λ t. IsJoined (suc d) t (internal (pack a)) (some (internal (pack b)))) whole
                  (IsJoined-two d (cs ++ ds) a b all even (omega (arith, len, h.0, k.0))
                    (omega (arith, len, h.1, k.1))),
            )
      ]

  leaves_lem :
      (t u : List ℕ)
      → IsTree 0 (leaf t)
      → IsTree 0 (leaf u)
      → 0 < length t
      → 0 < length u
      → cuts_crlf t u ≡ false
      → (node : Node) × (right : Option Node) × (append_at_depth 0 (leaf t) (leaf u)
          ≡ some (node, right))
        × IsJoined 0 (t ++ u) node right
  unfolding append_at_depth
  leaves_lem t u h k pos pos' seam = (
    leaf t,
    some (leaf u),
    refl,
    record { joins = refl; tree = h; not_empty = pos; right_tree = (k, pos'); meets = seam },
  )

  -- A balanced tree that is not empty, appended at its depth below the root of another one, with no
  -- CRLF pair between the two, does not panic. It leaves one or two balanced trees, of the depth of
  -- the other one, that hold the text of the other one and then its own.
  pub append_at_depth_lem :
      (docs : IsDocumented crates) (depth d : ℕ) (self other : Node)
      → IsTree (above depth d) self
      → IsTree d other
      → 0 < length (text self)
      → 0 < length (text other)
      → cuts_crlf (text self) (text other) ≡ false
      → (node : Node) × (right : Option Node) × (append_at_depth depth self other
          ≡ some (node, right))
        × IsJoined (above depth d) (text self ++ text other) node right
  append_at_depth_lem docs zero zero (leaf t) (leaf u) h k pos pos' seam =
      leaves_lem t u h k pos pos' seam
  append_at_depth_lem docs zero zero (leaf t) (internal fs) h k pos pos' seam = absurd k
  append_at_depth_lem docs zero zero (internal es) other h k pos pos' seam = absurd h
  append_at_depth_lem docs zero (suc d) (leaf t) other h k pos pos' seam = absurd h
  append_at_depth_lem docs zero (suc d) (internal es) (leaf u) h k pos pos' seam = absurd k
  append_at_depth_lem docs zero (suc d) (internal es) (internal fs) h k pos pos' seam =
      append_level d es fs h k seam
  append_at_depth_lem docs (suc depth) d (leaf t) other h k pos pos' seam = absurd h
  append_at_depth_lem docs (suc depth) d (internal es) other h k pos pos' seam =
      let (xs, c, shape) = last_of (unpack es) h.0 in
      let fits : Fits (IsTree (above depth d)) (xs ++ c ∷ []) = rw (← shape) h.2 in
      let here =
        Fits-suffix (IsTree (above depth d)) (IsTree-IsStr (above depth d)) xs (c ∷ []) fits in
      let x = children_text xs in
      let y = text c.1 in
      let whole : text (internal es) ≡ x ++ y =
        entries_text-unpack es
        ∙ (ap children_text shape
            ∙ (children_text-append xs (c ∷ []) ∙ ap (λ t. x ++ t) (append-nil y))) in
      let inner : cuts_crlf y (text other) ≡ false =
        sym (cuts_crlf-back x y (text other) here.1)
        ∙ (ap (λ t. cuts_crlf t (text other)) (sym whole) ∙ seam) in
      let (node, right, e, joined) =
        append_at_depth_lem docs depth d c.1 other here.0 k here.1 pos' inner in
      let (ms_fits, ms_text) =
        joined-Fits docs (above depth d) (y ++ text other) node right joined in
      let ms = (text_info node, node) ∷ extra right in
      let outer : cuts_crlf x (children_text ms) ≡ false =
        ap (cuts_crlf x) ms_text
        ∙ (cuts_crlf-front x y (text other) here.1
            ∙ (ap (cuts_crlf x) (sym (append-nil y))
                ∙ Fits-seam (above depth d) xs (c ∷ []) fits)) in
      let all =
        Fits-append (IsTree (above depth d)) xs ms
          (Fits-prefix (IsTree (above depth d)) (IsTree-IsStr (above depth d)) xs (c ∷ []) fits)
          ms_fits outer in
      let (node', right', e', joined') =
        push_residual_lem (above depth d) xs node right all
          (omega (arith, ap length shape, length-append xs (c ∷ []), h.1)) in
      (
        node',
        right',
        append_step depth es other xs c node right _ shape e e',
        subst (λ t. IsJoined (suc (above depth d)) t node' right')
            (children_text-append xs ms
              ∙ (ap (λ t. x ++ t) ms_text
                  ∙ (sym (append_assoc x y (text other)) ∙ ap (λ t. t ++ text other) (sym whole))))
            joined',
      )
