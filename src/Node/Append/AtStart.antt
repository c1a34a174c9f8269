-- ===== src/Node/Append/AtStart.antt =====
-- `prepend_at_depth` of src/tree/node.rs as a whole.
use ropey.Common.{
  ℕ, zero, suc, ◌+◌, ◌≤◌, ◌<◌, ◌≡◌, refl, sym, ◌∙◌, ap, ap₂, inl, inr, false, Option, none, some,
  List, [], ◌∷◌, ◌++◌, arith, ltb, leb, length, length-append, append_assoc, subst, Bool-cases,
}
use ropey.Crates.{Crates, IsDocumented}
use ropey.Crates.Measures.Laws.{cuts_crlf}
use ropey.Crates.Measures.Seams.{cuts_crlf-front}
use ropey.Tree.{Limits, Node, leaf, internal, Entries, Child, NodeChildren, pack, unpack}
use ropey.Tree.Content.{text, entries_text, children_text, Fits, IsTree}
use ropey.NodeChildren.Arrays.{insert_parts, pop_parts}
use ropey.NodeChildren.Halves.{distribute_with_lem, insert_split_lem, last_of}
use ropey.NodeChildren.Infos.{children_text-append}
use ropey.Node.{text_info}
use ropey.Node.Info.{entries_text-unpack}
use ropey.Node.Merge.Merged.{Fits-append}
use ropey.Node.Merge.Leaves.{set_child_parts}
use ropey.Node.Merge.Distributed.{update_parts}
use ropey.Node.Edit.Contexts.{cuts_crlf-back}
use ropey.Node.Append.{prepend_at_depth, insert_residual, pop_children}
use ropey.Node.Append.Joined.{IsJoined, IsJoined-one, IsJoined-two, joined-Fits}
use ropey.Node.Append.AtEnd.{above}

-- The node that does not fit stands to the left.
abbrev pub IsPrepended : ⦃lim : Limits⦄ → ℕ → List ℕ → Node → Option Node → Type 0
IsPrepended d whole node none = IsJoined d whole node none
IsPrepended d whole node (some l) = IsJoined d whole l (some node)

first_child :
    (cs : NodeChildren) → 0 < length cs → (c : Child) × (ys : NodeChildren) × (cs ≡ c ∷ ys)
first_child [] h = absurd (omega arith)
first_child (c ∷ ys) h = (c, ys, refl)

module _ ⦃lim : Limits⦄ where
  pop_children_parts :
      (n : ℕ) (xs ys : NodeChildren)
      → length xs ≡ n
      → n + length ys ≤ lim.max_children
      → pop_children n xs ys ≡ some (xs ++ ys)
  unfolding pop_children
  pop_children_parts zero [] ys len room = refl
  pop_children_parts zero (c ∷ xs) ys len room = absurd (omega (arith, len))
  pop_children_parts (suc n) xs ys len room =
      let (zs, c, shape) = last_of xs (omega (arith, len)) in
      let len' : length zs ≡ n = omega (arith, len, ap length shape, length-append zs (c ∷ [])) in
      let rest = pop_children_parts n zs (c ∷ ys) len' (omega (arith, room)) in
      let first = insert_parts [] ys c (omega (arith, room)) in
      ap (λ t. pop_children (suc n) t ys) shape
      ∙ (rw (pop_parts zs c, first) rest
          ∙ ap some (sym (append_assoc zs (c ∷ []) ys) ∙ ap (λ t. t ++ ys) (sym shape)))

module _ ⦃lim : Limits⦄ ⦃crates : Crates⦄ where
  -- The children that hold the joined text.
  abbrev prepended : Node → Option Node → NodeChildren
  prepended node none = (text_info node, node) ∷ []
  prepended node (some l) = (text_info l, l) ∷ ((text_info node, node) ∷ [])

  prepended-Fits :
      (docs : IsDocumented crates) (d : ℕ) (whole : List ℕ) (node : Node) (left : Option Node)
      → IsPrepended d whole node left
      → Fits (IsTree d) (prepended node left) × (children_text (prepended node left) ≡ whole)
  prepended-Fits docs d whole node none x = joined-Fits docs d whole node none x
  prepended-Fits docs d whole node (some l) x = joined-Fits docs d whole l (some node) x

  insert_residual_lem :
      (d : ℕ) (ys : NodeChildren) (node : Node) (left : Option Node)
      → Fits (IsTree d) (prepended node left ++ ys)
      → length ys < lim.max_children
      → (node' : Node) × (left' : Option Node) × (insert_residual ((text_info node, node) ∷ ys) left
          ≡ some (node', left'))
        × IsPrepended (suc d) (children_text (prepended node left ++ ys)) node' left'
  unfolding insert_residual
  insert_residual_lem d ys node none fits room = (
    internal (pack ((text_info node, node) ∷ ys)),
    none,
    refl,
    IsJoined-one d ((text_info node, node) ∷ ys) fits (omega arith) (omega (arith, room)),
  )
  insert_residual_lem d ys node (some l) fits room =
      let c : Child = (text_info node, node) in
      let e : Child = (text_info l, l) in
      elim (Bool-cases (ltb (length (c ∷ ys)) lim.max_children)) [
        | inl space ↦
            let space' : length (c ∷ ys) < lim.max_children = ground arith in
            (
              internal (pack (e ∷ (c ∷ ys))),
              none,
              rw (space, insert_parts [] (c ∷ ys) e space') refl,
              IsJoined-one d (e ∷ (c ∷ ys)) fits (omega arith) (omega (arith, space')),
            )
        | inr full ↦
            let (a, b, q, even) =
              insert_split_lem [] (c ∷ ys) e (omega arith) (omega (arith, room)) in
            (
              internal (pack b),
              some (internal (pack a)),
              rw (full, q) refl,
              IsJoined-two d (e ∷ (c ∷ ys)) a b fits even (omega arith) (omega (arith, room)),
            )
      ]

  prepend_step :
      (depth : ℕ) (es : Entries) (other : Node) (ys : NodeChildren) (c : Child) (node : Node)
      (left : Option Node) (result : Option (Node × Option Node))
      → unpack es ≡ c ∷ ys
      → prepend_at_depth depth c.1 other ≡ some (node, left)
      → insert_residual ((text_info node, node) ∷ ys) left ≡ result
      → prepend_at_depth (suc depth) (internal es) other ≡ result
  unfolding prepend_at_depth
  prepend_step depth es other ys c node left result shape e h =
      rw (shape, e, set_child_parts [] ys c (c.0, node), update_parts [] ys (c.0, node)) h

  prepend_level :
      (d : ℕ) (es fs : Entries)
      → IsTree (suc d) (internal es)
      → IsTree (suc d) (internal fs)
      → cuts_crlf (text (internal fs)) (text (internal es)) ≡ false
      → (node : Node) × (left : Option Node) × (prepend_at_depth 0 (internal es) (internal fs)
          ≡ some (node, left))
        × IsPrepended (suc d) (text (internal fs) ++ text (internal es)) node left
  unfolding prepend_at_depth
  prepend_level d es fs h k seam =
      let cs = unpack es in
      let ds = unpack fs in
      let whole : children_text (ds ++ cs) ≡ entries_text fs ++ entries_text es =
        children_text-append ds cs
        ∙ sym (ap₂ (λ a b. a ++ b) (entries_text-unpack fs) (entries_text-unpack es)) in
      let all : Fits (IsTree d) (ds ++ cs) =
        Fits-append (IsTree d) ds cs k.2 h.2
          (rw (entries_text-unpack es, entries_text-unpack fs) at seam) in
      let len = length-append ds cs in
      elim (Bool-cases (leb (length ds + length cs) lim.max_children)) [
        | inl fits ↦
            let room : length ds + length cs ≤ lim.max_children = ground arith in
            (
              internal (pack (ds ++ cs)),
              none,
              rw (fits, pop_children_parts (length ds) ds cs refl room) refl,
              subst (λ t. IsJoined (suc d) t (internal (pack (ds ++ cs))) none) whole
                  (IsJoined-one d (ds ++ cs) all (omega (arith, len, h.0))
                    (omega (arith, len, room))),
            )
        | inr big ↦
            let (a, b, e, even) = distribute_with_lem ds cs k.1 h.1 in
            (
              internal (pack b),
              some (internal (pack a)),
              rw (big, e) refl,
              subst (λ t. IsJoined (suc d) t (internal (pack a)) (some (internal (pack b)))) whole
                  (IsJoined-two d (ds ++ cs) a b all even (omega (arith, len, h.0, k.0))
                    (omega (arith, len, h.1, k.1))),
            )
      ]

  prepend_leaves :
      (t u : List ℕ)
      → IsTree 0 (leaf t)
      → IsTree 0 (leaf u)
      → 0 < length u
      → 0 < length t
      → cuts_crlf u t ≡ false
      → (node : Node) × (left : Option Node) × (prepend_at_depth 0 (leaf t) (leaf u)
          ≡ some (node, left))
        × IsPrepended 0 (u ++ t) node left
  unfolding prepend_at_depth
  prepend_leaves t u h k pos pos' seam = (
    leaf t,
    some (leaf u),
    refl,
    record { joins = refl; tree = k; not_empty = pos; right_tree = (h, pos'); meets = seam },
  )

  -- A balanced tree that is not empty, prepended at its depth below the root of another one, with no
  -- CRLF pair between the two, does not panic. It leaves one or two balanced trees, of the depth of
  -- the other one, that hold its own text and then that of the other one.
  pub prepend_at_depth_lem :
      (docs : IsDocumented crates) (depth d : ℕ) (self other : Node)
      → IsTree (above depth d) self
      → IsTree d other
      → 0 < length (text self)
      → 0 < length (text other)
      → cuts_crlf (text other) (text self) ≡ false
      → (node : Node) × (left : Option Node) × (prepend_at_depth depth self other
          ≡ some (node, left))
        × IsPrepended (above depth d) (text other ++ text self) node left
  prepend_at_depth_lem docs zero zero (leaf t) (leaf u) h k pos pos' seam =
      prepend_leaves t u h k pos' pos seam
  prepend_at_depth_lem docs zero zero (leaf t) (internal fs) h k pos pos' seam = absurd k
  prepend_at_depth_lem docs zero zero (internal es) other h k pos pos' seam = absurd h
  prepend_at_depth_lem docs zero (suc d) (leaf t) other h k pos pos' seam = absurd h
  prepend_at_depth_lem docs zero (suc d) (internal es) (leaf u) h k pos pos' seam = absurd k
  prepend_at_depth_lem docs zero (suc d) (internal es) (internal fs) h k pos pos' seam =
      prepend_level d es fs h k seam
  prepend_at_depth_lem docs (suc depth) d (leaf t) other h k pos pos' seam = absurd h
  prepend_at_depth_lem docs (suc depth) d (internal es) other h k pos pos' seam =
      let (c, ys, shape) = first_child (unpack es) h.0 in
      let fits : Fits (IsTree (above depth d)) (c ∷ ys) =
        subst (Fits (IsTree (above depth d))) shape h.2 in
      let y = text c.1 in
      let z = children_text ys in
      let whole : text (internal es) ≡ y ++ z = entries_text-unpack es ∙ ap children_text shape in
      let inner : cuts_crlf (text other) y ≡ false =
        sym (cuts_crlf-front (text other) y z fits.1)
        ∙ (ap (cuts_crlf (text other)) (sym whole) ∙ seam) in
      let (node, left, e, joined) =
        prepend_at_depth_lem docs depth d c.1 other fits.0 k fits.1 pos' inner in
      let (ms_fits, ms_text) =
        prepended-Fits docs (above depth d) (text other ++ y) node left joined in
      let ms = prepended node left in
      let outer : cuts_crlf (children_text ms) z ≡ false =
        ap (λ t. cuts_crlf t z) ms_text ∙ (cuts_crlf-back (text other) y z fits.1 ∙ fits.3) in
      let all = Fits-append (IsTree (above depth d)) ms ys ms_fits fits.4 outer in
      let (node', left', e', joined') =
        insert_residual_lem (above depth d) ys node left all
          (omega (arith, ap length shape, h.1)) in
      (
        node',
        left',
        prepend_step depth es other ys c node left _ shape e e',
        subst (λ t. IsPrepended (suc (above depth d)) t node' left')
            (children_text-append ms ys
              ∙ (ap (λ t. t ++ z) ms_text
                  ∙ (append_assoc (text other) y z ∙ ap (λ t. text other ++ t) (sym whole))))
            joined',
      )
