-- ===== src/Node/Edit/Edited.antt =====
-- What `edit_chunk_at_char` of src/tree/node.rs leaves of a node, and the arrays into which the node
-- that an edit splits off goes behind the edited one.
use ropey.Common.{
  ℕ, ◌+◌, ◌≤◌, ◌<◌, ◌≡◌, false, Option, none, some, List, [], ◌∷◌, ◌++◌, arith, length,
  length-append, append_assoc, subst,
}
use ropey.Crates.Measures.Laws.{cuts_crlf}
use ropey.TextInfo.{TextInfo}
use ropey.TextInfo.Laws.{measure}
use ropey.Tree.{Limits, Node, Child, NodeChildren}
use ropey.Tree.Content.{text, IsTree}
use ropey.NodeChildren.{insert, insert_split}
use ropey.NodeChildren.Arrays.{insert_parts}
use ropey.NodeChildren.Halves.{insert_split_lem, AreEven}

-- The text of the node that was split off.
abbrev pub residual_text : Option Child → List ℕ
residual_text none = []
residual_text (some (_, node)) = text node

-- The edited node, and the one that was split off it, hold the text `whole`: balanced trees that
-- are not empty, with accurate text infos, between which no CRLF pair is cut.
abbrev pub IsResidual : ⦃lim : Limits⦄ → ℕ → Option Child → Type 0
IsResidual d none = Unit
IsResidual d (some (info, node)) =
    IsTree d node × (0 < length (text node)) × (info ≡ measure (text node))

pub record IsEdited ⦃lim : Limits⦄ (d : ℕ) (whole : List ℕ) (node : Node) (info : TextInfo)
    (residual : Option Child) : Type 0 where
  pub joins : text node ++ residual_text residual ≡ whole
  pub tree : IsTree d node
  pub not_empty : 0 < length (text node)
  pub accurate : info ≡ measure (text node)
  pub split_off : IsResidual d residual
  pub meets : cuts_crlf (text node) (residual_text residual) ≡ false

pub insert_behind :
    ⦃lim : Limits⦄ (xs ys : NodeChildren) (c e : Child)
    → length (xs ++ c ∷ ys) < lim.max_children
    → insert (xs ++ c ∷ ys) (length xs + 1) e ≡ some (xs ++ c ∷ (e ∷ ys))
insert_behind ⦃lim = lim⦄ xs ys c e room =
    let room' : length ((xs ++ c ∷ []) ++ ys) < lim.max_children =
      rw (append_assoc xs (c ∷ []) ys) room in
    rw (append_assoc, append_assoc, length-append) at (insert_parts (xs ++ c ∷ []) ys e room')

pub insert_split_behind :
    ⦃lim : Limits⦄ (xs ys : NodeChildren) (c e : Child)
    → length (xs ++ c ∷ ys) ≤ lim.max_children
    → (l r : NodeChildren) × (insert_split (xs ++ c ∷ ys) (length xs + 1) e ≡ some (l, r))
      × AreEven (xs ++ c ∷ (e ∷ ys)) l r
insert_split_behind ⦃lim = lim⦄ xs ys c e room =
    let room' : length ((xs ++ c ∷ []) ++ ys) ≤ lim.max_children =
      rw (append_assoc xs (c ∷ []) ys) room in
    let (l, r, q, even) =
      insert_split_lem (xs ++ c ∷ []) ys e
        (omega (arith, length-append (xs ++ c ∷ []) ys, length-append xs (c ∷ []))) room' in
    (
      l,
      r,
      rw (append_assoc, length-append) at q,
      subst (λ cs. AreEven cs l r) (append_assoc xs (c ∷ []) (e ∷ ys)) even,
    )
