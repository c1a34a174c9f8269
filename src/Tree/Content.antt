-- ===== src/Tree/Content.antt =====
-- The text that a tree holds, and the invariant of a balanced tree with accurate text infos.
use ropey.Common.{ℕ, zero, suc, ◌≤◌, ◌<◌, ◌≡◌, false, List, [], ◌∷◌, ◌++◌, length}
use ropey.TextInfo.Laws.{measure}
use ropey.Crates.Measures.Laws.{cuts_crlf}
use ropey.Str.{IsStr}
use ropey.Tree.{Node, leaf, internal, Entries, nil, cons, NodeChildren, unpack, Limits}

abbrev mutual
  pub text : Node → List ℕ
  text (leaf t) = t
  text (internal es) = entries_text es

  pub entries_text : Entries → List ℕ
  entries_text nil = []
  entries_text (cons i n es) = text n ++ entries_text es

abbrev pub children_text : NodeChildren → List ℕ
children_text [] = []
children_text ((i, n) ∷ cs) = text n ++ children_text cs

-- Each child satisfies `P`, is not empty, stands beside its accurate text info, and does not end
-- in the middle of a CRLF pair.
abbrev pub Fits : (Node → Type 0) → NodeChildren → Type 0
Fits P [] = Unit
Fits P ((i, n) ∷ cs) =
    P n
    × (0 < length (text n))
    × (i ≡ measure (text n))
    × (cuts_crlf (text n) (children_text cs) ≡ false)
    × Fits P cs

-- A tree whose leaves all stand at the depth `d`, with 1 to `max_children` children at each node.
abbrev pub IsTree : ⦃lim : Limits⦄ → ℕ → Node → Type 0
IsTree zero (leaf t) = IsStr t
IsTree zero (internal es) = ⊥
IsTree (suc d) (leaf t) = ⊥
IsTree ⦃lim⦄ (suc d) (internal es) =
    (0 < length (unpack es)) × (length (unpack es) ≤ lim.max_children) × Fits (IsTree d) (unpack es)
