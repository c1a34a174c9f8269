-- ===== src/Rope/Root.antt =====
-- `pull_up_singular_nodes` of src/rope.rs, which takes away the root while it has one child.
use ropey.Common.{
  ℕ, zero, suc, ◌≤◌, ◌<◌, ◌≡◌, ◌≢◌, refl, sym, ◌∙◌, Option, none, some, arith, length, append-nil,
  List,
}
use ropey.Tree.{Limits, Node, leaf, internal, nil, cons, unpack}
use ropey.Tree.Content.{text, IsTree}
use ropey.Node.{child_count}

-- `while (!self.root.is_leaf()) && self.root.child_count() == 1`, with fuel for the levels.
unfoldable pub pull_up_singular_nodes : ℕ → Node → Option Node
pull_up_singular_nodes zero root = none
pull_up_singular_nodes (suc fuel) (leaf t) = some (leaf t)
pull_up_singular_nodes (suc fuel) (internal nil) = some (internal nil)
pull_up_singular_nodes (suc fuel) (internal (cons _ child nil)) = pull_up_singular_nodes fuel child
pull_up_singular_nodes (suc fuel) (internal (cons i a (cons j b es))) =
    some (internal (cons i a (cons j b es)))

-- A tree that is no deeper than `d`, holds the text `t`, and whose root has not just one child.
pub record IsPulledUp ⦃lim : Limits⦄ (d : ℕ) (t : List ℕ) (root : Node) : Type 0 where
  pub depth : ℕ
  pub not_deeper : depth ≤ d
  pub is_tree : IsTree depth root
  pub same_text : text root ≡ t
  pub not_singular : child_count root ≢ some 1

two_children : (n : ℕ) → some (suc (suc n)) ≢ some 1
two_children n e = let len : suc (suc n) ≡ 1 = cc in omega (arith, len)

-- From a balanced tree, with fuel for its levels, `pull_up_singular_nodes` ends in a balanced tree
-- with the same text, whose root does not have just one child.
pub pull_up_singular_nodes_lem :
    ⦃lim : Limits⦄ (d fuel : ℕ) (root : Node)
    → IsTree d root
    → d < fuel
    → (root' : Node) × (pull_up_singular_nodes fuel root ≡ some root')
      × IsPulledUp d (text root) root'
unfolding pull_up_singular_nodes
pull_up_singular_nodes_lem d zero root h enough = absurd (omega arith)
pull_up_singular_nodes_lem zero (suc fuel) (leaf t) h enough = (
  leaf t,
  refl,
  record {
    depth = 0;
    not_deeper = omega arith;
    is_tree = h;
    same_text = refl;
    not_singular = λ e. cc;
  },
)
pull_up_singular_nodes_lem zero (suc fuel) (internal es) h enough = absurd h
pull_up_singular_nodes_lem (suc d) (suc fuel) (leaf t) h enough = absurd h
pull_up_singular_nodes_lem (suc d) (suc fuel) (internal nil) h enough = absurd (omega (arith, h.0))
pull_up_singular_nodes_lem (suc d) (suc fuel) (internal (cons i child nil)) h enough =
    let (root', e, up) = pull_up_singular_nodes_lem d fuel child h.2.0 (omega arith) in
    (
      root',
      e,
      record {
        depth = up.depth;
        not_deeper = omega (arith, up.not_deeper);
        is_tree = up.is_tree;
        same_text = up.same_text ∙ sym (append-nil (text child));
        not_singular = up.not_singular;
      },
    )
pull_up_singular_nodes_lem (suc d) (suc fuel) (internal (cons i a (cons j b es))) h enough = (
  internal (cons i a (cons j b es)),
  refl,
  record {
    depth = suc d;
    not_deeper = omega arith;
    is_tree = h;
    same_text = refl;
    not_singular = λ e. two_children (length (unpack es)) e;
  },
)
