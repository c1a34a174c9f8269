-- ===== src/Tree/Counts.antt =====
-- The number of nodes of a tree, which bounds the rounds of the loops that merge nodes in
-- src/tree/node.rs.
use ropey.Common.{
  ℕ, zero, suc, ◌+◌, ◌*◌, ◌≤◌, ◌≡◌, refl, ◌∙◌, ap, [], ◌∷◌, ◌++◌, arith, length, length-append,
}
use ropey.Tree.{
  Limits, Node, leaf, internal, Entries, nil, cons, NodeChildren, pack, unpack, unpack-pack,
}
use native.Mathlib.Nat.{mul-add, suc-mul}
use ropey.Tree.Content.{text, entries_text, children_text, Fits, IsTree}

abbrev mutual
  pub nodes : Node → ℕ
  nodes (leaf t) = 1
  nodes (internal es) = suc (entries_nodes es)

  pub entries_nodes : Entries → ℕ
  entries_nodes nil = 0
  entries_nodes (cons i n es) = nodes n + entries_nodes es

abbrev pub children_nodes : NodeChildren → ℕ
children_nodes [] = 0
children_nodes ((i, n) ∷ cs) = nodes n + children_nodes cs

pub entries_nodes-unpack : (es : Entries) → entries_nodes es ≡ children_nodes (unpack es)
entries_nodes-unpack nil = refl
entries_nodes-unpack (cons i n es) = ap (λ k. nodes n + k) (entries_nodes-unpack es)

pub packed_nodes : (cs : NodeChildren) → nodes (internal (pack cs)) ≡ suc (children_nodes cs)
packed_nodes cs = ap suc (entries_nodes-unpack (pack cs) ∙ ap children_nodes (unpack-pack cs))

pub children_nodes-append :
    (xs ys : NodeChildren) → children_nodes (xs ++ ys) ≡ children_nodes xs + children_nodes ys
children_nodes-append [] ys = omega arith
children_nodes-append ((i, n) ∷ xs) ys = omega (arith, children_nodes-append xs ys)

entries_text-unpack : (es : Entries) → entries_text es ≡ children_text (unpack es)
entries_text-unpack nil = refl
entries_text-unpack (cons i n es) = ap (λ t. text n ++ t) (entries_text-unpack es)

-- Each node but an empty root holds a byte, and stands on one of the levels.
module _ ⦃lim : Limits⦄ where
  children_nodes_le :
      (d : ℕ) (cs : NodeChildren)
      → ((n : Node) → IsTree d n → nodes n ≤ 1 + d * length (text n))
      → Fits (IsTree d) cs
      → children_nodes cs ≤ suc d * length (children_text cs)
  children_nodes_le d [] below h = omega arith
  children_nodes_le d ((i, n) ∷ cs) below h = omega (
    arith,
    below n h.0,
    h.1,
    children_nodes_le d cs below h.4,
    length-append (text n) (children_text cs),
    ap (λ k. suc d * k) (length-append (text n) (children_text cs)),
    mul-add (suc d) (length (text n)) (length (children_text cs)),
    suc-mul d (length (text n)),
  )

  pub nodes_le : (d : ℕ) (n : Node) → IsTree d n → nodes n ≤ 1 + d * length (text n)
  nodes_le zero (leaf t) h = omega arith
  nodes_le zero (internal es) h = absurd h
  nodes_le (suc d) (leaf t) h = absurd h
  nodes_le (suc d) (internal es) h = omega (
    arith,
    children_nodes_le d (unpack es) (nodes_le d) h.2,
    entries_nodes-unpack es,
    ap (λ t. suc d * length t) (entries_text-unpack es),
  )
