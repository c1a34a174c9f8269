-- ===== src/Tree.antt =====
-- src/tree/mod.rs, with the node types of src/tree/node.rs and src/tree/node_children.rs. An `Arc`
-- is its node: `Arc::make_mut` copies a shared node before a change, so sharing shows nowhere.
pub mod Content
pub mod Counts
use ropey.Common.{ℕ, zero, suc, ◌+◌, ◌-◌, ◌/◌, List, [], ◌∷◌, ◌≡◌, refl, ap}
use ropey.TextInfo.{TextInfo}
use ropey.NodeText.{NodeText}

-- The limits, which depend on the layout of the types in memory and on the feature `small_chunks`.
pub record Limits : Type 0 where
  pub max_bytes : ℕ
  pub max_children : ℕ

abbrev pub min_children : ⦃lim : Limits⦄ → ℕ
min_children ⦃lim⦄ = lim.max_children / 2

abbrev pub min_bytes : ⦃lim : Limits⦄ → ℕ
min_bytes ⦃lim⦄ = lim.max_bytes / 2 - lim.max_bytes / 32

-- The constants of `test_constants`, and those of a release build on a 64-bit machine.
abbrev pub small_chunks : Limits
small_chunks = record { max_bytes = 9; max_children = 5 }

abbrev pub release : Limits
release = record { max_bytes = 984; max_children = 24 }

-- `enum Node`, and the two arrays of `NodeChildrenInternal` as one list of pairs.
mutual
  pub data Node : Type 0 where
    leaf : NodeText → Node
    internal : Entries → Node

  pub data Entries : Type 0 where
    nil : Entries
    cons : TextInfo → Node → Entries → Entries

abbrev pub Child : Type 0
Child = TextInfo × Node

-- `struct NodeChildren`: its methods work on a list, which a node packs.
abbrev pub NodeChildren : Type 0
NodeChildren = List Child

abbrev pub pack : NodeChildren → Entries
pack [] = nil
pack ((i, n) ∷ cs) = cons i n (pack cs)

abbrev pub unpack : Entries → NodeChildren
unpack nil = []
unpack (cons i n es) = (i, n) ∷ unpack es

pub unpack-pack : (cs : NodeChildren) → unpack (pack cs) ≡ cs
unpack-pack [] = refl
unpack-pack ((i, n) ∷ cs) = ap (λ t. (i, n) ∷ t) (unpack-pack cs)

pub pack-unpack : (es : Entries) → pack (unpack es) ≡ es
pack-unpack nil = refl
pack-unpack (cons i n es) = ap (cons i n) (pack-unpack es)
