-- ===== src/Node/Edit/Compacting.antt =====
-- The compaction that `edit_chunk_at_char` of src/tree/node.rs does first.
use ropey.Common.{
  ℕ, zero, suc, ◌≤◌, ◌<◌, ◌≡◌, refl, some, [], ◌∷◌, arith, ltb, inl, inr, Bool-cases, length,
}
use ropey.Crates.{Crates, IsDocumented}
use ropey.Tree.{Limits, leaf, internal, NodeChildren}
use ropey.Tree.Content.{children_text, Fits, IsTree}
use ropey.NodeChildren.{is_full, combined_info}
use ropey.Node.Merge.Compacted.{compact_leaves_lem}
use ropey.Node.Edit.{compact_fragments, frag_min_bytes}

module _ ⦃lim : Limits⦄ ⦃crates : Crates⦄ (docs : IsDocumented crates) where
  -- The children after the compaction: as sound as before, with the same text.
  abbrev pub Compacted : ℕ → NodeChildren → NodeChildren → Type 0
  Compacted d cs ds =
      (children_text ds ≡ children_text cs)
      × Fits (IsTree d) ds
      × (0 < length ds)
      × (length ds ≤ lim.max_children)

  pub compact_fragments_lem :
      (d : ℕ) (cs : NodeChildren)
      → Fits (IsTree d) cs
      → 0 < length cs
      → length cs ≤ lim.max_children
      → (ds : NodeChildren) × (compact_fragments cs ≡ some ds) × Compacted d cs ds
  unfolding compact_fragments
  compact_fragments_lem d [] h pos room = absurd (omega arith)
  compact_fragments_lem zero ((i, internal es) ∷ cs) h pos room = absurd h.0
  compact_fragments_lem (suc d) ((i, leaf t) ∷ cs) h pos room = absurd h.0
  compact_fragments_lem (suc d) ((i, internal es) ∷ cs) h pos room =
      elim (Bool-cases (is_full ((i, internal es) ∷ cs))) [
        | inl full ↦ ((i, internal es) ∷ cs, rw full refl, (refl, h, pos, room))
        | inr other ↦ ((i, internal es) ∷ cs, rw other refl, (refl, h, pos, room))
      ]
  compact_fragments_lem zero ((i, leaf t) ∷ cs) h pos room =
      elim (Bool-cases (is_full ((i, leaf t) ∷ cs))) [
        | inl full ↦
            elim (Bool-cases (ltb (combined_info ((i, leaf t) ∷ cs)).bytes frag_min_bytes)) [
              | inl few ↦
                  let (ds, e, same, fits, left, short) =
                    compact_leaves_lem docs ((i, leaf t) ∷ cs) h pos in
                  (ds, rw (full, few, e), (same, fits, left, omega (arith, short, room)))
              | inr many ↦ ((i, leaf t) ∷ cs, rw (full, many) refl, (refl, h, pos, room))
            ]
        | inr other ↦ ((i, leaf t) ∷ cs, rw other refl, (refl, h, pos, room))
      ]
