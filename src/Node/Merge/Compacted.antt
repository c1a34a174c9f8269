-- ===== src/Node/Merge/Compacted.antt =====
-- `compact_leaves` of src/tree/node_children.rs as a whole.
use ropey.Common.{
  ℕ, zero, suc, ◌+◌, ◌-◌, ◌≤◌, ◌<◌, ◌≡◌, refl, sym, ◌∙◌, ap, inl, inr, some, [], ◌∷◌, ◌++◌, arith,
  ltb, length, subst, Bool-cases, take, drop, map, take-append-drop, length-take, drop_cons,
}
use ropey.Crates.{Crates, IsDocumented}
use ropey.Tree.{Limits, leaf, internal, Child, NodeChildren}
use ropey.Tree.Content.{children_text, Fits, IsTree}
use ropey.Node.Merge.{with_info, compact_step, compact_from, compact_leaves}
use ropey.Node.Merge.Leaves.{AreLeaves, AreLeaves-suffix, AreLeaves-Fits, Fits-AreLeaves, IsRound}
use ropey.Node.Merge.Compact.{round}

length-map : (f : Child → Child) (cs : NodeChildren) → length (map f cs) ≡ length cs
length-map f [] = refl
length-map f (c ∷ cs) = omega (arith, length-map f cs)

-- The children at an index behind the first, and before it.
two_at :
    (cs : NodeChildren) (i : ℕ)
    → 0 < i
    → i < length cs
    → (xs : NodeChildren) × (l r : Child) × (ys : NodeChildren) × (xs ++ l ∷ (r ∷ ys) ≡ cs)
      × (length xs + 1 ≡ i)
two_at cs zero pos lt = absurd (omega arith)
two_at cs (suc k) pos lt =
    let (l, _, dl) = drop_cons cs k (omega arith) in
    let (r, _, dr) = drop_cons cs (k + 1) (omega arith) in
    (
      take k cs,
      l,
      r,
      drop (k + 1 + 1) cs,
      ap (λ t. take k cs ++ t) (sym (dl ∙ ap (λ t. l ∷ t) dr)) ∙ take-append-drop k cs,
      omega (arith, length-take k cs),
    )

module _ ⦃lim : Limits⦄ ⦃crates : Crates⦄ (docs : IsDocumented crates) where
  IsRound-at :
      (xs ys : NodeChildren) (l r : Child)
      → AreLeaves (xs ++ l ∷ (r ∷ ys))
      → (j : ℕ) × (ds : NodeChildren) × (compact_step (length xs + 1) (xs ++ l ∷ (r ∷ ys))
          ≡ some (j, ds))
        × IsRound (length xs + 1) (xs ++ l ∷ (r ∷ ys)) j ds
  IsRound-at xs ys (li, leaf tl) (ri, leaf tr) h = round docs xs ys li ri tl tr h
  IsRound-at xs ys (li, internal es) r h =
      absurd (AreLeaves-suffix xs ((li, internal es) ∷ (r ∷ ys)) h)
  IsRound-at xs ys (li, leaf tl) (ri, internal es) h =
      absurd (AreLeaves-suffix xs ((li, leaf tl) ∷ ((ri, internal es) ∷ ys)) h).3

  step_lem :
      (i : ℕ) (cs : NodeChildren)
      → AreLeaves cs
      → 0 < i
      → i < length cs
      → (j : ℕ) × (ds : NodeChildren) × (compact_step i cs ≡ some (j, ds)) × IsRound i cs j ds
  step_lem i cs h pos lt =
      let (xs, l, r, ys, parts, place) = two_at cs i pos lt in
      subst
        (λ n.
          (j : ℕ) × (ds : NodeChildren) × (compact_step n cs ≡ some (j, ds)) × IsRound n cs j ds)
        place
        (subst
          (λ t.
            (j : ℕ) × (ds : NodeChildren) × (compact_step (length xs + 1) t ≡ some (j, ds))
            × IsRound (length xs + 1) t j ds)
          parts (IsRound-at xs ys l r (rw parts h)))

  compact_from_lem :
      (fuel i : ℕ) (cs : NodeChildren)
      → AreLeaves cs
      → 0 < i
      → 0 < length cs
      → length cs - i < fuel
      → (ds : NodeChildren) × (compact_from fuel i cs ≡ some ds)
        × (children_text ds ≡ children_text cs)
        × AreLeaves ds
        × (0 < length ds)
        × (length ds ≤ length cs)
  unfolding compact_from
  compact_from_lem zero i cs h pos some_child enough = absurd (omega arith)
  compact_from_lem (suc fuel) i cs h pos some_child enough = elim (Bool-cases (ltb i (length cs))) [
    | inl inside ↦
        let (j, ds, e, r) = step_lem i cs h pos (ground arith) in
        let lt : i < length cs = ground arith in
        let (es, e', same, leaves, left, short) =
          compact_from_lem fuel j ds r.are_leaves r.index_positive r.some_left
            (omega (arith, r.nearer)) in
        (
          es,
          rw (inside, e, e'),
          same ∙ r.same_text,
          leaves,
          left,
          omega (arith, short, r.not_longer),
        )
    | inr end ↦ (cs, rw end refl, refl, h, some_child, omega arith)
  ]

  -- For leaves that are not empty, with accurate text infos, between which no CRLF pair is cut,
  -- `compact_leaves` ends without a panic. The leaves that it makes hold the same text, in no more
  -- leaves than before and at least one, with the same invariant.
  pub compact_leaves_lem :
      (cs : NodeChildren)
      → Fits (IsTree 0) cs
      → 0 < length cs
      → (ds : NodeChildren) × (compact_leaves cs ≡ some ds)
        × (children_text ds ≡ children_text cs)
        × Fits (IsTree 0) ds
        × (0 < length ds)
        × (length ds ≤ length cs)
  unfolding compact_leaves
  compact_leaves_lem [] h pos = absurd (omega arith)
  compact_leaves_lem ((i, internal es) ∷ cs) h pos = absurd h.0
  compact_leaves_lem ((i, leaf t) ∷ cs) h pos =
      elim (Bool-cases (ltb (length ((i, leaf t) ∷ cs)) 2)) [
        | inl single ↦ ((i, leaf t) ∷ cs, rw single refl, refl, h, pos, omega arith)
        | inr more ↦
            let all = (i, leaf t) ∷ cs in
            let (ds, e, same, leaves, left, short) =
              compact_from_lem (length ((i, leaf t) ∷ cs)) 1 ((i, leaf t) ∷ cs)
                (Fits-AreLeaves ((i, leaf t) ∷ cs) h) (omega arith) (omega arith) (omega arith) in
            let (same', fits) = AreLeaves-Fits docs ds leaves in
            (
              map with_info ds,
              rw (more, e) refl,
              same' ∙ same,
              fits,
              omega (arith, length-map with_info ds, left),
              omega (arith, length-map with_info ds, short),
            )
      ]
