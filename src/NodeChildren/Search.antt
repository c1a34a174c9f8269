-- ===== src/NodeChildren/Search.antt =====
-- The searches of src/tree/node_children.rs for a byte and a char.
use ropey.Common.{
  ℕ, ◌+◌, ◌<◌, ◌≡◌, refl, sym, ◌∙◌, ap, ◌⊎◌, inl, inr, Bool, true, false, some, [], ◌∷◌, ◌++◌,
  arith, length, append_assoc, Bool-cases, lt→ltb, subst, append-nil,
}
use ropey.TextInfo
use ropey.TextInfo.{TextInfo, add}
use ropey.Tree.{Child, NodeChildren}
use ropey.NodeChildren.{sum_infos, search_from, search_by, init, Node}
use ropey.NodeChildren.Arrays.{init-append}
use ropey.NodeChildren.Halves.{last_of}

-- Where `search_from` stops: behind `before`, either at the end or at a child that passes the test,
-- and not before a child that passes it.
pub record Stops (pred : TextInfo → TextInfo → Bool) (cs : NodeChildren) (idx : ℕ) (acc : TextInfo)
    (r : ℕ × TextInfo) : Type 0 where
  pub before : NodeChildren
  pub after : NodeChildren
  pub parts : before ++ after ≡ cs
  pub index : r.0 ≡ idx + length before
  pub total : r.1 ≡ sum_infos acc before
  pub hit :
      (after ≡ [])
      ⊎ ((c : Child) × (ys : NodeChildren) × (after ≡ c ∷ ys) × (pred r.1 (add r.1 c.0) ≡ true))
  pub missed : (before ≡ []) ⊎ ((p : TextInfo) × (pred p r.1 ≡ false))

one_more :
    (pred : TextInfo → TextInfo → Bool) (cs : NodeChildren) (idx : ℕ) (acc i : TextInfo) (n : Node)
    (r : ℕ × TextInfo)
    → pred acc (add acc i) ≡ false
    → Stops pred cs (idx + 1) (add acc i) r
    → Stops pred ((i, n) ∷ cs) idx acc r
unfolding sum_infos
one_more pred cs idx acc i n r passed s = record {
  before = (i, n) ∷ s.before;
  after = s.after;
  parts = ap (λ t. (i, n) ∷ t) s.parts;
  index = omega (arith, s.index);
  total = s.total;
  hit = s.hit;
  missed = inr (missed_by s.before s.total s.missed);
}
  where
    missed_by :
        (before : NodeChildren)
        → r.1 ≡ sum_infos (add acc i) before
        → (before ≡ []) ⊎ ((p : TextInfo) × (pred p r.1 ≡ false))
        → (p : TextInfo) × (pred p r.1 ≡ false)
    missed_by before e (inl none_before) = (acc, rw (e, none_before) passed)
    missed_by before e (inr found) = found

search_from-Stops :
    (pred : TextInfo → TextInfo → Bool) (cs : NodeChildren) (idx : ℕ) (acc : TextInfo)
    → Stops pred cs idx acc (search_from pred cs idx acc)
unfolding search_from sum_infos
search_from-Stops pred [] idx acc = record {
  before = [];
  after = [];
  parts = refl;
  index = omega arith;
  total = refl;
  hit = inl refl;
  missed = inl refl;
}
search_from-Stops pred ((i, n) ∷ cs) idx acc = elim (Bool-cases (pred acc (add acc i))) [
  | inl found ↦ rw found (record {
    before = [];
    after = (i, n) ∷ cs;
    parts = refl;
    index = omega arith;
    total = refl;
    hit = inr ((i, n), cs, refl, found);
    missed = inl refl;
  })
  | inr passed ↦
      rw passed
        (one_more pred cs idx acc i n _ passed (search_from-Stops pred cs (idx + 1) (add acc i)))
]

-- The child that a search finds, with the children on both sides.
pub record Found (pred : TextInfo → TextInfo → Bool) (cs : NodeChildren) (idx : ℕ)
    (accum : TextInfo) : Type 0 where
  pub before : NodeChildren
  pub child : Child
  pub after : NodeChildren
  pub parts : before ++ child ∷ after ≡ cs
  pub index : idx ≡ length before
  pub total : accum ≡ sum_infos TextInfo.new before
  pub hit : (after ≡ []) ⊎ (pred accum (add accum child.0) ≡ true)
  pub missed : (before ≡ []) ⊎ ((p : TextInfo) × (pred p accum ≡ false))

first_eq : (c d : Child) (xs ys : NodeChildren) → c ∷ xs ≡ d ∷ ys → c ≡ d
first_eq c d xs ys e = cc

Stops-Found :
    (pred : TextInfo → TextInfo → Bool) (xs : NodeChildren) (c : Child) (r : ℕ × TextInfo)
    → Stops pred xs 0 TextInfo.new r
    → Found pred (xs ++ c ∷ []) r.0 r.1
Stops-Found pred xs c r s = by_rest s.after s.parts s.hit
  where
    by_rest :
        (after : NodeChildren)
        → s.before ++ after ≡ xs
        → (after ≡ [])
          ⊎ ((d : Child) × (ys : NodeChildren) × (after ≡ d ∷ ys) × (pred r.1 (add r.1 d.0) ≡ true))
        → Found pred (xs ++ c ∷ []) r.0 r.1
    by_rest [] parts hit = record {
      before = s.before;
      child = c;
      after = [];
      parts = ap (λ t. t ++ c ∷ []) (sym (append-nil s.before) ∙ parts);
      index = omega (arith, s.index);
      total = s.total;
      hit = inl refl;
      missed = s.missed;
    }
    by_rest (d ∷ ys) parts (inl none_after) = cc
    by_rest (d ∷ ys) parts (inr (d', ys', e, found)) = record {
      before = s.before;
      child = d;
      after = ys ++ c ∷ [];
      parts = sym (append_assoc s.before (d ∷ ys) (c ∷ [])) ∙ ap (λ t. t ++ c ∷ []) parts;
      index = omega (arith, s.index);
      total = s.total;
      hit = inr (rw (first_eq d d' ys ys' e) found);
      missed = s.missed;
    }

-- A search of an array that is not empty does not panic, and finds a child.
pub search_by_lem :
    (pred : TextInfo → TextInfo → Bool) (cs : NodeChildren)
    → 0 < length cs
    → (idx : ℕ) × (accum : TextInfo) × (search_by pred cs ≡ some (idx, accum))
      × Found pred cs idx accum
unfolding search_by
search_by_lem pred cs pos =
    let r = search_from pred (init cs) 0 TextInfo.new in
    let (xs, c, p) = last_of cs pos in
    let stops : Stops pred xs 0 TextInfo.new r =
      rw (sym (ap init p ∙ init-append xs c)) (search_from-Stops pred (init cs) 0 TextInfo.new) in
    (
      r.0,
      r.1,
      rw (lt→ltb _ _ pos),
      subst (λ t. Found pred t r.0 r.1) (sym p) (Stops-Found pred xs c r stops),
    )
