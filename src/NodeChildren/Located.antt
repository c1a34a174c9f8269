-- ===== src/NodeChildren/Located.antt =====
-- The searches of src/tree/node_children.rs for a byte or a char, with what they share: a child
-- whose size, in what the position counts, is added up to a strict bound.
use ropey.Common.{
  ℕ, ◌+◌, ◌%◌, ◌≤◌, ◌<◌, ◌≡◌, refl, ◌∙◌, ap, ◌⊎◌, inl, inr, Bool, true, false, some, List, [], ◌∷◌,
  ◌++◌, arith, length, length-append, ltb,
}
use ropey.Str.{IsStr}
use ropey.Crates.Measures.{count_chars}
use ropey.Crates.Measures.Laws.{tally-append, tally-le-length}
use ropey.TextInfo
use ropey.TextInfo.{TextInfo, word, add}
use ropey.TextInfo.Laws.{measure, measure-IsCount}
use ropey.Tree.{Node, Child, NodeChildren}
use ropey.Tree.Content.{text, children_text, Fits}
use ropey.NodeChildren.{search_by, search_byte_idx, search_char_idx, sum_infos}
use ropey.NodeChildren.Infos.{
  sum_infos_lem, new-IsCount, new-add, children_text-append, Fits-prefix, Fits-suffix,
}
use ropey.NodeChildren.Search.{Found, search_by_lem}

-- The child at `idx` holds the position `i`, which counts `size`: the position is not before the
-- child, and not behind its end; at its end it is only in the last child.
pub record Holds (size : List ℕ → ℕ) (cs : NodeChildren) (i idx : ℕ) (accum : TextInfo)
    : Type 0 where
  pub before : NodeChildren
  pub child : Child
  pub after : NodeChildren
  pub parts : before ++ child ∷ after ≡ cs
  pub index : idx ≡ length before
  pub total : accum ≡ measure (children_text before)
  pub not_before : size (children_text before) ≤ i
  pub not_behind : i ≤ size (children_text before) + size (text child.1)
  pub at_end_only : (after ≡ []) ⊎ (i < size (children_text before) + size (text child.1))

module _ (P : Node → Type 0) (holds_str : (n : Node) → P n → IsStr (text n)) (field : TextInfo → ℕ)
    (size : List ℕ → ℕ) (field-measure : (t : List ℕ) → field (measure t) ≡ size t % word)
    (field-add : (x y : TextInfo) → field (add x y) ≡ (field x + field y) % word)
    (size-append : (xs ys : List ℕ) → size (xs ++ ys) ≡ size xs + size ys)
    (size-le-length : (xs : List ℕ) → size xs ≤ length xs) where
  abbrev past : ℕ → TextInfo → TextInfo → Bool
  past i _ end = ltb i (field end)

  size-cons :
      (before after : NodeChildren) (c : Child)
      → size (children_text (before ++ c ∷ after))
        ≡ size (children_text before) + size (text c.1) + size (children_text after)
  size-cons before after c =
      rw (children_text-append before (c ∷ after), size-append, size-append) (omega arith)

  size-nil : size [] ≡ 0
  size-nil = omega (arith, size-append [] [])

  module _ (before after : NodeChildren) (c : Child) (i : ℕ) (accum : TextInfo)
      (h : Fits P (before ++ c ∷ after))
      (small : length (children_text (before ++ c ∷ after)) < word)
      (le : i ≤ size (children_text (before ++ c ∷ after)))
      (total : accum ≡ sum_infos TextInfo.new before) where
    accum-measure : accum ≡ measure (children_text before)
    accum-measure =
        total
        ∙ sum_infos_lem P holds_str TextInfo.new before new-IsCount
            (Fits-prefix P holds_str before (c ∷ after) h)
        ∙ new-add (measure (children_text before)) (measure-IsCount (children_text before))

    child-measure : c.0 ≡ measure (text c.1)
    child-measure = (Fits-suffix P holds_str before (c ∷ after) h).2

    fits_word : size (children_text (before ++ c ∷ after)) < word
    fits_word = omega (arith, size-le-length (children_text (before ++ c ∷ after)))

    field-accum : field accum ≡ size (children_text before)
    field-accum =
        rw accum-measure
          (omega (arith, field-measure (children_text before), fits_word, size-cons before after c))

    field-next : field (add accum c.0) ≡ size (children_text before) + size (text c.1)
    field-next = omega (
      arith,
      field-add accum c.0,
      field-accum,
      ap field child-measure,
      field-measure (text c.1),
      fits_word,
      size-cons before after c,
    )

    before-le :
        (before ≡ []) ⊎ ((p : TextInfo) × (past i p accum ≡ false))
        → size (children_text before) ≤ i
    before-le (inl none_before) =
        omega (arith, ap (λ t. size (children_text t)) none_before, size-nil)
    before-le (inr (p, missed)) = ground (arith, field-accum)

    inside_child :
        (after ≡ []) ⊎ (past i accum (add accum c.0) ≡ true)
        → (i ≤ size (children_text before) + size (text c.1))
          × ((after ≡ []) ⊎ (i < size (children_text before) + size (text c.1)))
    inside_child (inl none_after) = (
      omega
          (arith, size-cons before after c, ap (λ t. size (children_text t)) none_after, size-nil),
      inl none_after,
    )
    inside_child (inr hit) =
        let less : i < size (children_text before) + size (text c.1) = ground (arith, field-next) in
        (omega arith, inr less)

  pub Found-Holds :
      (cs : NodeChildren) (i idx : ℕ) (accum : TextInfo)
      → Fits P cs
      → length (children_text cs) < word
      → i ≤ size (children_text cs)
      → Found (past i) cs idx accum
      → Holds size cs i idx accum
  Found-Holds cs i idx accum h small le f =
      let h' : Fits P (f.before ++ f.child ∷ f.after) = rw f.parts h in
      let small' : length (children_text (f.before ++ f.child ∷ f.after)) < word =
        rw f.parts small in
      let le' : i ≤ size (children_text (f.before ++ f.child ∷ f.after)) = rw f.parts le in
      let inside = inside_child f.before f.after f.child i accum h' small' le' f.total f.hit in
      record {
        before = f.before;
        child = f.child;
        after = f.after;
        parts = f.parts;
        index = f.index;
        total = accum-measure f.before f.after f.child i accum h' small' le' f.total;
        not_before = before-le f.before f.after f.child i accum h' small' le' f.total f.missed;
        not_behind = inside.0;
        at_end_only = inside.1;
      }

  pub search-Holds :
      (cs : NodeChildren) (i : ℕ)
      → 0 < length cs
      → Fits P cs
      → length (children_text cs) < word
      → i ≤ size (children_text cs)
      → (idx : ℕ) × (accum : TextInfo) × (search_by (past i) cs ≡ some (idx, accum))
        × Holds size cs i idx accum
  search-Holds cs i pos h small le =
      let (idx, accum, e, f) = search_by_lem (past i) cs pos in
      (idx, accum, e, Found-Holds cs i idx accum h small le f)

-- In an array with accurate text infos, that holds less than 2^64 bytes, a byte index up to the
-- length is found in the child that `Holds` it.
pub search_byte_idx_lem :
    (P : Node → Type 0) (holds_str : (n : Node) → P n → IsStr (text n)) (cs : NodeChildren) (i : ℕ)
    → 0 < length cs
    → Fits P cs
    → length (children_text cs) < word
    → i ≤ length (children_text cs)
    → (idx : ℕ) × (accum : TextInfo) × (search_byte_idx cs i ≡ some (idx, accum))
      × Holds length cs i idx accum
unfolding search_byte_idx add
search_byte_idx_lem P holds_str =
    search-Holds P holds_str (λ x. x.bytes) length (λ t. refl) (λ x y. refl) length-append
      (λ xs. omega arith)

-- In an array with accurate text infos, that holds less than 2^64 bytes, a char index up to the
-- number of chars is found in the child that `Holds` it.
pub search_char_idx_lem :
    (P : Node → Type 0) (holds_str : (n : Node) → P n → IsStr (text n)) (cs : NodeChildren) (i : ℕ)
    → 0 < length cs
    → Fits P cs
    → length (children_text cs) < word
    → i ≤ count_chars (children_text cs)
    → (idx : ℕ) × (accum : TextInfo) × (search_char_idx cs i ≡ some (idx, accum))
      × Holds count_chars cs i idx accum
unfolding search_char_idx add
search_char_idx_lem P holds_str =
    search-Holds P holds_str (λ x. x.chars) count_chars (λ t. refl) (λ x y. refl) (tally-append _)
      (tally-le-length _)
