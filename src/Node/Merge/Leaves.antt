-- ===== src/Node/Merge/Leaves.antt =====
-- Arrays of leaves, for `compact_leaves` of src/tree/node_children.rs: the invariant that its loop
-- keeps, and what its steps do at their place.
use ropey.Common.{
  ℕ, ◌+◌, ◌≤◌, ◌<◌, ◌≡◌, refl, sym, ◌∙◌, ap, true, false, some, List, [], ◌∷◌, ◌++◌, arith, ltb,
  length, length-append, append_assoc, take, drop, map, take-append,
}
use ropey.Crates.{Crates, IsDocumented}
use ropey.Crates.Measures.Laws.{cuts_crlf}
use ropey.Str.{IsStr, is_char_boundary, str_slice}
use ropey.Str.Cut.{IsCut-at, str_slice_front}
use ropey.Tree.{Limits, leaf, internal, Child, NodeChildren}
use ropey.Tree.Content.{children_text, Fits, IsTree}
use ropey.NodeText.Edits.{truncate_front_parts}
use ropey.NodeChildren.Arrays.{remove_parts, drop-append_cons}
use ropey.NodeChildren.Infos.{children_text-append}
use ropey.Node.Info.{text_info-measure}
use ropey.Node.Merge.{set_child, with_info}
use ropey.NodeChildren.{remove}
use ropey.NodeText.{truncate_front}

-- Leaves that are not empty, between which no CRLF pair is cut; their text infos may be stale.
abbrev pub AreLeaves : NodeChildren → Type 0
AreLeaves [] = Unit
AreLeaves ((_, leaf t) ∷ cs) =
    IsStr t × (0 < length t) × (cuts_crlf t (children_text cs) ≡ false) × AreLeaves cs
AreLeaves ((_, internal _) ∷ cs) = ⊥

pub AreLeaves-suffix : (xs ys : NodeChildren) → AreLeaves (xs ++ ys) → AreLeaves ys
AreLeaves-suffix [] ys h = h
AreLeaves-suffix ((i, leaf t) ∷ xs) ys h = AreLeaves-suffix xs ys h.3
AreLeaves-suffix ((i, internal es) ∷ xs) ys h = absurd h

-- The end of the array may be replaced by leaves with the same text.
pub AreLeaves-replace :
    (xs ys zs : NodeChildren)
    → children_text ys ≡ children_text zs
    → AreLeaves (xs ++ ys)
    → AreLeaves zs
    → AreLeaves (xs ++ zs)
AreLeaves-replace [] ys zs e h k = k
AreLeaves-replace ((i, internal es) ∷ xs) ys zs e h k = absurd h
AreLeaves-replace ((i, leaf t) ∷ xs) ys zs e h k =
    let same : children_text (xs ++ ys) ≡ children_text (xs ++ zs) =
      children_text-append xs ys
      ∙ (ap (λ u. children_text xs ++ u) e ∙ sym (children_text-append xs zs)) in
    (h.0, h.1, rw same at h.2, AreLeaves-replace xs ys zs e h.3 k)

pub AreLeaves-Fits :
    ⦃lim : Limits⦄ ⦃crates : Crates⦄ (docs : IsDocumented crates) (cs : NodeChildren)
    → AreLeaves cs
    → (children_text (map with_info cs) ≡ children_text cs) × Fits (IsTree 0) (map with_info cs)
AreLeaves-Fits docs [] h = (refl, tt)
AreLeaves-Fits docs ((i, internal es) ∷ cs) h = absurd h
AreLeaves-Fits docs ((i, leaf t) ∷ cs) h =
    let (same, fits) = AreLeaves-Fits docs cs h.3 in
    (ap (λ u. t ++ u) same, (h.0, h.1, text_info-measure docs 0 (leaf t) h.0, rw same h.2, fits))

pub Fits-AreLeaves : ⦃lim : Limits⦄ (cs : NodeChildren) → Fits (IsTree 0) cs → AreLeaves cs
Fits-AreLeaves [] h = tt
Fits-AreLeaves ((i, leaf t) ∷ cs) h = (h.0, h.1, h.3, Fits-AreLeaves cs h.4)
Fits-AreLeaves ((i, internal es) ∷ cs) h = absurd h.0

pub set_child_parts :
    (xs ys : NodeChildren) (c d : Child)
    → set_child (xs ++ c ∷ ys) (length xs) d ≡ some (xs ++ d ∷ ys)
unfolding set_child
set_child_parts xs ys c d =
    let inside : ltb (length xs) (length (xs ++ c ∷ ys)) ≡ true =
      ground (arith, length-append xs (c ∷ ys)) in
    rw (inside, take-append, drop-append_cons)

pub set_child-second :
    (xs ys : NodeChildren) (b c d : Child)
    → set_child (xs ++ b ∷ (c ∷ ys)) (length xs + 1) d ≡ some (xs ++ b ∷ (d ∷ ys))
set_child-second xs ys b c d =
    rw (append_assoc, append_assoc, length-append) at (set_child_parts (xs ++ b ∷ []) ys c d)

pub remove-second :
    ⦃lim : Limits⦄ (xs ys : NodeChildren) (b c : Child)
    → remove (xs ++ b ∷ (c ∷ ys)) (length xs + 1) ≡ some (xs ++ b ∷ ys, c)
remove-second xs ys b c =
    rw (append_assoc, append_assoc, length-append) at (remove_parts (xs ++ b ∷ []) ys c)

-- One round leaves the text, and a shorter way to the end.
pub record IsRound (i : ℕ) (cs : NodeChildren) (j : ℕ) (ds : NodeChildren) : Type 0 where
  pub same_text : children_text ds ≡ children_text cs
  pub are_leaves : AreLeaves ds
  pub index_positive : 0 < j
  pub not_longer : length ds ≤ length cs
  pub some_left : 0 < length ds
  pub nearer : length ds + i < length cs + j

pub text_behind :
    (xs ys zs : NodeChildren)
    → children_text ys ≡ children_text zs
    → children_text (xs ++ zs) ≡ children_text (xs ++ ys)
text_behind xs ys zs e =
    children_text-append xs zs
    ∙ (ap (λ u. children_text xs ++ u) (sym e) ∙ sym (children_text-append xs ys))

pub slice_take :
    (t : List ℕ) (s : ℕ) → IsStr t → is_char_boundary t s ≡ true → str_slice t 0 s ≡ some (take s t)
slice_take t s h bound =
    let cut = IsCut-at t s h bound in
    rw (cut.joins, cut.left_len) at (str_slice_front (take s t) (drop s t) cut.right_str)

pub truncate_front-drop :
    ⦃crates : Crates⦄ (docs : IsDocumented crates) (t : List ℕ) (s : ℕ)
    → IsStr t
    → is_char_boundary t s ≡ true
    → truncate_front t s ≡ some (drop s t)
truncate_front-drop docs t s h bound =
    let cut = IsCut-at t s h bound in
    rw (cut.joins, cut.left_len) at
      (truncate_front_parts docs (take s t) (drop s t) cut.left_str cut.right_str)
