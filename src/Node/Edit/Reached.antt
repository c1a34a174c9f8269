-- ===== src/Node/Edit/Reached.antt =====
-- What an edit by `edit_chunk_at_char` of src/tree/node.rs reaches: the chunk that the closure
-- edits, and the node that holds the edited text in its place.
use ropey.Common.{
  ℕ, suc, ◌-◌, ◌≤◌, ◌<◌, ◌≡◌, refl, sym, ap, ap₂, ◌⊎◌, inl, inr, false, Option, none, some, List,
  [], ◌∷◌, ◌++◌, arith, length, length-append, append_assoc, not, get_elem?,
}
use ropey.Crlf.{is_continuation}
use ropey.Crates.{Crates}
use ropey.Crates.Measures.{count_chars}
use ropey.Crates.Measures.Laws.{cuts_crlf, tally-append}
use ropey.TextInfo.{TextInfo, wrapping_sub}
use ropey.TextInfo.Laws.{measure}
use ropey.Tree.{Limits, Node, leaf, internal, Child, NodeChildren, unpack, Entries}
use ropey.Tree.Content.{text, children_text, Fits, IsTree}
use ropey.NodeText.{NodeText}
use ropey.NodeChildren.Infos.{children_text-append}
use ropey.Node.Merge.{set_child}
use ropey.Node.Edit.{
  Edited, compact_fragments, search_char_idx_only, place_residual, edit_chunk_at_char,
}
use ropey.Node.Edit.Edited.{IsEdited, residual_text}
use ropey.Node.Edit.Opened.{Opens}
use ropey.Node.Edit.Placed.{place_none, place_some}

-- The closure, called for the leaf `t` that holds the char, with `before` and `after` around it,
-- replaces it by the text `w`, cuts no CRLF pair and leaves what `Q` says.
pub record Handles {ℓ} {S : Type ℓ} ⦃lim : Limits⦄
    (Q : List ℕ → List ℕ → List ℕ → S → List ℕ → Type 0) (before t after : List ℕ)
    (result : Option (Edited S NodeText)) : Type ℓ where
  pub state : S
  pub new_text : List ℕ
  pub info : TextInfo
  pub residual : Option Child
  pub whole : List ℕ
  pub returns : result ≡ some (state, new_text, info, residual)
  pub edited : IsEdited 0 whole (leaf new_text) info residual
  pub left : cuts_crlf before whole ≡ false
  pub right : cuts_crlf whole after ≡ false
  pub claim : Q before t after state whole

-- The edit of a tree with the text `t`, between `before` and `after`.
pub record Reaches {ℓ} {S : Type ℓ} ⦃lim : Limits⦄
    (Q : List ℕ → List ℕ → List ℕ → S → List ℕ → Type 0) (d : ℕ) (before t after : List ℕ)
    (result : Option (Edited S Node)) : Type ℓ where
  pub front : List ℕ
  pub chunk : List ℕ
  pub back : List ℕ
  pub state : S
  pub node : Node
  pub info : TextInfo
  pub residual : Option Child
  pub whole : List ℕ
  pub parts : front ++ (chunk ++ back) ≡ t
  pub returns : result ≡ some (state, node, info, residual)
  pub edited : IsEdited d (front ++ (whole ++ back)) node info residual
  pub left : cuts_crlf before (front ++ (whole ++ back)) ≡ false
  pub right : cuts_crlf (front ++ (whole ++ back)) after ≡ false
  pub claim : Q (before ++ front) chunk (back ++ after) state whole

pub nest : (x f w b z : List ℕ) → x ++ ((f ++ (w ++ b)) ++ z) ≡ (x ++ f) ++ (w ++ (b ++ z))
nest x f w b z = rw (append_assoc, append_assoc, append_assoc) refl

pub widen :
    (before x y z after : List ℕ)
    → (before ++ x) ++ (y ++ (z ++ after)) ≡ before ++ ((x ++ (y ++ z)) ++ after)
widen before x y z after = sym (nest before x y z after)

pub IsEdited-some_text :
    ⦃lim : Limits⦄ (d : ℕ) (whole : List ℕ) (node : Node) (info : TextInfo)
    (residual : Option Child)
    → IsEdited d whole node info residual
    → 0 < length whole
IsEdited-some_text d whole node info residual e =
    omega
      (arith, e.not_empty, ap length e.joins, length-append (text node) (residual_text residual))

pub child_end :
    ⦃lim : Limits⦄ ⦃crates : Crates⦄ (d : ℕ) (es : Entries) (i : ℕ) (o : Opens d es i)
    (after : List ℕ)
    → (after ≡ []) ⊎ (i < count_chars (text (internal es)))
    → (children_text o.after ++ after ≡ [])
      ⊎ (i - count_chars (children_text o.before) < count_chars (text o.child.1))
child_end d es i o after end = elim o.at_end_only [
  | inr inside ↦ inr (omega (arith, inside, o.not_before))
  | inl last ↦ elim end [
    | inl done ↦ inl (ap₂ (λ cs t. children_text cs ++ t) last done)
    | inr before_end ↦ inr (
        omega (
          arith,
          before_end,
          o.not_before,
          ap count_chars o.same_text,
          ap count_chars (children_text-append o.before (o.child ∷ o.after)),
          tally-append (λ b. not (is_continuation b)) (children_text o.before)
              (children_text (o.child ∷ o.after)),
          tally-append (λ b. not (is_continuation b)) (text o.child.1) (children_text o.after),
          ap (λ cs. count_chars (children_text cs)) last,
        ))
  ]
]

pub place_lem {ℓ} :
    {S : Type ℓ} ⦃lim : Limits⦄ ⦃crates : Crates⦄ (d : ℕ) (xs ys : NodeChildren) (info : TextInfo)
    (n : Node)
    → Fits (IsTree d) (xs ++ (info, n) ∷ ys)
    → length (xs ++ (info, n) ∷ ys) ≤ lim.max_children
    → (whole : List ℕ) (n' : Node) (l_info : TextInfo) → cuts_crlf (children_text xs) whole ≡ false
    → cuts_crlf whole (children_text ys) ≡ false
    → (s : S) (residual : Option Child) → IsEdited d whole n' l_info residual
    → (node : Node) × (info' : TextInfo) × (residual' : Option Child) × (place_residual s
          (xs ++ (l_info, n') ∷ ys)
          (length xs)
          (measure (children_text (xs ++ (info, n) ∷ ys)))
          info
          l_info
          residual
        ≡ some (s, node, info', residual'))
      × IsEdited (suc d) (children_text xs ++ (whole ++ children_text ys)) node info' residual'
place_lem d xs ys info n h room whole n' l_info left right s none e =
    place_none d xs ys info n h room whole n' l_info left right s e
place_lem d xs ys info n h room whole n' l_info left right s (some (ri, r)) e =
    place_some d xs ys info n h room whole n' l_info left right s ri r e

module _ {ℓ} {S : Type ℓ} ⦃lim : Limits⦄ ⦃crates : Crates⦄
    (edit : ℕ → TextInfo → NodeText → Option (Edited S NodeText)) where
  pub edit_internal :
      (fuel : ℕ) (es : Entries) (i : ℕ) (info : TextInfo) (cs cs' : NodeChildren) (idx acc : ℕ)
      (c : Child) (s : S) (node : Node) (l_info : TextInfo) (residual : Option Child)
      (result : Option (Edited S Node))
      → compact_fragments (unpack es) ≡ some cs
      → search_char_idx_only cs i ≡ some (idx, acc)
      → get_elem? cs idx ≡ some c
      → edit_chunk_at_char fuel c.1 (wrapping_sub i acc) c.0 edit ≡ some (s, node, l_info, residual)
      → set_child cs idx (l_info, node) ≡ some cs'
      → place_residual s cs' idx info c.0 l_info residual ≡ result
      → edit_chunk_at_char (suc fuel) (internal es) i info edit ≡ result
  unfolding edit_chunk_at_char
  edit_internal fuel es i info cs cs' idx acc c s node l_info residual result h0 h1 h2 h3 h4 h5 =
      rw (h0, h1, h2, h3, h4) h5
