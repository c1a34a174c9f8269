-- ===== src/NodeChildren/Infos.antt =====
-- The text infos that src/tree/node_children.rs adds up.
use ropey.Common.{
  ℕ, ◌<◌, ◌≡◌, refl, sym, ◌∙◌, false, List, [], ◌∷◌, ◌++◌, arith, length, append_assoc,
  length-append, append-nil,
}
use ropey.Str.{IsStr}
use ropey.Str.Utf8.{append-IsStr, nil-continues}
use ropey.Crates.Measures.Laws.{cuts_crlf, ends_cr-append}
use ropey.TextInfo
use ropey.TextInfo.{TextInfo, add}
use ropey.TextInfo.Laws.{
  IsCount, measure, measure-IsCount, measure-append, add-IsCount, add_assoc, add_comm, add-new,
}
use ropey.Tree.{Node, Child, NodeChildren}
use ropey.Tree.Content.{text, children_text, Fits}
use ropey.NodeChildren.{sum_infos, combined_info}
use ropey.Crates.Measures.{count_breaks}

pub new-IsCount : IsCount TextInfo.new
new-IsCount = omega arith

pub new-add : (x : TextInfo) → IsCount x → add TextInfo.new x ≡ x
new-add x h = add_comm TextInfo.new x ∙ add-new x h

pub children_text-append :
    (xs ys : NodeChildren) → children_text (xs ++ ys) ≡ children_text xs ++ children_text ys
children_text-append [] ys = refl
children_text-append ((i, n) ∷ xs) ys =
    rw (children_text-append xs ys)
      (sym (append_assoc (text n) (children_text xs) (children_text ys)))

pub cuts_crlf-prefix : (t xs ys : List ℕ) → cuts_crlf t (xs ++ ys) ≡ false → cuts_crlf t xs ≡ false
cuts_crlf-prefix t [] ys h = ground arith
cuts_crlf-prefix t (x ∷ xs) ys h = h

module _ (P : Node → Type 0) (holds_str : (n : Node) → P n → IsStr (text n)) where
  pub children-IsStr : (cs : NodeChildren) → Fits P cs → IsStr (children_text cs)
  children-IsStr [] h = nil-continues
  children-IsStr ((i, n) ∷ cs) h =
      append-IsStr (text n) (children_text cs) (holds_str n h.0) (children-IsStr cs h.4)

  pub sum_infos_lem :
      (acc : TextInfo) (cs : NodeChildren)
      → IsCount acc
      → Fits P cs
      → sum_infos acc cs ≡ add acc (measure (children_text cs))
  unfolding sum_infos count_breaks
  sum_infos_lem acc [] k h = sym (add-new acc k)
  sum_infos_lem acc ((i, n) ∷ cs) k h = rw (
    sum_infos_lem (add acc i) cs (add-IsCount acc i) h.4,
    measure-append (text n) (children_text cs) (holds_str n h.0) h.3,
    add_assoc,
    h.2,
  )

  -- For children with accurate text infos, `combined_info` is the measure of their whole text.
  pub combined_info_lem :
      (cs : NodeChildren) → Fits P cs → combined_info cs ≡ measure (children_text cs)
  unfolding combined_info
  combined_info_lem cs h =
      sum_infos_lem TextInfo.new cs new-IsCount h
      ∙ new-add (measure (children_text cs)) (measure-IsCount (children_text cs))

  pub Fits-suffix : (xs ys : NodeChildren) → Fits P (xs ++ ys) → Fits P ys
  Fits-suffix [] ys h = h
  Fits-suffix ((i, n) ∷ xs) ys h = Fits-suffix xs ys h.4

  pub Fits-prefix : (xs ys : NodeChildren) → Fits P (xs ++ ys) → Fits P xs
  Fits-prefix [] ys h = tt
  Fits-prefix ((i, n) ∷ xs) ys h = (
    h.0,
    h.1,
    h.2,
    cuts_crlf-prefix (text n) (children_text xs) (children_text ys)
        (rw children_text-append at h.3),
    Fits-prefix xs ys h.4,
  )

  -- No CRLF pair is cut before a child.
  pub seam_before :
      (before after : NodeChildren) (c : Child)
      → Fits P (before ++ c ∷ after)
      → cuts_crlf (children_text before) (text c.1) ≡ false
  seam_before [] after c h = refl
  seam_before ((i, n) ∷ []) after c h =
      rw append-nil (cuts_crlf-prefix (text n) (text c.1) (children_text after) h.3)
  seam_before ((i, n) ∷ (b ∷ before)) after c h =
      let some_text : 0 < length (children_text (b ∷ before)) =
        omega (arith, length-append (text b.1) (children_text before), h.4.1) in
      rw (ends_cr-append (text n) (children_text (b ∷ before)) some_text)
        (seam_before (b ∷ before) after c h.4)
