-- ===== src/Node/Info.antt =====
-- The text of a tree as a string, and its text info.
use ropey.Common.{
  ℕ, zero, suc, ◌≡◌, refl, ap, ◌++◌, ◌<◌, ◌∷◌, [], arith, length, length-append, false, ◌∙◌,
}
use ropey.Crates.{Crates, IsDocumented}
use ropey.Str.{IsStr}
use ropey.TextInfo.Laws.{measure, from_str-measure}
use ropey.Tree.{Limits, Node, leaf, internal, Entries, nil, cons, unpack, NodeChildren}
use ropey.Tree.Content.{text, entries_text, children_text, IsTree, Fits}
use ropey.NodeChildren.Infos.{children-IsStr, combined_info_lem, Fits-suffix, seam_before}
use ropey.Node.{text_info}
use ropey.Crates.Measures.Laws.{cuts_crlf, ends_cr}
use ropey.Crates.Measures.Seams.{cuts_crlf-front, and_false}

pub entries_text-unpack : (es : Entries) → entries_text es ≡ children_text (unpack es)
entries_text-unpack nil = refl
entries_text-unpack (cons i n es) = ap (λ t. text n ++ t) (entries_text-unpack es)

module _ ⦃lim : Limits⦄ where
  pub IsTree-IsStr : (d : ℕ) (n : Node) → IsTree d n → IsStr (text n)
  IsTree-IsStr zero (leaf t) h = h
  IsTree-IsStr zero (internal es) h = absurd h
  IsTree-IsStr (suc d) (leaf t) h = absurd h
  IsTree-IsStr (suc d) (internal es) h =
      rw entries_text-unpack (children-IsStr (IsTree d) (IsTree-IsStr d) (unpack es) h.2)

  -- The text info of a balanced tree is the measure of its text.
  pub text_info-measure :
      ⦃crates : Crates⦄ (docs : IsDocumented crates) (d : ℕ) (n : Node)
      → IsTree d n
      → text_info n ≡ measure (text n)
  unfolding text_info
  text_info-measure docs zero (leaf t) h = from_str-measure docs t h
  text_info-measure docs zero (internal es) h = absurd h
  text_info-measure docs (suc d) (leaf t) h = absurd h
  text_info-measure docs (suc d) (internal es) h =
      rw entries_text-unpack (combined_info_lem (IsTree d) (IsTree-IsStr d) (unpack es) h.2)

pub Fits-some_text :
    ⦃lim : Limits⦄ (d : ℕ) (cs : NodeChildren)
    → Fits (IsTree d) cs
    → 0 < length cs
    → 0 < length (children_text cs)
Fits-some_text d [] h pos = absurd (omega arith)
Fits-some_text d ((i, n) ∷ cs) h pos = omega (arith, h.1, length-append (text n) (children_text cs))

pub Fits-seam :
    ⦃lim : Limits⦄ (d : ℕ) (xs ys : NodeChildren)
    → Fits (IsTree d) (xs ++ ys)
    → cuts_crlf (children_text xs) (children_text ys) ≡ false
Fits-seam d xs [] h = and_false (ends_cr (children_text xs))
Fits-seam d xs ((i, n) ∷ ys) h =
    cuts_crlf-front (children_text xs) (text n) (children_text ys)
      (Fits-suffix (IsTree d) (IsTree-IsStr d) xs ((i, n) ∷ ys) h).1
    ∙ seam_before (IsTree d) (IsTree-IsStr d) xs ys (i, n) h
