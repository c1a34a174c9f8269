-- ===== src/Node/Append/Joined.antt =====
-- What `append_at_depth` and `prepend_at_depth` (src/tree/node.rs) leave: a balanced tree, or two
-- neighbours.
use ropey.Common.{
  ℕ, suc, ◌+◌, ◌*◌, ◌≤◌, ◌<◌, ◌≡◌, sym, ◌∙◌, ap, ap₂, false, Option, none, some, List, [], ◌∷◌,
  ◌++◌, arith, length, length-append, append-nil,
}
use ropey.Crates.{Crates, IsDocumented}
use ropey.Crates.Measures.Laws.{cuts_crlf, ends_cr}
use ropey.Crates.Measures.Seams.{and_false}
use ropey.Tree.{Limits, Node, internal, NodeChildren, pack}
use ropey.Tree.Content.{text, children_text, Fits, IsTree}
use ropey.NodeChildren.Halves.{AreEven}
use ropey.NodeChildren.Infos.{children_text-append, Fits-prefix, Fits-suffix}
use ropey.Node.{text_info}
use ropey.Node.Info.{IsTree-IsStr, text_info-measure, Fits-seam, Fits-some_text}
use ropey.Node.Merge.Merged.{packed_text, packed-IsTree}

-- The text, and the children, of the node that did not fit.
abbrev pub text_of : Option Node → List ℕ
text_of none = []
text_of (some n) = text n

abbrev pub extra : ⦃crates : Crates⦄ → Option Node → NodeChildren
extra none = []
extra (some n) = (text_info n, n) ∷ []

abbrev pub IsRight : ⦃lim : Limits⦄ → ℕ → Option Node → Type 0
IsRight d none = Unit
IsRight d (some n) = IsTree d n × (0 < length (text n))

-- One or two balanced trees side by side, that are not empty, hold the text `whole`, and do not cut
-- a CRLF pair.
pub record IsJoined ⦃lim : Limits⦄ (d : ℕ) (whole : List ℕ) (left : Node) (right : Option Node)
    : Type 0 where
  pub joins : text left ++ text_of right ≡ whole
  pub tree : IsTree d left
  pub not_empty : 0 < length (text left)
  pub right_tree : IsRight d right
  pub meets : cuts_crlf (text left) (text_of right) ≡ false

module _ ⦃lim : Limits⦄ where
  pub IsJoined-one :
      (d : ℕ) (cs : NodeChildren)
      → Fits (IsTree d) cs
      → 0 < length cs
      → length cs ≤ lim.max_children
      → IsJoined (suc d) (children_text cs) (internal (pack cs)) none
  IsJoined-one d cs fits pos room = record {
    joins = append-nil (text (internal (pack cs))) ∙ packed_text cs;
    tree = packed-IsTree d cs pos room fits;
    not_empty = rw (packed_text cs) (Fits-some_text d cs fits pos);
    right_tree = tt;
    meets = and_false (ends_cr (text (internal (pack cs))));
  }

  pub IsJoined-two :
      (d : ℕ) (cs a b : NodeChildren)
      → Fits (IsTree d) cs
      → AreEven cs a b
      → 2 ≤ length cs
      → length cs ≤ 2 * lim.max_children
      → IsJoined (suc d) (children_text cs) (internal (pack a)) (some (internal (pack b)))
  IsJoined-two d cs a b fits even two room =
      let both : Fits (IsTree d) (a ++ b) = rw even.joins fits in
      let fa = Fits-prefix (IsTree d) (IsTree-IsStr d) a b both in
      let fb = Fits-suffix (IsTree d) (IsTree-IsStr d) a b both in
      let total : length a + length b ≡ length cs =
        omega (arith, ap length even.joins, length-append a b) in
      let la : 0 < length a = omega (arith, total, even.right_len, two) in
      let lb : 0 < length b = omega (arith, total, even.right_len, two) in
      record {
        joins =
            ap₂ (λ t u. t ++ u) (packed_text a) (packed_text b)
            ∙ (sym (children_text-append a b) ∙ ap children_text even.joins);
        tree = packed-IsTree d a la (omega (arith, total, even.right_len, room)) fa;
        not_empty = rw (packed_text a) (Fits-some_text d a fa la);
        right_tree = (
          packed-IsTree d b lb (omega (arith, total, even.right_len, room)) fb,
          rw (packed_text b) (Fits-some_text d b fb lb),
        );
        meets = rw (packed_text a, packed_text b) (Fits-seam d a b both);
      }

  -- The nodes as children.
  pub joined-Fits :
      ⦃crates : Crates⦄ (docs : IsDocumented crates) (d : ℕ) (whole : List ℕ) (left : Node)
      (right : Option Node)
      → IsJoined d whole left right
      → Fits (IsTree d) ((text_info left, left) ∷ extra right)
        × (children_text ((text_info left, left) ∷ extra right) ≡ whole)
  joined-Fits docs d whole left none x = (
    (
      x.tree,
      x.not_empty,
      text_info-measure docs d left x.tree,
      and_false (ends_cr (text left)),
      tt,
    ),
    x.joins,
  )
  joined-Fits docs d whole left (some r) x = (
    (
      x.tree,
      x.not_empty,
      text_info-measure docs d left x.tree,
      rw append-nil x.meets,
      (
        x.right_tree.0,
        x.right_tree.1,
        text_info-measure docs d r x.right_tree.0,
        and_false (ends_cr (text r)),
        tt,
      ),
    ),
    ap (λ t. text left ++ t) (append-nil (text r)) ∙ x.joins,
  )
