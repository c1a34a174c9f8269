-- ===== src/Node/Edit/Opened.antt =====
-- The first half of the step of `edit_chunk_at_char` of src/tree/node.rs at an internal node: the
-- compaction and the search of the child.
use ropey.Common.{
  ℕ, suc, ◌+◌, ◌≤◌, ◌<◌, ◌≡◌, sym, ◌∙◌, ap, ap₂, ◌⊎◌, some, [], ◌∷◌, ◌++◌, arith, length,
  length-append, ◌>>=◌, not, subst,
}
use ropey.Crlf.{is_continuation}
use ropey.Crates.{Crates, IsDocumented}
use ropey.Crates.Measures.{count_chars}
use ropey.Crates.Measures.Laws.{tally-le-length}
use ropey.TextInfo.{word}
use ropey.Tree.{Limits, internal, Child, NodeChildren, unpack, Entries}
use ropey.Tree.Content.{text, children_text, Fits, IsTree}
use ropey.NodeChildren.Infos.{children_text-append}
use ropey.NodeChildren.Located.{search_char_idx_lem}
use ropey.Node.Info.{entries_text-unpack, IsTree-IsStr}
use ropey.Node.Edit.{compact_fragments, search_char_idx_only}
use ropey.Node.Edit.Search.{search_char_idx_only_lem, chars_only}
use ropey.Node.Edit.Compacting.{compact_fragments_lem}

-- The compacted children, with the one that holds the char `i`.
pub record Opens ⦃lim : Limits⦄ ⦃crates : Crates⦄ (d : ℕ) (es : Entries) (i : ℕ) : Type 0 where
  pub before : NodeChildren
  pub child : Child
  pub after : NodeChildren
  pub compacted : compact_fragments (unpack es) ≡ some (before ++ child ∷ after)
  pub found :
      search_char_idx_only (before ++ child ∷ after) i
      ≡ some (length before, count_chars (children_text before))
  pub fits : Fits (IsTree d) (before ++ child ∷ after)
  pub room : length (before ++ child ∷ after) ≤ lim.max_children
  pub same_text : children_text (before ++ child ∷ after) ≡ text (internal es)
  pub not_before : count_chars (children_text before) ≤ i
  pub not_behind : i ≤ count_chars (children_text before) + count_chars (text child.1)
  pub at_end_only :
      (after ≡ []) ⊎ (i < count_chars (children_text before) + count_chars (text child.1))

pub open_lem :
    ⦃lim : Limits⦄ ⦃crates : Crates⦄ (docs : IsDocumented crates) (d : ℕ) (es : Entries) (i : ℕ)
    → IsTree (suc d) (internal es)
    → length (text (internal es)) < word
    → i ≤ count_chars (text (internal es))
    → Opens d es i
open_lem ⦃lim = lim⦄ docs d es i h small le =
    let (cs, e, compacted) = compact_fragments_lem docs d (unpack es) h.2 h.0 h.1 in
    let (same, fits, pos, room) = compacted in
    let whole : children_text cs ≡ text (internal es) = same ∙ sym (entries_text-unpack es) in
    let (idx, accum, e', hd) =
      search_char_idx_lem (IsTree d) (IsTree-IsStr d) cs i pos fits (rw (sym whole) at small)
        (rw (sym whole) at le) in
    let bound : length (children_text hd.before) < word = omega (
      arith,
      small,
      ap length whole,
      ap (λ xs. length (children_text xs)) hd.parts,
      ap length (children_text-append hd.before (hd.child ∷ hd.after)),
      length-append (children_text hd.before) (children_text (hd.child ∷ hd.after)),
    ) in
    let acc : accum.chars ≡ count_chars (children_text hd.before) =
      ap (λ x. x.chars) hd.total
      ∙ omega (
        arith,
        bound,
        tally-le-length (λ b. not (is_continuation b)) (children_text hd.before),
      ) in
    record {
      before = hd.before;
      child = hd.child;
      after = hd.after;
      compacted = e ∙ ap some (sym hd.parts);
      found =
          ap (λ xs. search_char_idx_only xs i) hd.parts
          ∙ (search_char_idx_only_lem cs i
              ∙ (ap (λ o. o >>= λ found. some (chars_only found)) e'
                  ∙ ap₂ (λ a b. some (a, b)) hd.index acc));
      fits = subst (Fits (IsTree d)) (sym hd.parts) fits;
      room = subst (λ xs. length xs ≤ lim.max_children) (sym hd.parts) room;
      same_text = ap children_text hd.parts ∙ whole;
      not_before = hd.not_before;
      not_behind = hd.not_behind;
      at_end_only = hd.at_end_only;
    }
