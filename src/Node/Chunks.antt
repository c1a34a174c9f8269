-- ===== src/Node/Chunks.antt =====
-- The queries `get_chunk_at_byte` and `get_chunk_at_char` of src/tree/node.rs, which walk down to
-- the chunk of a position.
use ropey.Common.{
  ℕ, zero, suc, ◌+◌, ◌-◌, ◌%◌, ◌≤◌, ◌<◌, ◌≡◌, refl, sym, ◌∙◌, ap, ◌⊎◌, inl, inr, Option, some, List,
  [], ◌∷◌, ◌++◌, arith, length, length-append, get_elem?, get_elem?-append_middle, append-nil,
  append_assoc, false, ap₂, subst,
}
use ropey.Str.{IsStr}
use ropey.Str.Utf8.{nil-continues, append-IsStr}
use ropey.Crates.Measures.{count_chars}
use ropey.Crates.Measures.Laws.{cuts_crlf, tally-append, tally-le-length}
use ropey.TextInfo
use ropey.TextInfo.{TextInfo, word, add}
use ropey.TextInfo.Laws.{
  IsCount, measure, measure-IsCount, measure-append, add-IsCount, add-new, add_assoc, measure-nil,
  wrapping_sub-exact,
}
use ropey.Tree.{Limits, Node, leaf, internal, Child, NodeChildren, unpack}
use ropey.Tree.Content.{text, children_text, Fits, IsTree}
use ropey.NodeChildren.{search_byte_idx, search_char_idx}
use ropey.NodeChildren.Infos.{
  children_text-append, seam_before, cuts_crlf-prefix, children-IsStr, Fits-prefix, Fits-suffix,
  new-IsCount, new-add,
}
use ropey.NodeChildren.Located.{Holds, search_byte_idx_lem, search_char_idx_lem}
use ropey.Node.{descend, get_chunk_at_byte, get_chunk_at_char, wrapping_sub}
use ropey.Node.Info.{entries_text-unpack, IsTree-IsStr}

-- The chunk of the text `t` that holds the position `i`, which counts `size`, with the measure of
-- the text before it; at its end the position is only in the last chunk.
pub record ChunkAt (size : List ℕ → ℕ) (t : List ℕ) (i : ℕ) (chunk : List ℕ) (offset : TextInfo)
    : Type 0 where
  pub before : List ℕ
  pub after : List ℕ
  pub joins : before ++ (chunk ++ after) ≡ t
  pub start : offset ≡ measure before
  pub before_str : IsStr before
  pub chunk_str : IsStr chunk
  pub after_str : IsStr after
  pub not_before : size before ≤ i
  pub not_behind : i ≤ size before + size chunk
  pub at_end_only : (after ≡ []) ⊎ (i < size before + size chunk)

from_new :
    (size : List ℕ → ℕ) (t : List ℕ) (i : ℕ) (r : Option (List ℕ × TextInfo))
    → ((chunk : List ℕ) × (offset : TextInfo) × (r ≡ some (chunk, add TextInfo.new offset))
        × ChunkAt size t i chunk offset)
    → (chunk : List ℕ) × (offset : TextInfo) × (r ≡ some (chunk, offset))
      × ChunkAt size t i chunk offset
from_new size t i r (chunk, offset, e, at) =
    let count : IsCount offset = rw at.start (measure-IsCount at.before) in
    (chunk, offset, e ∙ ap (λ x. some (chunk, x)) (new-add offset count), at)

module _ ⦃lim : Limits⦄ (search : NodeChildren → ℕ → Option (ℕ × TextInfo)) (field : TextInfo → ℕ)
    (size : List ℕ → ℕ) (field-measure : (t : List ℕ) → field (measure t) ≡ size t % word)
    (size-append : (xs ys : List ℕ) → size (xs ++ ys) ≡ size xs + size ys)
    (size-le-length : (xs : List ℕ) → size xs ≤ length xs)
    (search_lem : (d : ℕ) (cs : NodeChildren) (i : ℕ)
      → 0 < length cs
      → Fits (IsTree d) cs
      → length (children_text cs) < word
      → i ≤ size (children_text cs)
      → (idx : ℕ) × (accum : TextInfo) × (search cs i ≡ some (idx, accum))
        × Holds size cs i idx accum) where
  module _ (d : ℕ) (before after : NodeChildren) (c : Child)
      (h : Fits (IsTree d) (before ++ c ∷ after)) (i : ℕ) (chunk : List ℕ) (accum offset : TextInfo)
      (total : accum ≡ measure (children_text before)) (low : size (children_text before) ≤ i)
      (end : (after ≡ []) ⊎ (i < size (children_text before) + size (text c.1)))
      (below : ChunkAt size (text c.1) (i - size (children_text before)) chunk offset) where
    before_child-IsStr : IsStr (children_text before)
    before_child-IsStr =
        children-IsStr (IsTree d) (IsTree-IsStr d) before
          (Fits-prefix (IsTree d) (IsTree-IsStr d) before (c ∷ after) h)

    after_child-IsStr : IsStr (children_text after)
    after_child-IsStr =
        children-IsStr (IsTree d) (IsTree-IsStr d) after
          (Fits-suffix (IsTree d) (IsTree-IsStr d) before (c ∷ after) h).4

    offset-add : add accum offset ≡ measure (children_text before ++ below.before)
    offset-add =
        let seam : cuts_crlf (children_text before) below.before ≡ false =
          cuts_crlf-prefix (children_text before) below.before (chunk ++ below.after)
            (rw below.joins (seam_before (IsTree d) (IsTree-IsStr d) before after c h)) in
        rw (total, below.start)
          (sym (measure-append (children_text before) below.before before_child-IsStr seam))

    size-child : size (text c.1) ≡ size below.before + size chunk + size below.after
    size-child = rw (← below.joins, size-append, size-append) (omega arith)

    end_of_all :
        (after ≡ []) ⊎ (i < size (children_text before) + size (text c.1))
        → (below.after ≡ []) ⊎ (i - size (children_text before) < size below.before + size chunk)
        → ((below.after ++ children_text after) ≡ [])
          ⊎ (i < size (children_text before ++ below.before) + size chunk)
    end_of_all (inl none_after) (inl none_below) =
        inl (ap₂ (λ x y. x ++ children_text y) none_below none_after)
    end_of_all (inr inside) (inl none_below) = inr (
        omega (
          arith,
          size-child,
          ap size none_below,
          size-append [] [],
          size-append (children_text before) below.before,
        ))
    end_of_all _ (inr inside) =
        inr (omega (arith, low, size-append (children_text before) below.before))

    ChunkAt-child : ChunkAt size (children_text (before ++ c ∷ after)) i chunk (add accum offset)
    ChunkAt-child = record {
      before = children_text before ++ below.before;
      after = below.after ++ children_text after;
      joins = rw (children_text-append before (c ∷ after), ← below.joins) (simp append_assoc);
      start = offset-add;
      before_str = append-IsStr _ _ before_child-IsStr below.before_str;
      chunk_str = below.chunk_str;
      after_str = append-IsStr _ _ below.after_str after_child-IsStr;
      not_before = omega (arith, size-append (children_text before) below.before, below.not_before);
      not_behind = omega (arith, size-append (children_text before) below.before, below.not_behind);
      at_end_only = end_of_all end below.at_end_only;
    }

  descend_lem :
      (d fuel : ℕ) (n : Node) (i : ℕ) (info : TextInfo)
      → IsTree d n
      → d < fuel
      → length (text n) < word
      → i ≤ size (text n)
      → IsCount info
      → (chunk : List ℕ) × (offset : TextInfo) × (descend search field fuel n i info
          ≡ some (chunk, add info offset))
        × ChunkAt size (text n) i chunk offset
  unfolding descend
  descend_lem d zero n i info h f small le k = absurd (omega arith)
  descend_lem zero (suc fuel) (internal es) i info h f small le k = absurd h
  descend_lem (suc d) (suc fuel) (leaf t) i info h f small le k = absurd h
  descend_lem zero (suc fuel) (leaf t) i info h f small le k = (
    t,
    TextInfo.new,
    rw (add-new info k),
    record {
      before = [];
      after = [];
      joins = append-nil t;
      start = sym measure-nil;
      before_str = nil-continues;
      chunk_str = h;
      after_str = nil-continues;
      not_before = omega (arith, size-append [] []);
      not_behind = omega arith;
      at_end_only = inl refl;
    },
  )
  descend_lem (suc d) (suc fuel) (internal es) i info h f small le k =
      let cs = unpack es in
      let (idx, accum, e, hd) =
        search_lem d cs i h.0 h.2 (rw entries_text-unpack at small)
          (rw entries_text-unpack at le) in
      let h' : Fits (IsTree d) (hd.before ++ hd.child ∷ hd.after) = rw hd.parts h.2 in
      let at : get_elem? cs idx ≡ some hd.child =
        ap₂ get_elem? (sym hd.parts) hd.index
        ∙ get_elem?-append_middle hd.before (hd.child ∷ hd.after) in
      let whole : text (internal es) ≡ children_text (hd.before ++ hd.child ∷ hd.after) =
        entries_text-unpack es ∙ ap children_text (sym hd.parts) in
      let parts = whole ∙ children_text-append hd.before (hd.child ∷ hd.after) in
      let len : length (text (internal es))
          ≡ length (children_text hd.before)
            + (length (text hd.child.1) + length (children_text hd.after)) =
        ap length parts
        ∙ omega (
          arith,
          length-append (children_text hd.before) (text hd.child.1 ++ children_text hd.after),
          length-append (text hd.child.1) (children_text hd.after),
        ) in
      let here : field accum ≡ size (children_text hd.before) =
        ap field hd.total
        ∙ omega (
          arith,
          field-measure (children_text hd.before),
          size-le-length (children_text hd.before),
        ) in
      let tree = (Fits-suffix (IsTree d) (IsTree-IsStr d) hd.before (hd.child ∷ hd.after) h').0 in
      let (chunk, offset, e', below) =
        descend_lem d fuel hd.child.1 (i - field accum) (add info accum) tree (omega arith)
          (omega arith) (omega (arith, hd.not_behind)) (add-IsCount info accum) in
      let same : wrapping_sub i (field accum) ≡ i - field accum =
        wrapping_sub-exact (field accum) i (rw (← here) at hd.not_before)
          (omega (arith, size-le-length (text (internal es)))) in
      let all =
        ChunkAt-child d hd.before hd.after hd.child h' i chunk accum offset hd.total hd.not_before
          hd.at_end_only
          (subst (λ t. ChunkAt size (text hd.child.1) (i - t) chunk offset) here below) in
      (
        chunk,
        add accum offset,
        rw (e, at, same) (e' ∙ ap (λ t. some (chunk, t)) (add_assoc info accum offset)),
        subst (λ t. ChunkAt size t i chunk (add accum offset)) (sym whole) all,
      )

module _ ⦃lim : Limits⦄ where
  -- In a balanced tree that holds less than 2^64 bytes, with fuel for its levels,
  -- `get_chunk_at_byte` returns the chunk that holds the byte index, and the measure of the text
  -- before that chunk. A byte index at the end is in the last chunk.
  pub get_chunk_at_byte_lem :
      (d fuel : ℕ) (n : Node) (i : ℕ)
      → IsTree d n
      → d < fuel
      → length (text n) < word
      → i ≤ length (text n)
      → (chunk : List ℕ) × (offset : TextInfo) × (get_chunk_at_byte fuel n i ≡ some (chunk, offset))
        × ChunkAt length (text n) i chunk offset
  unfolding get_chunk_at_byte
  get_chunk_at_byte_lem d fuel n i h f small le = from_new _ _ _ _ (
      descend_lem search_byte_idx (λ x. x.bytes) length (λ t. refl) length-append
        (λ xs. omega arith) (λ d. search_byte_idx_lem (IsTree d) (IsTree-IsStr d)) d fuel n i
        TextInfo.new h f small le new-IsCount)

  -- In a balanced tree that holds less than 2^64 bytes, with fuel for its levels,
  -- `get_chunk_at_char` returns the chunk that holds the char index, and the measure of the text
  -- before that chunk. A char index at the end is in the last chunk.
  pub get_chunk_at_char_lem :
      (d fuel : ℕ) (n : Node) (i : ℕ)
      → IsTree d n
      → d < fuel
      → length (text n) < word
      → i ≤ count_chars (text n)
      → (chunk : List ℕ) × (offset : TextInfo) × (get_chunk_at_char fuel n i ≡ some (chunk, offset))
        × ChunkAt count_chars (text n) i chunk offset
  unfolding get_chunk_at_char
  get_chunk_at_char_lem d fuel n i h f small le = from_new _ _ _ _ (
      descend_lem search_char_idx (λ x. x.chars) count_chars (λ t. refl) (tally-append _)
        (tally-le-length _) (λ d. search_char_idx_lem (IsTree d) (IsTree-IsStr d)) d fuel n i
        TextInfo.new h f small le new-IsCount)
