-- ===== src/Rope/Insert/Whole.antt =====
-- `insert_internal` of src/rope.rs as a whole, for a text that does not begin with an LF or goes to
-- the start of the rope, which the second edit is not made for.
use ropey.Common.{
  ℕ, suc, ◌+◌, ◌≤◌, ◌<◌, ◌≡◌, refl, ◌∙◌, ap, ◌⊎◌, inl, false, some, List, [], ◌++◌, arith, length,
  append-nil, take, drop, subst,
}
use ropey.Crlf.{lf}
use ropey.Str.{IsStr}
use ropey.Str.Cut.{IsCut-at}
use ropey.Str.Utf8.{nil-continues}
use ropey.Crates.{Crates, IsDocumented}
use ropey.Crates.Measures.{byte_is, count_chars}
use ropey.Crates.Measures.Laws.{ends_cr}
use ropey.Crates.Measures.Seams.{and_false}
use ropey.TextInfo.{word}
use ropey.Tree.{Limits, Node}
use ropey.Tree.Content.{text, IsTree}
use ropey.Node.Info.{text_info-measure}
use ropey.Node.Edit.Whole.{edit_lem}
use ropey.Rope.{Rope}
use ropey.Rope.Starts.{StartsAt, StartsAt-chunk}
use ropey.Rope.Insert.{insert_text, insert_internal}
use ropey.Rope.Insert.Handled.{Inserts, some_or_none, inserted_parts, grow_root_lem, insert-Handles}

module _ ⦃lim : Limits⦄ ⦃crates : Crates⦄ (docs : IsDocumented crates) where
  -- In a balanced tree with less than 2^64 bytes, with fuel for its levels and room for two
  -- children in a node, the insertion, at a char index up to the number of chars, of a text that is
  -- not empty, and that does not begin with an LF or goes to the index 0, does not panic. It leaves
  -- a balanced tree, of the same depth or one level deeper, with the text inserted in front of the
  -- byte where the char starts.
  pub insert_internal_lem :
      (d fuel : ℕ) (self : Rope) (i : ℕ) (ins : List ℕ)
      → IsTree d self.root
      → d < fuel
      → length (text self.root) < word
      → 2 ≤ lim.max_children
      → i ≤ count_chars (text self.root)
      → IsStr ins
      → 0 < length ins
      → (byte_is ins 0 lf ≡ false) ⊎ (i ≡ 0)
      → (root : Node) × (b : ℕ) × (insert_internal fuel self i ins ≡ some (record { root = root }))
        × StartsAt (text self.root) i b
        × (text root ≡ take b (text self.root) ++ (ins ++ drop b (text self.root)))
        × (IsTree d root ⊎ IsTree (suc d) root)
  unfolding insert_internal
  insert_internal_lem d fuel self i ins h enough small room le hi pos first =
      let t = text self.root in
      let r =
        edit_lem (insert_text i ins) docs (Inserts ins i) t i small
          (λ before chunk after idx joins bh th ah left right place in_chunk end some_text.
            insert-Handles docs t ins i before chunk after idx hi pos first joins bh th ah left
              right place in_chunk end some_text)
          d fuel self.root [] [] i h enough (append-nil t) nil-continues nil-continues refl
          (and_false (ends_cr t)) (omega arith) le (inl refl) (some_or_none t) in
      let (root, e, same, tree) = grow_root_lem d _ r.node r.info r.residual room r.edited in
      let b = length r.front + r.claim.at in
      let exact = text_info-measure docs d self.root h in
      let cut = IsCut-at r.chunk r.claim.at r.claim.chunk_str r.claim.boundary in
      (
        root,
        b,
        rw (exact, r.returns, e, r.claim.no_seam) refl,
        subst (λ u. StartsAt u i b)
            (ap (λ u. r.front ++ (r.chunk ++ u)) (append-nil r.back) ∙ r.parts)
            (subst (λ n. StartsAt (r.front ++ (r.chunk ++ (r.back ++ []))) n b) r.claim.place
              (StartsAt-chunk r.front r.chunk (r.back ++ []) r.claim.at r.claim.chunk_str
                r.claim.after_str r.claim.boundary)),
        same
            ∙ (ap (λ w. r.front ++ (w ++ r.back)) r.claim.new_text
                ∙ inserted_parts t r.front (take r.claim.at r.chunk) (drop r.claim.at r.chunk)
                    r.back ins b (ap (λ c. r.front ++ (c ++ r.back)) cut.joins ∙ r.parts)
                    (ap (λ n. length r.front + n) cut.left_len)),
        tree,
      )
