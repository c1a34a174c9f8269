-- ===== src/Rope/Append/Roots.antt =====
-- The steps of `append` of src/rope.rs: the depths, the join of the roots, and the test of the first
-- char.
use ropey.Common.{
  ℕ, zero, suc, ◌+◌, ◌*◌, ◌-◌, ◌≤◌, ◌<◌, ◌≡◌, refl, sym, ◌∙◌, ap, ◌⊎◌, inl, inr, false, Option,
  none, some, List, [], ◌∷◌, ◌++◌, arith, ltb, ◌==◌, length, length-append, append-nil, subst,
  Bool-cases, get_elem?, ◌>>=◌, take, not,
}
use ropey.Crlf.{lf, is_continuation}
use ropey.Crates.{Crates, IsDocumented}
use ropey.Crates.Measures.{count_chars, byte_is}
use ropey.Crates.Measures.Laws.{cuts_crlf, tally-le-length}
use ropey.TextInfo.{word, wrapping_sub}
use ropey.Tree.{Limits, Node, leaf, internal, pack, nil, cons}
use ropey.Tree.Content.{text, IsTree}
use ropey.NodeChildren.Arrays.{push_lem}
use ropey.Node.{text_info, depth}
use ropey.Node.Merge.Merged.{packed_text, packed-IsTree}
use ropey.Node.Append.Joined.{IsJoined, joined-Fits}
use ropey.Node.Append.AtEnd.{above_difference, append_at_depth_lem}
use ropey.Node.Append.AtStart.{IsPrepended, prepend_at_depth_lem}
use ropey.Rope.{Rope}
use ropey.Rope.Positions.{chunk_at_char_lem}
use ropey.Rope.Insert.Handled.{no_chars}
use ropey.Rope.Append.{root_of_two, with_right, with_left, join_roots, begins_with_lf}
use ropey.Str.Cut.{IsCut-at}

first_byte_of :
    (t u : List ℕ)
    → 0 < length t
    → (get_elem? t 0 >>= λ b. some (b == lf)) ≡ some (byte_is (t ++ u) 0 lf)
first_byte_of [] u h = absurd (omega arith)
first_byte_of (b ∷ t) u h = refl

depth_lem : ⦃lim : Limits⦄ (fuel d : ℕ) (n : Node) → IsTree d n → d < fuel → depth fuel n ≡ some d
unfolding depth
depth_lem zero d n h enough = absurd (omega arith)
depth_lem (suc fuel) zero (leaf t) h enough = refl
depth_lem (suc fuel) zero (internal es) h enough = absurd h
depth_lem (suc fuel) (suc d) (leaf t) h enough = absurd h
depth_lem (suc fuel) (suc d) (internal nil) h enough = absurd (omega (arith, h.0))
depth_lem (suc fuel) (suc d) (internal (cons i n es)) h enough =
    let one_more : d + 1 ≡ suc d = omega arith in
    rw (depth_lem fuel d n h.2.0 (omega arith)) (ap some one_more)

-- A balanced tree with the text, at most one level deeper than one of the two depths.
pub record IsRoot ⦃lim : Limits⦄ (d e : ℕ) (whole : List ℕ) (root : Node) : Type 0 where
  pub level : ℕ
  pub tree : IsTree level root
  pub same_text : text root ≡ whole
  pub not_deeper : (level ≤ d + 1) ⊎ (level ≤ e + 1)

module _ ⦃lim : Limits⦄ ⦃crates : Crates⦄ (docs : IsDocumented crates) (room : 2 ≤ lim.max_children)
    (d : ℕ) (whole : List ℕ) where
  root_of_two_lem :
      (l r : Node)
      → IsJoined d whole l (some r)
      → (root : Node) × (root_of_two l r ≡ some root) × IsTree (suc d) root × (text root ≡ whole)
  unfolding root_of_two
  root_of_two_lem l r x =
      let (fits, same) = joined-Fits docs d whole l (some r) x in
      let cs = (text_info l, l) ∷ ((text_info r, r) ∷ []) in
      (
        internal (pack cs),
        rw
            (
              push_lem [] (text_info l, l) (omega (arith, room)),
              push_lem ((text_info l, l) ∷ []) (text_info r, r) (omega (arith, room)),
            )
            refl,
        packed-IsTree d cs (omega arith) (omega (arith, room)) fits,
        packed_text cs ∙ same,
      )

  with_right_lem :
      (e : ℕ) (node : Node) (right : Option Node)
      → IsJoined d whole node right
      → (root : Node) × (with_right node right ≡ some root) × IsRoot d e whole root
  with_right_lem e node none x = (
    node,
    refl,
    record {
      level = d;
      tree = x.tree;
      same_text = sym (append-nil (text node)) ∙ x.joins;
      not_deeper = inl (omega arith);
    },
  )
  with_right_lem e node (some r) x =
      let (root, q, tree, same) = root_of_two_lem node r x in
      (
        root,
        q,
        record { level = suc d; tree = tree; same_text = same; not_deeper = inl (omega arith) },
      )

  with_left_lem :
      (e : ℕ) (node : Node) (left : Option Node)
      → IsPrepended d whole node left
      → (root : Node) × (with_left node left ≡ some root) × IsRoot e d whole root
  with_left_lem e node none x = (
    node,
    refl,
    record {
      level = d;
      tree = x.tree;
      same_text = sym (append-nil (text node)) ∙ x.joins;
      not_deeper = inr (omega arith);
    },
  )
  with_left_lem e node (some l) x =
      let (root, q, tree, same) = root_of_two_lem l node x in
      (
        root,
        q,
        record { level = suc d; tree = tree; same_text = same; not_deeper = inr (omega arith) },
      )

module _ ⦃lim : Limits⦄ ⦃crates : Crates⦄ (docs : IsDocumented crates) where
  pub join_roots_lem :
      (fuel d e : ℕ) (self other : Node)
      → 2 ≤ lim.max_children
      → IsTree d self
      → IsTree e other
      → d < fuel
      → e < fuel
      → 0 < length (text self)
      → 0 < length (text other)
      → cuts_crlf (text self) (text other) ≡ false
      → (root : Node) × (join_roots fuel self other ≡ some root)
        × IsRoot d e (text self ++ text other) root
  unfolding join_roots
  join_roots_lem fuel d e self other room h k enough enough' pos pos' seam =
      let whole = text self ++ text other in
      let l = depth_lem fuel d self h enough in
      let r = depth_lem fuel e other k enough' in
      elim (Bool-cases (ltb e d)) [
        | inl deeper ↦
            let level = above_difference d e (ground arith) in
            let (node, right, q, x) =
              append_at_depth_lem docs (d - e) e self other
                (subst (λ n. IsTree n self) (sym level) h) k pos pos' seam in
            let (root, q', is_root) =
              with_right_lem docs room d whole e node right
                (subst (λ n. IsJoined n whole node right) level x) in
            (root, rw (l, r, deeper, q) q', is_root)
        | inr not_deeper ↦
            let level = above_difference e d (ground arith) in
            let (node, left, q, x) =
              prepend_at_depth_lem docs (e - d) d other self
                (subst (λ n. IsTree n other) (sym level) k) h pos' pos seam in
            let (root, q', is_root) =
              with_left_lem docs room e whole d node left
                (subst (λ n. IsPrepended n whole node left) level x) in
            (root, rw (l, r, not_deeper, q) q', is_root)
      ]

  pub begins_with_lf_lem :
      (fuel d : ℕ) (self : Rope)
      → IsTree d self.root
      → d < fuel
      → 2 * length (text self.root) < word
      → 0 < length (text self.root)
      → begins_with_lf fuel self ≡ some (byte_is (text self.root) 0 lf)
  unfolding begins_with_lf
  begins_with_lf_lem fuel d self h enough small pos =
      let t = text self.root in
      let (chunk, offset, e, at) =
        chunk_at_char_lem docs d fuel self h enough small 0 (omega arith) in
      let front : at.before ≡ [] =
        no_chars at.before at.before_str (omega (arith, at.not_before)) in
      let joins : chunk ++ at.after ≡ t =
        ap (λ u. u ++ (chunk ++ at.after)) (sym front) ∙ at.joins in
      let start : offset.chars ≡ 0 = ap (λ x. x.chars) at.start ∙ omega (arith, at.not_before) in
      let first : wrapping_sub 0 offset.chars ≡ 0 = ap (wrapping_sub 0) start in
      let k = crates.chars_to_byte_idx chunk 0 in
      let cut = IsCut-at chunk k at.chunk_str (docs.to_byte-boundary chunk 0 at.chunk_str) in
      let nothing : take k chunk ≡ [] =
        no_chars (take k chunk) cut.left_str
          (docs.to_byte-count chunk 0 at.chunk_str ∙ omega arith) in
      let zero_th : k ≡ 0 = omega (arith, cut.left_len, ap length nothing) in
      let some_chunk : 0 < length chunk = elim at.at_end_only [
        | inl last ↦
            omega (arith, pos, ap length joins, length-append chunk at.after, ap length last)
        | inr more ↦ omega (
          arith,
          more,
          ap count_chars front,
          tally-le-length (λ b. not (is_continuation b)) chunk,
        )
      ] in
      ap
        (λ o. o >>= λ x.
          get_elem? x.0 (crates.chars_to_byte_idx x.0 (wrapping_sub 0 x.2)) >>= λ b. some (b == lf))
        e
      ∙ (ap (λ j. get_elem? chunk (crates.chars_to_byte_idx chunk j) >>= λ b. some (b == lf)) first
          ∙ (ap (λ j. get_elem? chunk j >>= λ b. some (b == lf)) zero_th
              ∙ (first_byte_of chunk at.after some_chunk ∙ ap (λ u. some (byte_is u 0 lf)) joins)))
