-- ===== src/Rope/Append/Whole.antt =====
-- `append` of src/rope.rs as a whole, for an appended text that does not begin with an LF: the two
-- texts cut no CRLF pair.
use ropey.Common.{
  ℕ, ◌+◌, ◌*◌, ◌-◌, ◌≤◌, ◌<◌, ◌≡◌, refl, sym, ◌∙◌, ap, inl, inr, true, false, ◌||◌, Option, some,
  List, ◌++◌, arith, ltb, ◌==◌, if◌then◌else◌, length, length-append, append-nil, Bool-cases, not,
  ◌>>=◌, ◌&&◌,
}
use native.Mathlib.Nat.{add-mul}
use ropey.Crlf.{lf, is_continuation}
use ropey.Crates.{Crates, IsDocumented}
use ropey.Crates.Measures.{count_chars, byte_is}
use ropey.Crates.Measures.Laws.{cuts_crlf, ends_cr, tally-append, tally-le-length}
use ropey.Crates.Measures.Seams.{and_false}
use ropey.TextInfo.{TextInfo, word}
use ropey.Tree.{Limits, Node, min_bytes}
use ropey.Tree.Content.{text, IsTree}
use ropey.Tree.Counts.{nodes, nodes_le}
use ropey.Node.{text_info}
use ropey.Node.Info.{IsTree-IsStr, text_info-measure}
use ropey.Node.FixSeam.{fix_tree_seam}
use ropey.Node.FixSeam.Fixed.{fix_tree_seam_lem, chars_le}
use ropey.Rope.{Rope, len_chars}
use ropey.Rope.Lengths.{len_chars-count}
use ropey.Rope.Root.{pull_up_singular_nodes, pull_up_singular_nodes_lem}
use ropey.Rope.Insert.Handled.{no_chars}
use ropey.Rope.Append.{append, begins_with_lf, join_roots}
use ropey.Rope.Append.Roots.{IsRoot, join_roots_lem, begins_with_lf_lem}

module _ ⦃lim : Limits⦄ (d e : ℕ) (whole : List ℕ) where
  nodes_bound :
      (root : Node) (rounds : ℕ)
      → IsRoot d e whole root
      → 1 + (d + e + 1) * length whole < rounds
      → nodes root < rounds
  nodes_bound root rounds r enough =
      let k = d + e + 1 - r.level in
      let sum : r.level + k ≡ d + e + 1 = elim r.not_deeper [
        | inl le ↦ omega (arith, le)
        | inr le ↦ omega (arith, le)
      ] in
      let product : (d + e + 1) * length whole ≡ r.level * length whole + k * length whole =
        ap (λ n. n * length whole) (sym sum) ∙ add-mul r.level k (length whole) in
      let below : nodes root ≤ 1 + r.level * length whole =
        rw r.same_text at (nodes_le r.level root r.tree) in
      omega (arith, below, product, enough)

  level_bound :
      (root : Node) (levels : ℕ) (r : IsRoot d e whole root)
      → d + 1 < levels
      → e + 1 < levels
      → r.level < levels
  level_bound root levels r h k = elim r.not_deeper [
    | inl le ↦ omega (arith, le, h)
    | inr le ↦ omega (arith, le, k)
  ]

  -- The root taken down to a lower one.
  lower :
      (root root' : Node) (r : IsRoot d e whole root) (level : ℕ)
      → level ≤ r.level
      → IsTree level root'
      → text root' ≡ text root
      → IsRoot d e whole root'
  lower root root' r level le tree same = record {
    level = level;
    tree = tree;
    same_text = same ∙ r.same_text;
    not_deeper = elim r.not_deeper [
      | inl h ↦ inl (omega (arith, le, h))
      | inr h ↦ inr (omega (arith, le, h))
    ];
  }

module _ ⦃lim : Limits⦄ ⦃crates : Crates⦄ where
  -- "Fix up any mess left behind.", without the seam.
  abbrev fixed : ℕ → TextInfo → TextInfo → Node → Option Node
  fixed rounds left_info right_info root =
      if ltb left_info.bytes min_bytes || ltb right_info.bytes min_bytes
      then (do (_, root) ← fix_tree_seam rounds root left_info.chars; some root)
      else some root

  fixed_lem :
      (docs : IsDocumented crates) (d e rounds : ℕ) (whole : List ℕ) (root : Node)
      (left_info right_info : TextInfo)
      → 7 ≤ lim.max_bytes
      → IsRoot d e whole root
      → 1 + (d + e + 1) * length whole < rounds
      → length whole < word
      → left_info.chars ≤ count_chars whole
      → (root' : Node) × (fixed rounds left_info right_info root ≡ some root')
        × IsRoot d e whole root'
  fixed_lem docs d e rounds whole root left_info right_info long r enough small le =
      elim (Bool-cases (ltb left_info.bytes min_bytes || ltb right_info.bytes min_bytes)) [
        | inr large ↦ (root, rw large refl, r)
        | inl tiny ↦
            let (did, root', q, z) =
              fix_tree_seam_lem docs long rounds r.level root left_info.chars r.tree
                (nodes_bound d e whole root rounds r enough) (rw r.same_text small)
                (rw r.same_text le) in
            (
              root',
              rw (tiny, q) refl,
              lower d e whole root root' r r.level (omega arith) z.tree z.same_text,
            )
      ]

  append_step :
      (levels rounds : ℕ) (self other : Rope) (root root' root'' : Node)
      → (len_chars self == 0) ≡ false
      → ltb 0 (len_chars other) ≡ true
      → begins_with_lf levels other ≡ some false
      → join_roots levels self.root other.root ≡ some root
      → fixed rounds (text_info self.root) (text_info other.root) root ≡ some root'
      → pull_up_singular_nodes levels root' ≡ some root''
      → append levels rounds self other ≡ some (record { root = root'' })
  unfolding append
  append_step levels rounds self other root root' root'' h0 h1 h2 h3 h4 h5 =
      rw (h0, h1, h2, h3, h4, h5) refl

  module _ (docs : IsDocumented crates) (d e levels rounds : ℕ) (self other : Rope)
      (h : IsTree d self.root) (k : IsTree e other.root) (enough : d + 1 < levels)
      (enough' : e + 1 < levels) (small : 2 * length (text self.root ++ text other.root) < word)
      (enough_rounds : 1 + (d + e + 1) * length (text self.root ++ text other.root) < rounds)
      (long : 7 ≤ lim.max_bytes) (room : 2 ≤ lim.max_children)
      (no_lf : byte_is (text other.root) 0 lf ≡ false) where
    abbrev whole : List ℕ
    whole = text self.root ++ text other.root

    both_lem :
        0 < count_chars (text self.root)
        → 0 < count_chars (text other.root)
        → (root : Node) × (append levels rounds self other ≡ some (record { root = root }))
          × IsRoot d e whole root
    both_lem pos pos' =
        let len = length-append (text self.root) (text other.root) in
        let le = tally-le-length (λ b. not (is_continuation b)) (text self.root) in
        let le' = tally-le-length (λ b. not (is_continuation b)) (text other.root) in
        let count = len_chars-count docs d self h (omega (arith, len, small)) in
        let count' = len_chars-count docs e other k (omega (arith, len, small)) in
        let seam : cuts_crlf (text self.root) (text other.root) ≡ false =
          ap (λ b. ends_cr (text self.root) && b) no_lf ∙ and_false (ends_cr (text self.root)) in
        let (root, q, r) =
          join_roots_lem docs levels d e self.root other.root room h k (omega (arith, enough))
            (omega (arith, enough')) (omega (arith, pos, le)) (omega (arith, pos', le')) seam in
        let info = text_info-measure docs d self.root h in
        let chars : (text_info self.root).chars ≤ count_chars whole = omega (
          arith,
          chars_le (text self.root) (text_info self.root) info,
          tally-append (λ b. not (is_continuation b)) (text self.root) (text other.root),
        ) in
        let (root', q', r') =
          fixed_lem docs d e rounds whole root (text_info self.root) (text_info other.root) long r
            enough_rounds (omega (arith, small)) chars in
        let (root'', q'', up) =
          pull_up_singular_nodes_lem r'.level levels root' r'.tree
            (level_bound d e whole root' levels r' enough enough') in
        let begins =
          begins_with_lf_lem docs levels e other k (omega (arith, enough'))
            (omega (arith, len, small)) (omega (arith, pos', le')) in
        (
          root'',
          append_step levels rounds self other root root' root'' (ground (arith, count, pos))
              (ground (arith, count', pos')) (begins ∙ ap some no_lf) q q' q'',
          lower d e whole root' root'' r' up.depth up.not_deeper up.is_tree up.same_text,
        )

    -- Two ropes in balanced trees that hold less than 2^63 bytes together, with a limit of at
    -- least seven bytes for a leaf, room for two children in a node, fuel for the levels of the joined tree and rounds
    -- for its nodes, and a second text that does not begin with an LF: `append` does not panic, and
    -- leaves the two texts, one after the other, in a balanced tree that is at most one level deeper
    -- than one of the two.
    pub append_lem :
        (root : Node) × (append levels rounds self other ≡ some (record { root = root }))
        × IsRoot d e (text self.root ++ text other.root) root
    unfolding append
    append_lem =
        let len = length-append (text self.root) (text other.root) in
        let count = len_chars-count docs d self h (omega (arith, len, small)) in
        let count' = len_chars-count docs e other k (omega (arith, len, small)) in
        elim (Bool-cases (count_chars (text self.root) == 0)) [
          | inl none_left ↦
              let empty = no_chars (text self.root) (IsTree-IsStr d self.root h) (ground arith) in
              (
                other.root,
                rw (count, none_left) refl,
                record {
                  level = e;
                  tree = k;
                  same_text = ap (λ t. t ++ text other.root) (sym empty);
                  not_deeper = inr (omega arith);
                },
              )
          | inr some_left ↦ elim (Bool-cases (ltb 0 (count_chars (text other.root)))) [
            | inl some_right ↦ both_lem (ground arith) (ground arith)
            | inr none_right ↦
                let empty =
                  no_chars (text other.root) (IsTree-IsStr e other.root k) (ground arith) in
                (
                  self.root,
                  rw (count, some_left, count', none_right) refl,
                  record {
                    level = d;
                    tree = h;
                    same_text =
                        sym (append-nil (text self.root))
                        ∙ ap (λ t. text self.root ++ t) (sym empty);
                    not_deeper = inl (omega arith);
                  },
                )
          ]
        ]
