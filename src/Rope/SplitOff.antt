-- ===== src/Rope/SplitOff.antt =====
-- `try_split_off` of src/rope.rs, which divides a rope at a char.
use ropey.Common.{
  ℕ, ◌+◌, ◌*◌, ◌≤◌, ◌<◌, ◌≡◌, refl, sym, ◌∙◌, ap, ◌⊎◌, inl, inr, true, false, some, Option, List,
  ◌++◌, arith, leb, ◌==◌, if◌then◌else◌, ◌>>=◌, length, length-append, take, drop, take_all,
  drop_all, take-append, drop-append, subst, Bool-cases, Bool,
}
use native.Mathlib.Nat.{mul-add}
use ropey.Str.Cut.{boundary_end}
use ropey.Str.Utf8.{nil-continues}
use ropey.Crates.{Crates, IsDocumented}
use ropey.Crates.Measures.{count_chars}
use ropey.TextInfo.{word}
use ropey.Tree.{Limits, Node}
use ropey.Tree.Content.{text, IsTree}
use ropey.Tree.Counts.{nodes, nodes_le}
use ropey.Node.Info.{IsTree-IsStr}
use ropey.Node.Divide.{split}
use ropey.Node.Divide.Divided.{AreDivided}
use ropey.Node.Divide.Whole.{split_lem}
use ropey.Node.Zip.{zip_fix_left, zip_fix_right}
use ropey.Node.Zip.Left.{zip_fix_left_lem}
use ropey.Node.Zip.Right.{zip_fix_right_lem}
use ropey.Error.{Error, Result, ok, err}
use ropey.Rope
use ropey.Rope.{Rope, len_chars}
use ropey.Rope.Lengths.{len_chars-count}
use ropey.Rope.Root.{pull_up_singular_nodes, pull_up_singular_nodes_lem}
use ropey.Rope.Starts.{StartsAt, StartsAt-parts}

module _ ⦃lim : Limits⦄ ⦃crates : Crates⦄ where
  -- The rope that stays, and the result. Fuel for the levels of the tree, and for the rounds of the
  -- loops that fix its edges.
  unfoldable pub try_split_off : ℕ → ℕ → Rope → ℕ → Option (Rope × Result Rope)
  try_split_off levels rounds self char_idx =
      if leb char_idx (len_chars self)
      then (if char_idx == 0
          then some (Rope.new, ok self)
          else if char_idx == len_chars self
          then some (self, ok Rope.new)
          else (do
            (l, r) ← split levels self.root char_idx
            (_, l) ← zip_fix_right rounds l
            (_, r) ← zip_fix_left rounds r
            left ← pull_up_singular_nodes levels l
            right ← pull_up_singular_nodes levels r
            some (record { root = left }, ok (record { root = right }))))
      else some (self, err (Error.char_index_out_of_bounds char_idx (len_chars self)))

-- Two ropes that hold the text `t` up to its char `i` and from it on, in balanced trees that are no
-- deeper than `d`.
pub record AreSplitOff ⦃lim : Limits⦄ (d : ℕ) (t : List ℕ) (i : ℕ) (left right : Rope)
    : Type 0 where
  pub byte : ℕ
  pub starts : StartsAt t i byte
  pub left_text : text left.root ≡ take byte t
  pub right_text : text right.root ≡ drop byte t
  pub left_depth : ℕ
  pub right_depth : ℕ
  pub left_tree : IsTree left_depth left.root
  pub right_tree : IsTree right_depth right.root
  pub left_not_deeper : left_depth ≤ d
  pub right_not_deeper : right_depth ≤ d

module _ ⦃lim : Limits⦄ (d : ℕ) (self : Rope) (h : IsTree d self.root) where
  AreSplitOff-start : AreSplitOff d (text self.root) 0 Rope.new self
  AreSplitOff-start = record {
    byte = 0;
    starts = record { in_range = omega arith; boundary = refl; before = refl };
    left_text = refl;
    right_text = refl;
    left_depth = 0;
    right_depth = d;
    left_tree = nil-continues;
    right_tree = h;
    left_not_deeper = omega arith;
    right_not_deeper = omega arith;
  }

  AreSplitOff-end : AreSplitOff d (text self.root) (count_chars (text self.root)) self Rope.new
  AreSplitOff-end = record {
    byte = length (text self.root);
    starts = record {
      in_range = omega arith;
      boundary = boundary_end (text self.root);
      before = ap count_chars (take_all (text self.root));
    };
    left_text = sym (take_all (text self.root));
    right_text = sym (drop_all (text self.root));
    left_depth = d;
    right_depth = 0;
    left_tree = h;
    right_tree = nil-continues;
    left_not_deeper = omega arith;
    right_not_deeper = omega arith;
  }

module _ ⦃lim : Limits⦄ (d : ℕ) (t : List ℕ) (i : ℕ) (l r : Node) (x : AreDivided d t i l r) where
  StartsAt-divided : StartsAt t i (length (text l))
  StartsAt-divided =
      subst (λ u. StartsAt u i (length (text l))) x.joins
        (subst (λ n. StartsAt (text l ++ text r) n (length (text l))) x.left_chars
          (StartsAt-parts (text l) (text r) (IsTree-IsStr d r x.right_tree)))

  left_part : text l ≡ take (length (text l)) t
  left_part = sym (take-append (text l) (text r)) ∙ ap (take (length (text l))) x.joins

  right_part : text r ≡ drop (length (text l)) t
  right_part = sym (drop-append (text l) (text r)) ∙ ap (drop (length (text l))) x.joins

  -- Fuel for the nodes of the tree is enough for those of its halves.
  halves_enough : (rounds : ℕ) → 1 + d * length t < rounds → (nodes l < rounds) × (nodes r < rounds)
  halves_enough rounds enough =
      let len : d * length t ≡ d * length (text l) + d * length (text r) =
        ap (λ u. d * length u) (sym x.joins)
        ∙ (ap (λ n. d * n) (length-append (text l) (text r))
            ∙ mul-add d (length (text l)) (length (text r))) in
      (
        omega (arith, nodes_le d l x.left_tree, len, enough),
        omega (arith, nodes_le d r x.right_tree, len, enough),
      )

module _ ⦃lim : Limits⦄ ⦃crates : Crates⦄ where
  split_off_step :
      (levels rounds : ℕ) (self : Rope) (i : ℕ) (l r l' r' left right : Node) (did did' : Bool)
      → leb i (len_chars self) ≡ true
      → (i == 0) ≡ false
      → (i == len_chars self) ≡ false
      → split levels self.root i ≡ some (l, r)
      → zip_fix_right rounds l ≡ some (did, l')
      → zip_fix_left rounds r ≡ some (did', r')
      → pull_up_singular_nodes levels l' ≡ some left
      → pull_up_singular_nodes levels r' ≡ some right
      → try_split_off levels rounds self i
        ≡ some (record { root = left }, ok (record { root = right }))
  unfolding try_split_off
  split_off_step levels rounds self i l r l' r' left right did did' h0 h1 h2 h3 h4 h5 h6 h7 =
      rw (h0, h1, h2, h3, h4, h5, h6, h7) refl

  module _ (docs : IsDocumented crates) (d levels rounds : ℕ) (self : Rope) (i : ℕ)
      (h : IsTree d self.root) (enough : d < levels)
      (enough_rounds : 1 + d * length (text self.root) < rounds)
      (small : 2 * length (text self.root) < word) (long : 7 ≤ lim.max_bytes) where
    inside_lem :
        0 < i
        → i < count_chars (text self.root)
        → (left right : Rope) × (try_split_off levels rounds self i ≡ some (left, ok right))
          × AreSplitOff d (text self.root) i left right
    inside_lem pos lt =
        let t = text self.root in
        let (l, r, e, x) = split_lem docs d levels self.root i h enough (omega arith) pos lt in
        let (room, room') = halves_enough d t i l r x rounds enough_rounds in
        let (did, l', e', z) = zip_fix_right_lem docs rounds d l long x.left_tree room in
        let (did', r', e'', z') = zip_fix_left_lem docs rounds d r long x.right_tree room' in
        let (left, q, up) = pull_up_singular_nodes_lem d levels l' z.tree enough in
        let (right, q', up') = pull_up_singular_nodes_lem d levels r' z'.tree enough in
        let count = len_chars-count docs d self h small in
        (
          record { root = left },
          record { root = right },
          split_off_step levels rounds self i l r l' r' left right did did'
              (ground (arith, count, lt)) (ground (arith, pos)) (ground (arith, count, lt)) e e' e''
              q q',
          record {
            byte = length (text l);
            starts = StartsAt-divided d t i l r x;
            left_text = up.same_text ∙ (z.same_text ∙ left_part d t i l r x);
            right_text = up'.same_text ∙ (z'.same_text ∙ right_part d t i l r x);
            left_depth = up.depth;
            right_depth = up'.depth;
            left_tree = up.is_tree;
            right_tree = up'.is_tree;
            left_not_deeper = up.not_deeper;
            right_not_deeper = up'.not_deeper;
          },
        )

    -- In a balanced tree that holds less than 2^63 bytes, with a limit of at least seven bytes for a
    -- leaf, fuel for the levels of the tree and rounds for its nodes, either the index is past the number of
    -- chars, and the result is an error that names both, with the rope as it was, or the rope keeps
    -- the text up to the byte where the char starts and the result is a rope with the rest, both in
    -- balanced trees that are no deeper than before.
    pub try_split_off_lem :
        ((count_chars (text self.root) < i)
          × (try_split_off levels rounds self i
              ≡ some (self, err (Error.char_index_out_of_bounds i (count_chars (text self.root))))))
        ⊎ ((left right : Rope) × (try_split_off levels rounds self i ≡ some (left, ok right))
            × AreSplitOff d (text self.root) i left right)
    unfolding try_split_off
    try_split_off_lem =
        let count = len_chars-count docs d self h small in
        elim (Bool-cases (leb i (count_chars (text self.root)))) [
          | inr past ↦ inl (ground arith, rw (count, past) refl)
          | inl inside ↦ elim (Bool-cases (i == 0)) [
            | inl start ↦
                let first : i ≡ 0 = ground arith in
                inr (
                  Rope.new,
                  self,
                  rw (count, inside, start) refl,
                  subst (λ k. AreSplitOff d (text self.root) k Rope.new self) (sym first)
                      (AreSplitOff-start d self h),
                )
            | inr later ↦ elim (Bool-cases (i == count_chars (text self.root))) [
              | inl end ↦
                  let last : i ≡ count_chars (text self.root) = ground arith in
                  inr (
                    self,
                    Rope.new,
                    rw (count, inside, later, end) refl,
                    subst (λ k. AreSplitOff d (text self.root) k self Rope.new) (sym last)
                        (AreSplitOff-end d self h),
                  )
              | inr before ↦ inr (inside_lem (ground arith) (ground arith))
            ]
          ]
        ]
