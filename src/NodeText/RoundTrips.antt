-- ===== src/NodeText/RoundTrips.antt =====
-- Pairs of edits of src/tree/node_text.rs, one after the other.
use ropey.Common.{ℕ, ◌+◌, ◌≡◌, true, some, List, ◌++◌, ◌>>=◌, length, take, drop, take-append-drop}
use ropey.Crates.{Crates, IsDocumented}
use ropey.Str.{IsStr, is_char_boundary}
use ropey.Str.Cut.{IsCut, IsCut-at}
use ropey.NodeText.{NodeText, insert_str, remove_range, split_off, push_str}
use ropey.NodeText.Edits.{insert_str_parts, remove_range_parts, split_off_parts, push_str_lem}

module _ ⦃crates : Crates⦄ (docs : IsDocumented crates) (t : NodeText) (i : ℕ) (h : IsStr t)
    (bound : is_char_boundary t i ≡ true) where
  cut : IsCut t i (take i t) (drop i t)
  cut = IsCut-at t i h bound

  insert_str_lem : (s : List ℕ) → insert_str t i s ≡ some (take i t ++ (s ++ drop i t))
  insert_str_lem s =
      rw (cut.joins, cut.left_len) at (insert_str_parts docs (take i t) (drop i t) s cut.right_str)

  -- A string inserted at a character boundary of a leaf text and removed again leaves the text.
  pub remove_range-insert_str :
      (s : List ℕ) → IsStr s → (insert_str t i s >>= λ u. remove_range u i (i + length s)) ≡ some t
  remove_range-insert_str s hs =
      let gone : remove_range (take i t ++ (s ++ drop i t)) i (i + length s) ≡ some t =
        rw (cut.joins, cut.left_len) at
          (remove_range_parts docs (take i t) s (drop i t) hs cut.right_str) in
      rw (insert_str_lem s, gone)

  -- A leaf text split off at a character boundary and pushed back is the text.
  pub push_str-split_off : (split_off t i >>= λ halves. push_str halves.0 halves.1) ≡ some t
  push_str-split_off =
      let halves : split_off t i ≡ some (take i t, drop i t) =
        rw (cut.joins, cut.left_len) at
          (split_off_parts docs (take i t) (drop i t) cut.right_str) in
      rw (halves, push_str_lem docs (take i t) (drop i t), take-append-drop)
