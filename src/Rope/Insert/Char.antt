-- ===== src/Rope/Insert/Char.antt =====
-- The insertion of a char by `try_insert_char` of src/rope.rs, and what an insertion leaves of a rope.
use ropey.Common.{
  ℕ, suc, ◌+◌, ◌*◌, ◌≤◌, ◌<◌, ◌≡◌, refl, ◌⊎◌, inl, inr, false, some, List, ◌++◌, arith, leb, length,
  take, drop, Bool-cases, take-append-drop, not, ap, length-append,
}
use ropey.Crlf.{lf, is_continuation}
use ropey.Str.{IsStr}
use ropey.Crates.{Crates, IsDocumented}
use ropey.Crates.Measures.{byte_is, count_chars}
use ropey.TextInfo.{word}
use ropey.Tree.{Limits, Node}
use ropey.Tree.Content.{text, IsTree}
use ropey.Error.{Error, ok, err}
use ropey.Rope.{Rope}
use ropey.Rope.Lengths.{len_chars-count}
use ropey.Rope.Starts.{StartsAt}
use ropey.Rope.Insert.{insert_internal, try_insert_char}
use ropey.Rope.Insert.Whole.{insert_internal_lem}
use ropey.Crates.Measures.Laws.{tally-append}

-- A balanced tree that holds the text `t` with the insertion in front of its char `i`, and is at
-- most `grown` levels deeper than `d`.
pub record Inserted ⦃lim : Limits⦄ (d grown : ℕ) (t ins : List ℕ) (i : ℕ) (root : Node)
    : Type 0 where
  pub byte : ℕ
  pub depth : ℕ
  pub starts : StartsAt t i byte
  pub new_text : text root ≡ take byte t ++ (ins ++ drop byte t)
  pub tree : IsTree depth root
  pub not_deeper : depth ≤ d + grown

pub deeper :
    ⦃lim : Limits⦄ {d m n : ℕ} {t ins : List ℕ} {i : ℕ} {root : Node}
    → m ≤ n
    → Inserted d m t ins i root
    → Inserted d n t ins i root
deeper le x = record {
  byte = x.byte;
  depth = x.depth;
  starts = x.starts;
  new_text = x.new_text;
  tree = x.tree;
  not_deeper = omega (arith, le, x.not_deeper);
}

pub length-Inserted :
    ⦃lim : Limits⦄ (d grown : ℕ) (t ins : List ℕ) (i : ℕ) (root : Node)
    → Inserted d grown t ins i root
    → length (text root) ≡ length t + length ins
length-Inserted d grown t ins i root x = omega (
  arith,
  ap length x.new_text,
  length-append (take x.byte t) (ins ++ drop x.byte t),
  length-append ins (drop x.byte t),
  length-append (take x.byte t) (drop x.byte t),
  ap length (take-append-drop x.byte t),
)

pub count-Inserted :
    ⦃lim : Limits⦄ (d grown : ℕ) (t ins : List ℕ) (i : ℕ) (root : Node)
    → Inserted d grown t ins i root
    → i ≤ count_chars (text root)
count-Inserted d grown t ins i root x = omega (
  arith,
  ap count_chars x.new_text,
  x.starts.before,
  tally-append (λ b. not (is_continuation b)) (take x.byte t) (ins ++ drop x.byte t),
)

module _ ⦃lim : Limits⦄ ⦃crates : Crates⦄ (docs : IsDocumented crates) where
  pub insert_once :
      (d fuel : ℕ) (self : Rope) (i : ℕ) (ins : List ℕ)
      → IsTree d self.root
      → d < fuel
      → length (text self.root) < word
      → 2 ≤ lim.max_children
      → i ≤ count_chars (text self.root)
      → IsStr ins
      → 0 < length ins
      → (byte_is ins 0 lf ≡ false) ⊎ (i ≡ 0)
      → (root : Node) × (insert_internal fuel self i ins ≡ some (record { root = root }))
        × Inserted d 1 (text self.root) ins i root
  insert_once d fuel self i ins h enough small room le hi pos first =
      let (root, b, e, starts, same, tree) =
        insert_internal_lem docs d fuel self i ins h enough small room le hi pos first in
      elim tree [
        | inl flat ↦ (
          root,
          e,
          record {
            byte = b;
            depth = d;
            starts = starts;
            new_text = same;
            tree = flat;
            not_deeper = omega arith;
          },
        )
        | inr deep ↦ (
          root,
          e,
          record {
            byte = b;
            depth = suc d;
            starts = starts;
            new_text = same;
            tree = deep;
            not_deeper = omega arith;
          },
        )
      ]

  -- In a balanced tree with less than 2^63 bytes, with fuel for its levels and room for two
  -- children in a node, and for an encoded char that is not LF or an index 0, either the index is
  -- past the number of chars, and the insertion of the char is an error that names both, or it
  -- leaves a balanced tree, at most one level deeper, with the char in front of the one at the index.
  pub try_insert_char_lem :
      (d fuel : ℕ) (self : Rope) (i : ℕ) (ch : List ℕ)
      → IsTree d self.root
      → d < fuel
      → 2 * length (text self.root) < word
      → 2 ≤ lim.max_children
      → IsStr ch
      → 0 < length ch
      → (byte_is ch 0 lf ≡ false) ⊎ (i ≡ 0)
      → ((count_chars (text self.root) < i)
          × (try_insert_char fuel self i ch
              ≡ some (err (Error.char_index_out_of_bounds i (count_chars (text self.root))))))
        ⊎ ((root : Node) × (try_insert_char fuel self i ch ≡ some (ok (record { root = root })))
            × Inserted d 1 (text self.root) ch i root)
  unfolding try_insert_char
  try_insert_char_lem d fuel self i ch h enough small room hi pos first =
      elim (Bool-cases (leb i (count_chars (text self.root)))) [
        | inl inside ↦
            let (root, e, result) =
              insert_once d fuel self i ch h enough (omega arith) room (ground arith) hi pos
                first in
            inr (root, rw (len_chars-count docs d self h small, inside, e) refl, result)
        | inr past ↦ inl (ground arith, rw (len_chars-count docs d self h small, past) refl)
      ]
