-- ===== src/NodeText/Halves.antt =====
-- `insert_str_split` of src/tree/node_text.rs as a whole: the two halves of the text with the
-- insertion.
use ropey.Common.{
  ℕ, ◌+◌, ◌-◌, ◌<◌, ◌≡◌, refl, sym, inl, inr, true, some, List, [], ◌++◌, arith, length,
  length-append, append_assoc, append_cases, Bool-cases, leb, if◌then◌else◌, ap, take, drop,
}
use ropey.Crates.{Crates, IsDocumented}
use ropey.Str.{IsStr, is_char_boundary, str_slice}
use ropey.Str.Cut.{
  IsCut, IsCut-at, str_slice_parts, str_slice_back, str_slice_front, break-boundary,
}
use ropey.Str.Utf8.{append-IsStr, suffix-IsStr}
use ropey.NodeText.{insert_str_split, split_before, split_inside, split_after, truncate}
use ropey.NodeText.Edits.{push_str_lem, insert_str_parts, truncate_parts}
use ropey.NodeText.Split.{IsSplit, find_split_lem}

-- Two strings that make the text, and meet at a valid splitting point of it.
pub record AreHalves (text l r : List ℕ) : Type 0 where
  pub joins : l ++ r ≡ text
  pub left_str : IsStr l
  pub right_str : IsStr r
  pub meets : IsSplit text (length l)

module _ ⦃crates : Crates⦄ (docs : IsDocumented crates) where
  split_before_parts :
      (l m ys s : List ℕ)
      → IsStr m
      → IsStr ys
      → split_before ((l ++ m) ++ ys) (length (l ++ m)) s (length l) ≡ some (l, m ++ (s ++ ys))
  unfolding split_before
  split_before_parts l m ys s hm hy =
      let kept : str_slice ((l ++ m) ++ ys) (length l) (length (l ++ m)) ≡ some m =
        rw (append_assoc, length-append) (str_slice_parts l m ys hm hy) in
      let cut : truncate ((l ++ m) ++ ys) (length l) ≡ some l =
        rw append_assoc (truncate_parts docs l (m ++ ys) (append-IsStr m ys hm hy)) in
      rw (
        kept,
        push_str_lem docs [] m,
        push_str_lem docs m s,
        str_slice_back (l ++ m) ys hy,
        push_str_lem docs (m ++ s) ys,
        cut,
        append_assoc,
      )

  split_inside_parts :
      (xs ys s1 s2 : List ℕ)
      → IsStr ys
      → IsStr s2
      → split_inside (xs ++ ys) (length xs) (s1 ++ s2) (length (xs ++ s1))
        ≡ some (xs ++ s1, s2 ++ ys)
  unfolding split_inside
  split_inside_parts xs ys s1 s2 hy hs =
      let at : length (xs ++ s1) - length xs ≡ length s1 = omega (arith, length-append xs s1) in
      rw (
        at,
        str_slice_back s1 s2 hs,
        push_str_lem docs [] s2,
        str_slice_back xs ys hy,
        push_str_lem docs s2 ys,
        truncate_parts docs xs ys hy,
        str_slice_front s1 s2 hs,
        push_str_lem docs xs s1,
      )

  split_after_parts :
      (xs y1 y2 s : List ℕ)
      → IsStr y1
      → IsStr y2
      → split_after (xs ++ (y1 ++ y2)) (length xs) s (length (xs ++ (s ++ y1)))
        ≡ some (xs ++ (s ++ y1), y2)
  unfolding split_after
  split_after_parts xs y1 y2 s h1 h2 =
      let at : length (xs ++ (s ++ y1)) - length s ≡ length (xs ++ y1) =
        omega (arith, length-append xs (s ++ y1), length-append s y1, length-append xs y1) in
      let tail : str_slice (xs ++ (y1 ++ y2)) (length (xs ++ y1)) (length (xs ++ (y1 ++ y2)))
          ≡ some y2 =
        rw (← append_assoc) (str_slice_back (xs ++ y1) y2 h2) in
      let cut : truncate (xs ++ (y1 ++ y2)) (length (xs ++ y1)) ≡ some (xs ++ y1) =
        rw (← append_assoc) (truncate_parts docs (xs ++ y1) y2 h2) in
      rw (at, tail, push_str_lem docs [] y2, cut, insert_str_parts docs xs y1 s h1)

  before_case :
      (l m xs ys s r : List ℕ) (i : ℕ)
      → xs ≡ l ++ m
      → r ≡ m ++ (s ++ ys)
      → length l ≡ i
      → IsStr m
      → IsStr ys
      → split_before (xs ++ ys) (length xs) s i ≡ some (l, r)
  before_case l m xs ys s r i p q len hm hy = rw (p, ← len, q) (split_before_parts l m ys s hm hy)

  inside_case :
      (s1 s2 xs ys s l r : List ℕ) (i : ℕ)
      → l ≡ xs ++ s1
      → s ≡ s1 ++ s2
      → r ≡ s2 ++ ys
      → length l ≡ i
      → IsStr s2
      → IsStr ys
      → split_inside (xs ++ ys) (length xs) s i ≡ some (l, r)
  inside_case s1 s2 xs ys s l r i p q u len hs hy =
      rw (← len, p, q, u) (split_inside_parts xs ys s1 s2 hy hs)

  after_case :
      (y1 y2 xs ys s l r : List ℕ) (i : ℕ)
      → l ≡ xs ++ (s ++ y1)
      → ys ≡ y1 ++ y2
      → r ≡ y2
      → length l ≡ i
      → IsStr y1
      → IsStr y2
      → split_after (xs ++ ys) (length xs) s i ≡ some (l, r)
  after_case y1 y2 xs ys s l r i p q u len h1 h2 =
      rw (← len, p, q, u) (split_after_parts xs y1 y2 s h1 h2)

  -- The text cut at the split, wherever it falls.
  split_at_cut :
      (xs ys s l r : List ℕ) (i : ℕ)
      → IsStr xs
      → IsStr ys
      → IsStr s
      → IsCut (xs ++ (s ++ ys)) i l r
      → (if leb i (length xs)
          then split_before (xs ++ ys) (length xs) s i
          else (if leb i (length xs + length s)
              then split_inside (xs ++ ys) (length xs) s i
              else split_after (xs ++ ys) (length xs) s i))
        ≡ some (l, r)
  split_at_cut xs ys s l r i hx hy hs cut = elim (Bool-cases (leb i (length xs))) [
    | inl before ↦
        let (m, p, q) = append_cases l r xs (s ++ ys) cut.joins (ground (arith, cut.left_len)) in
        rw before (
          before_case l m xs ys s r i p q cut.left_len (suffix-IsStr l m cut.left_str (rw p at hx))
            hy)
    | inr later ↦
        let (k, p, q) =
          append_cases xs (s ++ ys) l r (sym cut.joins) (ground (arith, cut.left_len)) in
        let hk = suffix-IsStr xs k hx (rw p at cut.left_str) in
        let len : length xs + length k ≡ i =
          omega (arith, cut.left_len, ap length p, length-append xs k) in
        elim (Bool-cases (leb i (length xs + length s))) [
          | inl inside ↦
              let (m, p', q') = append_cases k r s ys (sym q) (ground arith) in
              rw (later, inside)
                (inside_case k m xs ys s l r i p p' q' cut.left_len
                  (suffix-IsStr k m hk (rw p' at hs)) hy)
          | inr after ↦
              let (m, p', q') = append_cases s ys k r q (ground arith) in
              rw (later, after)
                (after_case m r xs ys s l r i (rw p' at p) q' refl cut.left_len
                  (suffix-IsStr s m hs (rw p' at hk)) cut.right_str)
        ]
  ]

  insert_str_split_parts :
      (xs ys s : List ℕ)
      → IsStr xs
      → IsStr ys
      → IsStr s
      → 0 < length (xs ++ (s ++ ys))
      → (l : List ℕ) × (r : List ℕ) × (insert_str_split (xs ++ ys) (length xs) s ≡ some (l, r))
        × AreHalves (xs ++ (s ++ ys)) l r
  unfolding insert_str_split
  insert_str_split_parts xs ys s hx hy hs pos =
      let t = xs ++ (s ++ ys) in
      let ht : IsStr t = append-IsStr xs (s ++ ys) hx (append-IsStr s ys hs hy) in
      let (i, e, sp) = find_split_lem xs ys s ht pos in
      let cut = IsCut-at t i ht (break-boundary t i sp.is_split) in
      (
        take i t,
        drop i t,
        rw e (split_at_cut xs ys s (take i t) (drop i t) i hx hy hs cut),
        record {
          joins = cut.joins;
          left_str = cut.left_str;
          right_str = cut.right_str;
          meets = rw cut.left_len sp;
        },
      )

  -- For strings that are not both empty, and a character boundary of the text, `insert_str_split`
  -- does not panic. Its halves are strings that join to the text with the insertion, and meet at a
  -- valid splitting point; the right half is empty only if there is none inside the text.
  pub insert_str_split_lem :
      (t s : List ℕ) (i : ℕ)
      → IsStr t
      → IsStr s
      → is_char_boundary t i ≡ true
      → 0 < length t + length s
      → (l : List ℕ) × (r : List ℕ) × (insert_str_split t i s ≡ some (l, r))
        × AreHalves (take i t ++ (s ++ drop i t)) l r
  insert_str_split_lem t s i ht hs b pos =
      let cut = IsCut-at t i ht b in
      rw (cut.joins, cut.left_len) at
        (insert_str_split_parts (take i t) (drop i t) s cut.left_str cut.right_str hs (
          omega (
            arith,
            length-append (take i t) (s ++ drop i t),
            length-append s (drop i t),
            length-append (take i t) (drop i t),
            ap length cut.joins,
          )))
