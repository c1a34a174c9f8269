-- ===== src/NodeText/Seam.antt =====
-- `fix_segment_seam` of src/tree/node_text.rs, for a CRLF pair that two leaves cut.
use ropey.Common.{
  ℕ, ◌+◌, ◌-◌, ◌≤◌, ◌<◌, ◌≡◌, refl, inl, inr, true, false, some, List, [], ◌++◌, arith, length,
  take, drop, length-append, append_assoc, Bool-cases, ltb, not, ◌&&◌, ◌||◌, ◌==◌,
}
use ropey.Crates.{Crates, IsDocumented}
use ropey.Crlf.{seam_is_break}
use ropey.Crlf.Breaks.{IsBreak, is_break_cases, prev_break_lem, next_break_lem}
use ropey.Crlf.Joined.{IsBreak-left, IsBreak-right, seam_is_break_lem}
use ropey.Str.{IsStr}
use ropey.Str.Cut.{IsCut, IsCut-at, str_slice_back, str_slice_front, break-boundary}
use ropey.Str.Utf8.{append-IsStr}
use ropey.NodeText.{fix_segment_seam, seam_split, move_to_right, move_to_left}
use ropey.NodeText.Edits.{push_str_lem, insert_str_parts, truncate_parts, truncate_front_parts}

-- Two strings that join to the text and meet at a break of it.
pub record MeetAtBreak (text l r : List ℕ) : Type 0 where
  pub joins : l ++ r ≡ text
  pub left_str : IsStr l
  pub right_str : IsStr r
  pub meets : IsBreak (length l) text

-- Where `fix_segment_seam` cuts: inside the left text, or behind the start of the right one.
pub data IsSeamSplit (l r : List ℕ) (i : ℕ) : Type 0 where
  in_left : i < length l → IsBreak i l → IsSeamSplit l r i
  in_right : (q : ℕ) → i ≡ length l + q → 0 < q → q ≤ length r → IsBreak q r → IsSeamSplit l r i

seam_split_lem :
    (l r : List ℕ)
    → 0 < length l
    → 0 < length r
    → (i : ℕ) × (seam_split l r ≡ some i) × IsSeamSplit l r i
unfolding seam_split
seam_split_lem l r a b =
    let (p, ep, lt, pb, pn) = prev_break_lem (length l) l a (omega arith) in
    let (q, eq, gt, le, qb, qn) = next_break_lem 0 r b in
    elim (Bool-cases
      (not (p == 0) && (length l + q == length l + length r || ltb (length r) (length l)))) [
        | inl left ↦ (p, rw (ep, eq, left), in_left lt pb)
        | inr right ↦ (length l + q, rw (ep, eq, right), in_right q refl gt le qb)
      ]

module _ ⦃crates : Crates⦄ (docs : IsDocumented crates) where
  move_to_right_parts :
      (a b r : List ℕ) → IsStr b → IsStr r → move_to_right (a ++ b) r (length a) ≡ some (a, b ++ r)
  unfolding move_to_right
  move_to_right_parts a b r hb hr =
      rw (str_slice_back a b hb, insert_str_parts docs [] r b hr, truncate_parts docs a b hb)

  move_to_left_parts :
      (l a b : List ℕ) → IsStr a → IsStr b → move_to_left l (a ++ b) (length a) ≡ some (l ++ a, b)
  unfolding move_to_left
  move_to_left_parts l a b ha hb =
      rw (str_slice_front a b hb, push_str_lem docs l a, truncate_front_parts docs a b ha hb)

  to_right :
      (l r a b : List ℕ) (i : ℕ) → IsCut l i a b → IsStr r → move_to_right l r i ≡ some (a, b ++ r)
  to_right l r a b i cut hr =
      rw (cut.joins, cut.left_len) at (move_to_right_parts a b r cut.right_str hr)

  to_left : (l r a b : List ℕ) (i : ℕ) → IsCut r i a b → move_to_left l r i ≡ some (l ++ a, b)
  to_left l r a b i cut =
      rw (cut.joins, cut.left_len) at (move_to_left_parts l a b cut.left_str cut.right_str)

  mend :
      (l r : List ℕ) (i : ℕ)
      → IsStr l
      → IsStr r
      → seam_split l r ≡ some i
      → seam_is_break l r ≡ some false
      → IsSeamSplit l r i
      → (l' : List ℕ) × (r' : List ℕ) × (fix_segment_seam l r ≡ some (l', r'))
        × MeetAtBreak (l ++ r) l' r'
  unfolding fix_segment_seam
  mend l r i hl hr e broken (in_left inside isb) =
      let cut = IsCut-at l i hl (break-boundary l i isb) in
      let split : ltb i (length l) ≡ true = ground arith in
      (
        take i l,
        drop i l ++ r,
        rw (broken, e, split) (to_right l r (take i l) (drop i l) i cut hr),
        record {
          joins = rw (← append_assoc, cut.joins);
          left_str = cut.left_str;
          right_str = append-IsStr (drop i l) r cut.right_str hr;
          meets = rw cut.left_len (IsBreak-left l r i inside isb);
        },
      )
  mend l r i hl hr e broken (in_right q place pos le isb) =
      let cut = IsCut-at r q hr (break-boundary r q isb) in
      let split : ltb i (length l) ≡ false = ground arith in
      let at : i - length l ≡ q = omega arith in
      let here : length (l ++ take q r) ≡ length l + q =
        omega (arith, length-append l (take q r), cut.left_len) in
      (
        l ++ take q r,
        drop q r,
        rw (broken, e, split, at) (to_left l r (take q r) (drop q r) q cut),
        record {
          joins = rw (append_assoc, cut.joins);
          left_str = append-IsStr l (take q r) hl cut.left_str;
          right_str = cut.right_str;
          meets = rw here (IsBreak-right l r q pos le isb);
        },
      )

  -- For two strings that are not empty `fix_segment_seam` does not panic; the texts that it leaves
  -- are strings, join to the same text, and meet at a valid splitting point of it.
  pub fix_segment_seam_lem :
      (l r : List ℕ)
      → IsStr l
      → IsStr r
      → 0 < length l
      → 0 < length r
      → (l' : List ℕ) × (r' : List ℕ) × (fix_segment_seam l r ≡ some (l', r'))
        × MeetAtBreak (l ++ r) l' r'
  unfolding fix_segment_seam
  fix_segment_seam_lem l r hl hr a b =
      elim (is_break_cases (length l) (l ++ r) (omega (arith, length-append l r))) [
        | inl whole ↦ (
          l,
          r,
          rw (seam_is_break_lem l r a b, whole),
          record { joins = refl; left_str = hl; right_str = hr; meets = whole },
        )
        | inr broken ↦
            let (i, e, sp) = seam_split_lem l r a b in
            mend l r i hl hr e (rw (seam_is_break_lem l r a b) broken) sp
      ]
