-- ===== src/Crlf/Joined.antt =====
-- Breaks of two byte strings and of the joined one, and `seam_is_break` of src/crlf.rs.
use ropey.Common.{
  ℕ, zero, suc, ◌+◌, ◌-◌, ◌≤◌, ◌<◌, ◌≡◌, sym, inl, inr, List, ◌++◌, arith, length, length-append,
  take-append, drop-append, take_all, Bool-cases, ltb, get_elem?-append_middle,
  get_elem?-append_left, get_elem?_total,
}
use ropey.Crlf.{is_break, seam_is_break}
use ropey.Crlf.Breaks.{IsBreak, IsBreak-zero, IsBreak-length}
use ropey.Crlf.Window.{window, is_break-window}
use native.Mathlib.Nat.{zero-add}

is_break-append_left :
    (l r : List ℕ) (p : ℕ) → 0 < p → p < length l → is_break p (l ++ r) ≡ is_break p l
is_break-append_left l r p a b =
    let same : window (length l) 0 (l ++ r) ≡ l = take-append l r in
    sym (
      rw (same, zero-add) at
        (is_break-window (length l) 0 (l ++ r) p (omega (arith, length-append l r)) a b))

is_break-append_right :
    (l r : List ℕ) (q : ℕ) → 0 < q → q < length r → is_break (length l + q) (l ++ r) ≡ is_break q r
is_break-append_right l r q a b =
    let same : window (length r) (length l) (l ++ r) ≡ r = rw drop-append (take_all r) in
    sym (
      rw same at
        (is_break-window (length r) (length l) (l ++ r) q (omega (arith, length-append l r)) a b))

-- A break of the left part, but for its end, is a break of the whole.
pub IsBreak-left : (l r : List ℕ) (p : ℕ) → p < length l → IsBreak p l → IsBreak p (l ++ r)
IsBreak-left l r zero h b = IsBreak-zero (l ++ r)
IsBreak-left l r (suc p) h b = rw (is_break-append_left l r (suc p) (omega arith) h) b

-- A break of the right part, but for its start, is a break of the whole.
pub IsBreak-right :
    (l r : List ℕ) (q : ℕ) → 0 < q → q ≤ length r → IsBreak q r → IsBreak (length l + q) (l ++ r)
IsBreak-right l r q a h b = elim (Bool-cases (ltb q (length r))) [
  | inl inside ↦ rw (is_break-append_right l r q a (ground arith)) b
  | inr end ↦
      let here : length l + q ≡ length (l ++ r) = ground (arith, length-append l r) in
      rw here (IsBreak-length (l ++ r))
]

-- The seam between two byte strings that are not empty is a break exactly if its position is a
-- break of the joined string.
pub seam_is_break_lem :
    (l r : List ℕ) → 0 < length l → 0 < length r → seam_is_break l r ≡ is_break (length l) (l ++ r)
unfolding seam_is_break is_break
seam_is_break_lem l r a b = ground (
  arith,
  get_elem?-append_middle l r,
  get_elem?-append_left l r (length l - 1),
  get_elem?_total r 0,
  get_elem?_total l (length l - 1),
  length-append l r,
)
