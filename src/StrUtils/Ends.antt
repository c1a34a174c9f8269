-- ===== src/StrUtils/Ends.antt =====
-- src/str_utils.rs: the last code point of a string, and the strings that end with a line break.
use ropey.Common.{
  ℕ, zero, suc, ◌+◌, ◌-◌, ◌≡◌, inl, inr, refl, ◌∙◌, true, false, some, List, [], ◌∷◌, ◌++◌, length,
  get_elem?, ◌==◌, arith, Bool-cases, length-append, append_assoc, get_elem?-append_right, ◌<◌,
}
use ropey.Crlf.{is_continuation}
use ropey.Str.{IsStr, continues, next_byte, first_byte, is_char_boundary}
use ropey.Str.Cut.{str_slice_back, boundary_between}
use ropey.Node.{floor_boundary}
use ropey.StrUtils.Breaks.{IsLineBreak, IsLineBreak-literal, AllOf, matches_each}
use ropey.StrUtils.{
  same_bytes, matches, unicode_breaks, all_breaks, last_char, ends_with_line_break,
}

pub floor-boundary : (t : List ℕ) (i : ℕ) → is_char_boundary t (floor_boundary t i) ≡ true
unfolding floor_boundary
floor-boundary t zero = refl
floor-boundary t (suc i) = elim (Bool-cases (is_char_boundary t (suc i))) [
  | inl here ↦ rw (here, here) refl
  | inr below ↦ rw below (floor-boundary t i)
]

floor-here : (t : List ℕ) (i : ℕ) → is_char_boundary t i ≡ true → floor_boundary t i ≡ i
unfolding floor_boundary
floor-here t zero h = refl
floor-here t (suc i) h = rw h refl

floor-below :
    (t : List ℕ) (i : ℕ)
    → is_char_boundary t (suc i) ≡ false
    → floor_boundary t (suc i) ≡ floor_boundary t i
unfolding floor_boundary
floor-below t i h = rw h refl

floor-back_one : (r : List ℕ) (b : ℕ) → IsStr (b ∷ []) → last_char (r ++ (b ∷ [])) ≡ length r
floor-back_one r b h =
    let last : length (r ++ (b ∷ [])) - 1 ≡ length r = omega (arith, length-append r (b ∷ [])) in
    rw last (floor-here (r ++ (b ∷ [])) (length r) (boundary_between r (b ∷ []) h))

continuation_at :
    (r s : List ℕ) (c i k : ℕ)
    → i ≡ length r + k
    → get_elem? s (suc k) ≡ some c
    → is_continuation c ≡ true
    → suc k < length s
    → is_char_boundary (r ++ s) (suc i) ≡ false
continuation_at r s c i k place at cont inside =
    let next : suc i ≡ length r + suc k = omega (arith, place) in
    let byte : get_elem? (r ++ s) (suc i) ≡ some c =
      rw next (get_elem?-append_right r s (suc k) ∙ at) in
    let short : (suc i == length (r ++ s)) ≡ false = ground (arith, length-append r s) in
    ground (arith, short, byte, cont)

floor-back_two :
    (r : List ℕ) (b c : ℕ)
    → IsStr (b ∷ c ∷ [])
    → is_continuation c ≡ true
    → last_char (r ++ (b ∷ c ∷ [])) ≡ length r
floor-back_two r b c h cont =
    let s = b ∷ c ∷ [] in
    let last : length (r ++ s) - 1 ≡ suc (length r) = omega (arith, length-append r s) in
    rw last (
      floor-below (r ++ s) (length r)
        (continuation_at r s c (length r) 0 (omega arith) refl cont (omega arith))
      ∙ floor-here (r ++ s) (length r) (boundary_between r s h))

floor-back_three :
    (r : List ℕ) (b c d : ℕ)
    → IsStr (b ∷ c ∷ d ∷ [])
    → is_continuation c ≡ true
    → is_continuation d ≡ true
    → last_char (r ++ (b ∷ c ∷ d ∷ [])) ≡ length r
floor-back_three r b c d h cont_c cont_d =
    let s = b ∷ c ∷ d ∷ [] in
    let last : length (r ++ s) - 1 ≡ suc (suc (length r)) = omega (arith, length-append r s) in
    rw last (
      floor-below (r ++ s) (suc (length r))
        (continuation_at r s d (suc (length r)) 1 (omega arith) refl cont_d (omega arith))
      ∙ (floor-below (r ++ s) (length r)
            (continuation_at r s c (length r) 0 (omega arith) refl cont_c (omega arith))
          ∙ floor-here (r ++ s) (length r) (boundary_between r s h)))

-- The last code point of a string that ends in a line break is that line break.
last_char-break :
    (r t : List ℕ) → matches t all_breaks ≡ true → IsStr t × (last_char (r ++ t) ≡ length r)
unfolding continues next_byte first_byte AllOf
last_char-break r t h =
    let fact : List ℕ → Type 0 = λ t. IsStr t × (last_char (r ++ t) ≡ length r) in
    let three : AllOf fact ((0xE2 ∷ 0x80 ∷ 0xA8 ∷ []) ∷ (0xE2 ∷ 0x80 ∷ 0xA9 ∷ []) ∷ []) = (
      (refl, floor-back_three r 0xE2 0x80 0xA8 refl refl refl),
      ((refl, floor-back_three r 0xE2 0x80 0xA9 refl refl refl), tt),
    ) in
    let unicode : AllOf fact unicode_breaks = (
      (refl, floor-back_one r 0x0B refl),
      ((refl, floor-back_one r 0x0C refl), ((refl, floor-back_two r 0xC2 0x85 refl refl), three)),
    ) in
    matches_each fact t all_breaks
      ((refl, floor-back_one r 0x0A refl), ((refl, floor-back_one r 0x0D refl), unicode)) h

some_tail : (r t : List ℕ) → matches t all_breaks ≡ true → (length (r ++ t) == 0) ≡ false
unfolding matches same_bytes
some_tail r [] h = absurd (ground arith)
some_tail r (b ∷ t) h = ground (arith, length-append r (b ∷ t))

ends-literal :
    (r t : List ℕ) → matches t all_breaks ≡ true → ends_with_line_break (r ++ t) ≡ some true
unfolding ends_with_line_break
ends-literal r t h =
    let (str, at) = last_char-break r t h in
    rw (some_tail r t h, at, str_slice_back r t str, h) refl

-- A string ends with a line break if one of U+000A to U+000D, U+0085, U+2028 and U+2029, or a CRLF
-- pair, stands at its end, whatever stands in front of it.
pub ends_with_line_break-after :
    (r t : List ℕ) → IsLineBreak t → ends_with_line_break (r ++ t) ≡ some true
unfolding matches same_bytes
ends_with_line_break-after r t h = elim (IsLineBreak-literal t h) [
  | inl literal ↦ ends-literal r t literal
  | inr pair ↦
      rw (pair, ← append_assoc r (0x0D ∷ []) (0x0A ∷ []))
        (ends-literal (r ++ (0x0D ∷ [])) (0x0A ∷ []) refl)
]
