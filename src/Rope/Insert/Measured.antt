-- ===== src/Rope/Insert/Measured.antt =====
-- The text infos that the closures of `insert_internal` (src/rope.rs) compute without a scan.
use ropey.Crates.Measures.Seams.{and_false, is_at-last, cuts_crlf-front}
use ropey.Common.{
  ℕ, ◌+◌, ◌-◌, ◌%◌, ◌<◌, ◌≡◌, refl, sym, ◌∙◌, ap, ap₂, Bool, true, false, not, ◌&&◌, some, List, [],
  ◌∷◌, ◌++◌, arith, ltb, leb, if◌then◌else◌, length, length-append, get_elem?-append_middle, ◌==◌,
  ◌>>=◌, append-nil,
}
use ropey.Crlf.{cr, lf, is_continuation}
use ropey.Str.{IsStr, start}
use ropey.Crates.{Crates, IsDocumented}
use ropey.Crates.Measures.{count_breaks, byte_is}
use ropey.Crates.Measures.Laws.{ends_cr, cuts_crlf, count_breaks-append, tally-append}
use ropey.TextInfo.{word, add}
use ropey.TextInfo.Laws.{measure, ext, from_str-measure}
use ropey.Rope.Insert.{
  ◌&&?◌, is_at, joins_left, parts_pair, joins_right, seam_breaks, inserted_info,
}

pub and_then : (a b : Bool) → (some a &&? some b) ≡ some (a && b)
and_then true b = refl
and_then false b = refl

is_at-first : (t : List ℕ) → 0 < length t → is_at t 0 lf ≡ some (byte_is t 0 lf)
is_at-first [] h = absurd (omega arith)
is_at-first (b ∷ t) h = refl

is_at-seam : (l r : List ℕ) → 0 < length r → is_at (l ++ r) (length l) lf ≡ some (byte_is r 0 lf)
is_at-seam l r h =
    ap (λ o. o >>= λ x. some (x == lf)) (get_elem?-append_middle l r) ∙ is_at-first r h

joins_left_lem :
    (l r ins : List ℕ)
    → 0 < length ins
    → joins_left (l ++ r) (length l) ins ≡ some (cuts_crlf l ins)
joins_left_lem [] r ins h = refl
joins_left_lem (x ∷ l) r ins h =
    let inside : ltb 0 (length (x ∷ l)) ≡ true = ground arith in
    ap₂ (λ a b. some a &&? b) inside
      (ap₂ (λ a b. a &&? b) (is_at-last (x ∷ l) r (omega arith)) (is_at-first ins h)
        ∙ and_then (ends_cr (x ∷ l)) (byte_is ins 0 lf))

parts_pair_lem : (l r : List ℕ) → parts_pair (l ++ r) (length l) ≡ some (cuts_crlf l r)
parts_pair_lem [] r = refl
parts_pair_lem (x ∷ l) [] =
    let inside : ltb 0 (length (x ∷ l)) ≡ true = ground arith in
    let outside : ltb (length (x ∷ l)) (length ((x ∷ l) ++ [])) ≡ false =
      ground (arith, length-append (x ∷ l) []) in
    ap₂
      (λ a b.
        some a
        &&? (some b
            &&? (is_at ((x ∷ l) ++ []) (length (x ∷ l) - 1) cr
                &&? is_at ((x ∷ l) ++ []) (length (x ∷ l)) lf)))
      inside outside
    ∙ ap some (sym (and_false (ends_cr (x ∷ l))))
parts_pair_lem (x ∷ l) (y ∷ r) =
    let inside : ltb 0 (length (x ∷ l)) ≡ true = ground arith in
    let inner : ltb (length (x ∷ l)) (length ((x ∷ l) ++ y ∷ r)) ≡ true =
      ground (arith, length-append (x ∷ l) (y ∷ r)) in
    ap₂ (λ a b. some a &&? b) inside
      (ap₂ (λ a b. some a &&? b) inner
        (ap₂ (λ a b. a &&? b) (is_at-last (x ∷ l) (y ∷ r) (omega arith))
            (is_at-seam (x ∷ l) (y ∷ r) (omega arith))
          ∙ and_then (ends_cr (x ∷ l)) (byte_is (y ∷ r) 0 lf)))

joins_right_lem :
    (l r ins : List ℕ)
    → 0 < length ins
    → joins_right (l ++ r) (length l) ins ≡ some (cuts_crlf ins r)
joins_right_lem l [] ins h =
    let outside : ltb (length l) (length (l ++ [])) ≡ false = ground (arith, length-append l []) in
    ap (λ b. some b &&? (is_at ins (length ins - 1) cr &&? is_at (l ++ []) (length l) lf)) outside
    ∙ ap some (sym (and_false (ends_cr ins)))
joins_right_lem l (y ∷ r) ins h =
    let inner : ltb (length l) (length (l ++ y ∷ r)) ≡ true =
      ground (arith, length-append l (y ∷ r)) in
    ap₂ (λ a b. some a &&? b) inner
      (ap₂ (λ a b. a &&? b) (rw append-nil at (is_at-last ins [] h))
          (is_at-seam l (y ∷ r) (omega arith))
        ∙ and_then (ends_cr ins) (byte_is (y ∷ r) 0 lf))

abbrev one_if : Bool → ℕ
one_if b = if b then 1 else 0

seam_breaks_lem :
    (j p r : Bool) (text left right ins rest new : ℕ)
    → text + one_if p ≡ left + right
    → rest + one_if r ≡ ins + right
    → new + one_if j ≡ left + rest
    → seam_breaks ((text % word + ins % word) % word) j p r ≡ new % word
seam_breaks_lem true true true t l r i e n h k m = omega arith
seam_breaks_lem true true false t l r i e n h k m = omega arith
seam_breaks_lem true false true t l r i e n h k m = omega arith
seam_breaks_lem true false false t l r i e n h k m = omega arith
seam_breaks_lem false true true t l r i e n h k m = omega arith
seam_breaks_lem false true false t l r i e n h k m = omega arith
seam_breaks_lem false false true t l r i e n h k m = omega arith
seam_breaks_lem false false false t l r i e n h k m = omega arith

-- For a leaf with an accurate text info, an insertion that is not empty, and strings that are not cut
-- inside a code point, the computed text info is the measure of the leaf with the insertion.
pub inserted_info_parts :
    ⦃crates : Crates⦄ (docs : IsDocumented crates) (l r ins : List ℕ)
    → IsStr l
    → IsStr r
    → IsStr ins
    → 0 < length ins
    → inserted_info (measure (l ++ r)) (l ++ r) (length l) ins ≡ some (measure (l ++ (ins ++ r)))
unfolding inserted_info add
inserted_info_parts docs l r ins hl hr hi pos =
    let whole = count_breaks-append start l r hl in
    let rest = count_breaks-append start ins r hi in
    let all = rw (cuts_crlf-front l ins r pos) at (count_breaks-append start l (ins ++ r) hl) in
    let breaks =
      seam_breaks_lem (cuts_crlf l ins) (cuts_crlf l r) (cuts_crlf ins r) (count_breaks (l ++ r))
        (count_breaks l) (count_breaks r) (count_breaks ins) (count_breaks (ins ++ r))
        (count_breaks (l ++ (ins ++ r))) whole rest all in
    rw
      (
        joins_left_lem l r ins pos,
        parts_pair_lem l r,
        joins_right_lem l r ins pos,
        from_str-measure docs ins hi,
      )
      (ap some (
        ext _ _ (omega (arith, length-append l r, length-append l (ins ++ r), length-append ins r))
          (omega (
            arith,
            tally-append (λ b. not (is_continuation b)) l r,
            tally-append (λ b. not (is_continuation b)) l (ins ++ r),
            tally-append (λ b. not (is_continuation b)) ins r,
          ))
          (omega (
            arith,
            tally-append (λ b. leb 0xF0 b) l r,
            tally-append (λ b. leb 0xF0 b) l (ins ++ r),
            tally-append (λ b. leb 0xF0 b) ins r,
          ))
          breaks))
