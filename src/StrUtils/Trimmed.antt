-- ===== src/StrUtils/Trimmed.antt =====
-- src/str_utils.rs: the string without the line break at its end.
use ropey.Common.{
  ℕ, zero, suc, ◌-◌, ◌≡◌, ◌⊎◌, inl, inr, refl, ap, ◌∙◌, true, false, some, List, [], ◌∷◌, ◌++◌,
  take, drop, length, get_elem?, ◌==◌, ltb, arith, Bool-cases, length-append, some-injective, ◌>>=◌,
  if◌then◌else◌, get_elem?_total,
}
use ropey.Str.{IsStr, is_char_boundary, str_slice}
use ropey.Str.Cut.{IsCut, IsCut-at, slices_at}
use ropey.StrUtils.{
  same_bytes, matches, all_breaks, follows_cr, last_char, trim_tail, trim_line_break,
  ends_with_line_break,
}
use ropey.StrUtils.Ends.{floor-boundary, ends_with_line_break-after}
use ropey.StrUtils.Breaks.{
  IsLineBreak, line_feed, cr_lf, same_bytes-true, literal-IsLineBreak, cuts_crlf-other,
  ends_cr-take,
}
use ropey.Crates.Measures.Seams.{and_false}
use ropey.Crates.Measures.Laws.{cuts_crlf, ends_cr}

-- The text `rest` in front of the line break `tail` at the end, and what the functions return for
-- it. `tail` is the whole line break: it does not leave the CR of a CRLF pair behind.
pub record IsTrimmed (text rest tail : List ℕ) : Type 0 where
  pub joins : rest ++ tail ≡ text
  pub one_break : IsLineBreak tail
  pub whole : cuts_crlf rest tail ≡ false
  pub trims : trim_line_break text ≡ some rest
  pub ends : ends_with_line_break text ≡ some true

-- A text without a line break at its end, and what the functions return for it.
pub record IsUntouched (text : List ℕ) : Type 0 where
  pub no_break : (rest tail : List ℕ) → IsLineBreak tail → ¬ (rest ++ tail ≡ text)
  pub trims : trim_line_break text ≡ some text
  pub ends : ends_with_line_break text ≡ some false

untouched :
    (t : List ℕ) → trim_line_break t ≡ some t → ends_with_line_break t ≡ some false → IsUntouched t
untouched t trims ends = record {
  no_break = λ rest tail found joins.
      let after : ends_with_line_break t ≡ some true =
        rw joins at (ends_with_line_break-after rest tail found) in
      cc;
  trims = trims;
  ends = ends;
}

IsCut-last :
    (t : List ℕ) → IsStr t → IsCut t (last_char t) (take (last_char t) t) (drop (last_char t) t)
IsCut-last t h = IsCut-at t (last_char t) h (floor-boundary t (length t - 1))

-- Where the last code point is no LF, and a line break, it is cut off.
trim_tail-lone :
    (t tail : List ℕ) (i : ℕ)
    → same_bytes tail (0x0A ∷ []) ≡ false
    → matches tail all_breaks ≡ true
    → trim_tail t i tail ≡ str_slice t 0 i
unfolding trim_tail matches
trim_tail-lone t tail i no_lf h = ground (arith, no_lf, h)

trim_tail-none :
    (t tail : List ℕ) (i : ℕ) → matches tail all_breaks ≡ false → trim_tail t i tail ≡ some t
unfolding trim_tail matches
trim_tail-none t tail i h = ground (arith, h)

drop_byte :
    (t tail : List ℕ) (i c : ℕ)
    → drop (suc i) t ≡ tail
    → get_elem? t i ≡ some c
    → drop i t ≡ c ∷ tail
drop_byte [] tail i c d e = absurd (ground arith)
drop_byte (x ∷ xs) tail zero c d e = let same : x ≡ c = some-injective x c e in rw (same, d) refl
drop_byte (x ∷ xs) tail (suc i) c d e = drop_byte xs tail i c d e

pair_behind :
    (t : List ℕ) (i : ℕ)
    → IsStr t
    → drop (suc i) t ≡ 0x0A ∷ []
    → get_elem? t i ≡ some 0x0D
    → (str_slice t 0 i ≡ some (take i t)) × (take i t ++ (0x0D ∷ 0x0A ∷ []) ≡ t)
pair_behind t i h behind at =
    let boundary : is_char_boundary t i ≡ true = ground (arith, at) in
    let cut = IsCut-at t i h boundary in
    ((slices_at t i cut).1, rw (drop_byte t (0x0A ∷ []) i 0x0D behind at) at cut.joins)

trim-tail_at :
    (t : List ℕ) (i : ℕ)
    → IsCut t i (take i t) (drop i t)
    → i ≡ last_char t
    → (length t == 0) ≡ false
    → (trim_line_break t ≡ trim_tail t i (drop i t))
      × (ends_with_line_break t ≡ some (matches (drop i t) all_breaks))
unfolding trim_line_break ends_with_line_break
trim-tail_at t i cut last some_byte = (
  rw (some_byte, ← last, (slices_at t i cut).0) refl,
  rw (some_byte, ← last, (slices_at t i cut).0) refl,
)

trim_tail-lf :
    (t : List ℕ) (i : ℕ)
    → trim_tail t i (0x0A ∷ [])
      ≡ (do pair ← follows_cr t i; if pair then str_slice t 0 (i - 1) else str_slice t 0 i)
unfolding trim_tail matches same_bytes
trim_tail-lf t i = refl

follows_cr-at :
    (t : List ℕ) (j b : ℕ) → get_elem? t j ≡ some b → follows_cr t (suc j) ≡ some (b == 0x0D)
unfolding follows_cr
follows_cr-at t j b h =
    let back : suc j - 1 ≡ j = omega arith in
    let behind : ltb 0 (suc j) ≡ true = ground arith in rw (behind, back, h) refl

follows_cr-first : (t : List ℕ) → follows_cr t 0 ≡ some false
unfolding follows_cr
follows_cr-first t = refl

-- An LF at the end goes with the CR in front of it.
lf-IsTrimmed :
    (t : List ℕ) (i : ℕ)
    → IsStr t
    → IsCut t i (take i t) (0x0A ∷ [])
    → drop i t ≡ 0x0A ∷ []
    → trim_line_break t ≡ trim_tail t i (0x0A ∷ [])
    → str_slice t 0 i ≡ some (take i t)
    → ends_with_line_break t ≡ some true
    → (rest : List ℕ) × (tail : List ℕ) × IsTrimmed t rest tail
lf-IsTrimmed t zero h cut last trim slice ends = (
  [],
  0x0A ∷ [],
  record {
    joins = cut.joins;
    one_break = line_feed;
    whole = refl;
    trims = trim ∙ (trim_tail-lf t 0 ∙ rw (follows_cr-first t) slice);
    ends = ends;
  },
)
lf-IsTrimmed t (suc j) h cut last trim slice ends =
    let (b, byte) = get_elem?_total t j (
      omega
        (arith, cut.left_len, ap length cut.joins, length-append (take (suc j) t) (0x0A ∷ []))) in
    elim (Bool-cases (b == 0x0D)) [
      | inl is_cr ↦
          let at : get_elem? t j ≡ some 0x0D = ground (arith, byte, is_cr) in
          let (front, joins) = pair_behind t j h last at in
          let back : suc j - 1 ≡ j = omega arith in
          (
            take j t,
            0x0D ∷ 0x0A ∷ [],
            record {
              joins = joins;
              one_break = cr_lf;
              whole = and_false (ends_cr (take j t));
              trims = trim ∙ (trim_tail-lf t (suc j) ∙ rw (follows_cr-at t j 0x0D at, back) front);
              ends = ends;
            },
          )
      | inr other ↦ (
        take (suc j) t,
        0x0A ∷ [],
        record {
          joins = cut.joins;
          one_break = line_feed;
          whole = rw (ends_cr-take t j b byte, other) refl;
          trims = trim ∙ (trim_tail-lf t (suc j) ∙ rw (follows_cr-at t j b byte, other) slice);
          ends = ends;
        },
      )
    ]

-- `trim_line_break` and `ends_with_line_break` do not panic on a string. Either it has no line break
-- at its end, and is returned unchanged, or it has one, which `ends_with_line_break` reports, and is
-- returned without it: one of U+000A to U+000D, U+0085, U+2028 and U+2029, or a CRLF pair, and an LF
-- that stands behind a CR is not taken away alone.
pub trim_line_break_lem :
    (t : List ℕ)
    → IsStr t
    → IsUntouched t ⊎ ((rest : List ℕ) × (tail : List ℕ) × IsTrimmed t rest tail)
unfolding trim_line_break ends_with_line_break
trim_line_break_lem [] h = inl (untouched [] refl refl)
trim_line_break_lem (b ∷ u) h =
    let t = b ∷ u in
    let i = last_char t in
    let cut = IsCut-last t h in
    let slices = slices_at t i cut in
    let (trim, ends) = trim-tail_at t i cut refl (ground arith) in
    elim (Bool-cases (matches (drop i t) all_breaks)) [
      | inr none_last ↦
          inl (untouched t (trim ∙ trim_tail-none t (drop i t) i none_last) (rw none_last at ends))
      | inl a_break ↦ inr (elim (Bool-cases (same_bytes (drop i t) (0x0A ∷ []))) [
        | inl is_lf ↦
            let last = same_bytes-true (drop i t) (0x0A ∷ []) is_lf in
            lf-IsTrimmed t i h (rw last at cut) last (rw last at trim) slices.1 (rw a_break at ends)
        | inr no_lf ↦ (
          take i t,
          drop i t,
          record {
            joins = cut.joins;
            one_break = literal-IsLineBreak (drop i t) a_break;
            whole =
                cuts_crlf-other (take i t) (drop i t) (literal-IsLineBreak (drop i t) a_break)
                  no_lf;
            trims = trim ∙ (trim_tail-lone t (drop i t) i no_lf a_break ∙ slices.1);
            ends = rw a_break at ends;
          },
        )
      ])
    ]
