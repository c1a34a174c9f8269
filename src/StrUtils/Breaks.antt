-- ===== src/StrUtils/Breaks.antt =====
-- The line breaks of Unicode that end a string, for the functions of src/str_utils.rs: a
-- description apart from the literals of the code.
use ropey.Common.{
  ℕ, zero, suc, get_elem?, take, some, some-injective, ◌≡◌, ◌⊎◌, inl, inr, refl, ap, true, false,
  List, [], ◌∷◌, ◌==◌, arith, Bool-cases,
}
use ropey.Crates.Measures.Seams.{and_false}
use ropey.Crates.Measures.Laws.{cuts_crlf, ends_cr}
use ropey.StrUtils.{same_bytes, matches, all_breaks}

pub data IsLineBreak : List ℕ → Type 0 where
  line_feed : IsLineBreak (0x0A ∷ [])
  vertical_tab : IsLineBreak (0x0B ∷ [])
  form_feed : IsLineBreak (0x0C ∷ [])
  carriage_return : IsLineBreak (0x0D ∷ [])
  cr_lf : IsLineBreak (0x0D ∷ 0x0A ∷ [])
  next_line : IsLineBreak (0xC2 ∷ 0x85 ∷ [])
  line_separator : IsLineBreak (0xE2 ∷ 0x80 ∷ 0xA8 ∷ [])
  paragraph_separator : IsLineBreak (0xE2 ∷ 0x80 ∷ 0xA9 ∷ [])

pub same_bytes-true : (xs ys : List ℕ) → same_bytes xs ys ≡ true → xs ≡ ys
unfolding same_bytes
same_bytes-true [] [] h = refl
same_bytes-true [] (_ ∷ _) h = absurd (ground arith)
same_bytes-true (_ ∷ _) [] h = absurd (ground arith)
same_bytes-true (x ∷ xs) (y ∷ ys) h = elim (Bool-cases (same_bytes xs ys)) [
  | inl same ↦ rw (same_bytes-true xs ys same) (ap (λ z. z ∷ ys) (ground (arith, h)))
  | inr differ ↦ absurd (ground (arith, h))
]

-- A line break of the code's literals, of which CRLF is none.
pub IsLineBreak-literal :
    (t : List ℕ) → IsLineBreak t → (matches t all_breaks ≡ true) ⊎ (t ≡ 0x0D ∷ 0x0A ∷ [])
unfolding matches same_bytes
IsLineBreak-literal _ line_feed = inl refl
IsLineBreak-literal _ vertical_tab = inl refl
IsLineBreak-literal _ form_feed = inl refl
IsLineBreak-literal _ carriage_return = inl refl
IsLineBreak-literal _ cr_lf = inr refl
IsLineBreak-literal _ next_line = inl refl
IsLineBreak-literal _ line_separator = inl refl
IsLineBreak-literal _ paragraph_separator = inl refl

unfoldable pub AllOf : (List ℕ → Type 0) → List (List ℕ) → Type 0
AllOf P [] = Unit {0}
AllOf P (literal ∷ literals) = P literal × AllOf P literals

-- What holds of each literal holds of a string that `matches` them.
pub matches_each :
    (P : List ℕ → Type 0) (t : List ℕ) (literals : List (List ℕ))
    → AllOf P literals
    → matches t literals ≡ true
    → P t
unfolding matches AllOf
matches_each P t [] all h = absurd (ground arith)
matches_each P t (literal ∷ literals) all h = elim (Bool-cases (same_bytes t literal)) [
  | inl same ↦ rw (same_bytes-true t literal same) all.0
  | inr differ ↦ matches_each P t literals all.1 (rw differ at h)
]

pub literal-IsLineBreak : (t : List ℕ) → matches t all_breaks ≡ true → IsLineBreak t
unfolding AllOf
literal-IsLineBreak t h =
    matches_each IsLineBreak t all_breaks
      (
        line_feed,
        (
          carriage_return,
          (vertical_tab, (form_feed, (next_line, (line_separator, (paragraph_separator, tt))))),
        ),
      )
      h

-- Of the line breaks only an LF belongs to a CR in front of it.
pub cuts_crlf-other :
    (r t : List ℕ) → IsLineBreak t → same_bytes t (0x0A ∷ []) ≡ false → cuts_crlf r t ≡ false
unfolding same_bytes
cuts_crlf-other r _ line_feed other = absurd (ground arith)
cuts_crlf-other r _ vertical_tab other = and_false (ends_cr r)
cuts_crlf-other r _ form_feed other = and_false (ends_cr r)
cuts_crlf-other r _ carriage_return other = and_false (ends_cr r)
cuts_crlf-other r _ cr_lf other = and_false (ends_cr r)
cuts_crlf-other r _ next_line other = and_false (ends_cr r)
cuts_crlf-other r _ line_separator other = and_false (ends_cr r)
cuts_crlf-other r _ paragraph_separator other = and_false (ends_cr r)

pub ends_cr-take :
    (t : List ℕ) (j b : ℕ) → get_elem? t j ≡ some b → ends_cr (take (suc j) t) ≡ (b == 0x0D)
ends_cr-take [] j b e = absurd (ground arith)
ends_cr-take (x ∷ t) zero b e = ap (λ y. y == 0x0D) (some-injective x b e)
ends_cr-take (x ∷ []) (suc j) b e = absurd (ground arith)
ends_cr-take (x ∷ (y ∷ t)) (suc j) b e = ends_cr-take (y ∷ t) j b e
