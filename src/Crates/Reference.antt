-- ===== src/Crates/Reference.antt =====
-- Concrete functions for the record of Crates, on which the examples run. `IsDocumented` says
-- nothing of `utf16_to_byte_idx`, `lines_to_byte_idx` and `lines_from_byte_idx`: the entries for
-- these three are placeholders, which do not do what the crate documents.
use ropey.Common.{
  ℕ, zero, suc, ◌≤◌, ◌≡◌, refl, true, false, List, [], ◌∷◌, ◌++◌, arith, if◌then◌else◌, length,
  take, drop, min, get_elem?, ◌⊎◌, Bool-cases, inl, some, inr,
}
use ropey.Crlf.{is_continuation}
use ropey.Str.{is_char_boundary}
use ropey.Crates.{Crates, IsDocumented}
use ropey.Crates.Measures.{count_chars, count_surrogates, count_breaks}

abbrev pub to_byte : ℕ → List ℕ → ℕ
to_byte n [] = 0
to_byte zero (b ∷ t) = let inside = to_byte zero t in if is_continuation b then suc inside else 0
to_byte (suc n) (b ∷ t) =
    let inside = to_byte (suc n) t in
    let after = to_byte n t in if is_continuation b then suc inside else suc after

to_byte-le-length : (n : ℕ) (t : List ℕ) → to_byte n t ≤ length t
to_byte-le-length n [] = omega arith
to_byte-le-length zero (b ∷ t) = ground (arith, to_byte-le-length zero t)
to_byte-le-length (suc n) (b ∷ t) =
    ground (arith, to_byte-le-length (suc n) t, to_byte-le-length n t)

to_byte-count : (n : ℕ) (t : List ℕ) → count_chars (take (to_byte n t) t) ≡ min n (count_chars t)
to_byte-count n [] = omega arith
to_byte-count zero (b ∷ t) = ground (arith, to_byte-count zero t)
to_byte-count (suc m) (b ∷ t) = ground (arith, to_byte-count (suc m) t, to_byte-count m t)

Lands : List ℕ → ℕ → Type 0
Lands t i = (i ≡ length t) ⊎ ((b : ℕ) × (get_elem? t i ≡ some b) × (is_continuation b ≡ false))

Lands-suc : (b : ℕ) (t : List ℕ) (i : ℕ) → Lands t i → Lands (b ∷ t) (suc i)
unfolding Lands
Lands-suc b t i (inl h) = inl (omega arith)
Lands-suc b t i (inr h) = inr h

to_byte-Lands : (n : ℕ) (t : List ℕ) → Lands t (to_byte n t)
unfolding Lands
to_byte-Lands n [] = inl refl
to_byte-Lands zero (b ∷ t) = elim (Bool-cases (is_continuation b)) [
  | inl h ↦ rw (h) (Lands-suc b t (to_byte zero t) (to_byte-Lands zero t))
  | inr h ↦ rw (h) (inr (b, refl, h))
]
to_byte-Lands (suc m) (b ∷ t) = elim (Bool-cases (is_continuation b)) [
  | inl h ↦ rw (h) (Lands-suc b t (to_byte (suc m) t) (to_byte-Lands (suc m) t))
  | inr h ↦ rw (h) (Lands-suc b t (to_byte m t) (to_byte-Lands m t))
]

Lands-boundary : (t : List ℕ) (i : ℕ) → Lands t i → is_char_boundary t i ≡ true
unfolding Lands
Lands-boundary t i (inl h) = ground arith
Lands-boundary t i (inr (b, found, h)) = rw (found, h) (ground arith)

to_byte-boundary : (n : ℕ) (t : List ℕ) → is_char_boundary t (to_byte n t) ≡ true
to_byte-boundary n t = Lands-boundary t (to_byte n t) (to_byte-Lands n t)

instance unfoldable pub reference : Crates
reference = record {
  chars_count = count_chars;
  chars_to_byte_idx = λ t n. to_byte n t;
  chars_from_byte_idx = λ t i. count_chars (take i t);
  utf16_count_surrogates = count_surrogates;
  utf16_to_byte_idx = λ t n. to_byte n t;
  lines_count_breaks = count_breaks;
  lines_to_byte_idx = λ t n. n;
  lines_from_byte_idx = λ t n. n;
  insert_from_slice = λ v i s. take i v ++ (s ++ drop i v);
  extend_from_slice = λ v s. v ++ s;
  truncate = λ v n. take n v;
}

pub reference-IsDocumented : IsDocumented reference
unfolding reference
reference-IsDocumented = record {
  chars_count_lem = λ t h. refl;
  to_byte-in_range = λ t i h. to_byte-le-length i t;
  to_byte-boundary = λ t i h. to_byte-boundary i t;
  to_byte-count = λ t i h. to_byte-count i t;
  from_byte-count = λ t i h k l. refl;
  surrogates_count = λ t h. refl;
  breaks_count = λ t h. refl;
  insert_lem = λ v i s h. refl;
  extend_lem = λ v s. refl;
  truncate_lem = λ v n h. refl;
}
