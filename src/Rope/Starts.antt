-- ===== src/Rope/Starts.antt =====
-- The byte at which a char starts, in a text and in a chunk of it, for the conversions of
-- src/rope.rs.
use ropey.Common.{
  ℕ, zero, suc, ◌+◌, ◌-◌, ◌≤◌, ◌<◌, ◌≡◌, sym, ◌∙◌, ap, true, not, List, [], ◌∷◌, ◌++◌, arith,
  length, take, drop, length-append, take-append, append_assoc, inl, inr, subst, ap₂, Bool-cases,
  ◌==◌, ◌||◌, get_elem?-append_right, get_elem?-append_left, ◌⊎◌, ltb,
}
use ropey.Crlf.{is_continuation}
use ropey.Str.{IsStr, is_char_boundary}
use ropey.Str.Cut.{IsCut-at, boundary_between}
use ropey.Str.Utf8.{append-IsStr, IsStr-BeginsChar}
use ropey.Crates.Measures.{count_chars}
use ropey.Crates.Measures.Laws.{tally-append}
use native.Mathlib.Nat.{zero-add, suc-add}

-- The char `i` of the text starts at the byte `b`; its number of chars stands for its end.
pub record StartsAt (t : List ℕ) (i b : ℕ) : Type 0 where
  pub in_range : b ≤ length t
  pub boundary : is_char_boundary t b ≡ true
  pub before : count_chars (take b t) ≡ i

pub StartsAt-parts : (xs ys : List ℕ) → IsStr ys → StartsAt (xs ++ ys) (count_chars xs) (length xs)
StartsAt-parts xs ys h = record {
  in_range = omega (arith, length-append xs ys);
  boundary = boundary_between xs ys h;
  before = ap count_chars (take-append xs ys);
}

-- A character boundary of the whole text is one of the chunk it falls into.
pub boundary-inside :
    (xs chunk ys : List ℕ) (j : ℕ)
    → is_char_boundary (xs ++ (chunk ++ ys)) (length xs + j) ≡ true
    → j ≤ length chunk
    → is_char_boundary chunk j ≡ true
boundary-inside xs chunk ys j h le = elim (Bool-cases (j == 0 || j == length chunk)) [
  | inl edge ↦ ground arith
  | inr inner ↦
      let right = get_elem?-append_right xs (chunk ++ ys) j in
      let left = get_elem?-append_left chunk ys j (ground arith) in
      ground (arith, right, left, length-append xs (chunk ++ ys), length-append chunk ys)
]

-- A position inside a chunk is a position of the whole text.
pub StartsAt-chunk :
    (xs chunk ys : List ℕ) (k : ℕ)
    → IsStr chunk
    → IsStr ys
    → is_char_boundary chunk k ≡ true
    → StartsAt (xs ++ (chunk ++ ys)) (count_chars xs + count_chars (take k chunk)) (length xs + k)
StartsAt-chunk xs chunk ys k hc hy bound =
    let cut = IsCut-at chunk k hc bound in
    let l = take k chunk in
    let r = drop k chunk in
    let whole : xs ++ (chunk ++ ys) ≡ (xs ++ l) ++ (r ++ ys) =
      ap (λ t. xs ++ (t ++ ys)) (sym cut.joins)
      ∙ (ap (λ t. xs ++ t) (append_assoc l r ys) ∙ sym (append_assoc xs l (r ++ ys))) in
    let chars : count_chars (xs ++ l) ≡ count_chars xs + count_chars l = tally-append _ xs l in
    let len : length (xs ++ l) ≡ length xs + k = omega (arith, length-append xs l, cut.left_len) in
    subst (λ t. StartsAt t (count_chars xs + count_chars l) (length xs + k)) (sym whole)
      (subst (λ n. StartsAt ((xs ++ l) ++ (r ++ ys)) (count_chars xs + count_chars l) n) len
        (subst (λ c. StartsAt ((xs ++ l) ++ (r ++ ys)) c (length (xs ++ l))) chars
          (StartsAt-parts (xs ++ l) (r ++ ys) (append-IsStr r ys cut.right_str hy))))

pub count_chars-take_le : (i : ℕ) (t : List ℕ) → count_chars (take i t) ≤ count_chars t
count_chars-take_le zero t = omega arith
count_chars-take_le (suc i) [] = omega arith
count_chars-take_le (suc i) (b ∷ t) = omega (arith, count_chars-take_le i t)

trichotomy : (a b : ℕ) → (a < b) ⊎ ((a ≡ b) ⊎ (b < a))
trichotomy a b = elim (Bool-cases (ltb a b)) [
  | inl lt ↦ inl (ground arith)
  | inr ge ↦ elim (Bool-cases (a == b)) [
    | inl e ↦ inr (inl (ground arith))
    | inr ne ↦ inr (inr (ground arith))
  ]
]

take-append_add : (xs ys : List ℕ) (n : ℕ) → take (length xs + n) (xs ++ ys) ≡ xs ++ take n ys
take-append_add [] ys n = rw zero-add
take-append_add (x ∷ xs) ys n = rw suc-add (ap (λ t. x ∷ t) (take-append_add xs ys n))

first_counts : (t : List ℕ) (n : ℕ) → IsStr t → 0 < length t → 0 < n → 0 < count_chars (take n t)
first_counts [] n h p q = absurd (omega arith)
first_counts (b ∷ t) zero h p q = absurd (omega arith)
first_counts (b ∷ t) (suc n) h p q = ground (arith, IsStr-BeginsChar (b ∷ t) h)

-- Between two character boundaries stands a char.
count_chars-between :
    (t : List ℕ) (a b : ℕ)
    → IsStr t
    → is_char_boundary t a ≡ true
    → a < b
    → b ≤ length t
    → count_chars (take a t) < count_chars (take b t)
count_chars-between t a b str h lt le =
    let cut = IsCut-at t a str h in
    let len : length t ≡ a + length (drop a t) =
      ap length (sym cut.joins)
      ∙ omega (arith, length-append (take a t) (drop a t), cut.left_len) in
    let place : length (take a t) + (b - a) ≡ b = omega (arith, cut.left_len) in
    let split : take b t ≡ take a t ++ take (b - a) (drop a t) =
      ap₂ take (sym place) (sym cut.joins) ∙ take-append_add (take a t) (drop a t) (b - a) in
    let counts =
      ap count_chars split
      ∙ tally-append (λ b. not (is_continuation b)) (take a t) (take (b - a) (drop a t)) in
    let more = first_counts (drop a t) (b - a) cut.right_str (omega arith) (omega arith) in
    omega (arith, counts, more)

-- A char starts at one byte only.
pub StartsAt-unique : (t : List ℕ) (i a b : ℕ) → IsStr t → StartsAt t i a → StartsAt t i b → a ≡ b
StartsAt-unique t i a b str x y = elim (trichotomy a b) [
  | inl lt ↦
      absurd
        (omega (arith, count_chars-between t a b str x.boundary lt y.in_range, x.before, y.before))
  | inr (inl e) ↦ e
  | inr (inr gt) ↦
      absurd
        (omega (arith, count_chars-between t b a str y.boundary gt x.in_range, x.before, y.before))
]
