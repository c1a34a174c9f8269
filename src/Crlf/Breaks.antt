-- ===== src/Crlf/Breaks.antt =====
-- The searches of src/crlf.rs for a break on each side.
use ropey.Common.{
  ℕ, zero, suc, ◌+◌, ◌-◌, ◌≤◌, ◌<◌, ◌≡◌, refl, ◌⊎◌, inl, inr, Bool, true, false, some, List, arith,
  ◌==◌, ◌||◌, Bool-cases, ltb, length, get_elem?_total,
}
use ropey.Crlf.{splits, is_break, walk_back, prev_break, walk_forward, next_break}

abbrev pub IsBreak : ℕ → List ℕ → Type 0
IsBreak i t = is_break i t ≡ some true

-- No break lies strictly between `a` and `b`.
abbrev pub NoneBetween : ℕ → ℕ → List ℕ → Type 0
NoneBetween a b t = (j : ℕ) → a < j → j < b → is_break j t ≡ some false

pub is_break_total : (i : ℕ) (t : List ℕ) → i ≤ length t → (b : Bool) × (is_break i t ≡ some b)
unfolding is_break
is_break_total i t h = elim (Bool-cases (i == 0 || i == length t)) [
  | inl edge ↦ (true, rw edge)
  | inr inside ↦
      let (b, eb) = get_elem?_total t i (ground arith) in
      let (a, ea) = get_elem?_total t (i - 1) (ground arith) in (splits a b, rw (inside, eb, ea))
]

-- A position in range is a break, or is known not to be one.
pub is_break_cases :
    (i : ℕ) (t : List ℕ) → i ≤ length t → (is_break i t ≡ some true) ⊎ (is_break i t ≡ some false)
is_break_cases i t h = by_value (is_break_total i t h)
  where
    by_value :
        ((b : Bool) × (is_break i t ≡ some b))
        → (is_break i t ≡ some true) ⊎ (is_break i t ≡ some false)
    by_value (true, e) = inl e
    by_value (false, e) = inr e

pub IsBreak-zero : (t : List ℕ) → IsBreak 0 t
unfolding is_break
IsBreak-zero t = refl

pub IsBreak-length : (t : List ℕ) → IsBreak (length t) t
unfolding is_break
IsBreak-length t = ground arith

NoneBetween-suc :
    (r k : ℕ) (t : List ℕ) → NoneBetween r k t → is_break k t ≡ some false → NoneBetween r (suc k) t
NoneBetween-suc r k t h e j p q = elim (Bool-cases (j == k)) [
  | inl same ↦ let same' : j ≡ k = ground arith in rw same' e
  | inr other ↦ h j p (ground arith)
]

pub NoneBetween-join :
    (a m b : ℕ) (t : List ℕ)
    → NoneBetween a m t
    → is_break m t ≡ some false
    → NoneBetween m b t
    → NoneBetween a b t
NoneBetween-join a m b t h e k j p q = elim (Bool-cases (ltb m j)) [
  | inl after ↦ k j (ground arith) q
  | inr before ↦ NoneBetween-suc a m t h e j p (ground arith)
]

-- A position that is no break is not the end.
pub lt_of_not_break : (i : ℕ) (t : List ℕ) → i ≤ length t → is_break i t ≡ some false → i < length t
lt_of_not_break i t h e = elim (Bool-cases (i == length t)) [
  | inl end ↦ let end' : i ≡ length t = ground arith in cc (IsBreak-length t, end')
  | inr inside ↦ ground arith
]

pub next_break-length : (i : ℕ) (t : List ℕ) → i ≡ length t → next_break i t ≡ some (length t)
unfolding next_break
next_break-length i t h = ground arith

walk_back_lem :
    (k : ℕ) (t : List ℕ)
    → k ≤ length t
    → (r : ℕ) × (walk_back k t ≡ some r) × (r ≤ k) × IsBreak r t × NoneBetween r (suc k) t
unfolding walk_back
walk_back_lem zero t h =
    (0, rw (IsBreak-zero t), omega arith, IsBreak-zero t, λ j p q. absurd (omega arith))
walk_back_lem (suc k) t h = elim (is_break_cases (suc k) t h) [
  | inl found ↦ (suc k, rw found, omega arith, found, λ j p q. absurd (omega arith))
  | inr passed ↦
      let (r, e, le, isb, noneb) = walk_back_lem k t (omega arith) in
      (r, rw passed e, omega arith, isb, NoneBetween-suc r (suc k) t noneb passed)
]

-- Before a position `i > 0` of the text, `prev_break` finds the last break and does not panic.
pub prev_break_lem :
    (i : ℕ) (t : List ℕ)
    → 0 < i
    → i ≤ length t
    → (r : ℕ) × (prev_break i t ≡ some r) × (r < i) × IsBreak r t × NoneBetween r i t
unfolding prev_break
prev_break_lem zero t p h = absurd (omega arith)
prev_break_lem (suc k) t p h =
    let (r, e, le, isb, noneb) = walk_back_lem k t (omega arith) in
    (r, ground arith, omega arith, isb, noneb)

walk_forward_lem :
    (fuel i : ℕ) (t : List ℕ)
    → i ≤ length t
    → length t < fuel + i
    → (r : ℕ) × (walk_forward fuel i t ≡ some r)
      × (i ≤ r)
      × (r ≤ length t)
      × IsBreak r t
      × ((j : ℕ) → i ≤ j → j < r → is_break j t ≡ some false)
unfolding walk_forward
walk_forward_lem zero i t h f = absurd (omega arith)
walk_forward_lem (suc fuel) i t h f = elim (is_break_cases i t h) [
  | inl found ↦ (i, rw found, omega arith, h, found, λ j p q. absurd (omega arith))
  | inr passed ↦
      let inside : i < length t = lt_of_not_break i t h passed in
      let (r, e, ge, le, isb, noneb) =
        walk_forward_lem fuel (i + 1) t (omega arith) (omega arith) in
      (
        r,
        rw passed e,
        omega arith,
        le,
        isb,
        λ j p q. elim (Bool-cases (j == i)) [
          | inl same ↦ let same' : j ≡ i = ground arith in rw same' passed
          | inr other ↦ noneb j (ground arith) q
        ],
      )
]

-- After a position `i < length t`, `next_break` finds the first break and does not panic.
pub next_break_lem :
    (i : ℕ) (t : List ℕ)
    → i < length t
    → (r : ℕ) × (next_break i t ≡ some r)
      × (i < r)
      × (r ≤ length t)
      × IsBreak r t
      × NoneBetween i r t
unfolding next_break
next_break_lem i t h =
    let (r, e, ge, le, isb, noneb) =
      walk_forward_lem (suc (length t)) (i + 1) t (omega arith) (omega arith) in
    let inside : (i == length t) ≡ false = ground arith in
    (r, rw inside e, omega arith, le, isb, λ j p q. noneb j (omega arith) q)
