-- ===== src/Str/Cut.antt =====
-- Positions that cut a string, by the parts that they make.
use ropey.Common.{
  ℕ, zero, suc, ◌+◌, ◌-◌, ◌≤◌, ◌≡◌, refl, true, inl, inr, some, none, List, [], ◌∷◌, ◌++◌, arith,
  length, take, drop, length-append, length-take, take-append-drop, take-append, drop-append,
  append_assoc, Bool-cases, leb, get_elem?, take_all,
}
use ropey.Str.{IsStr, is_char_boundary, str_slice}
use ropey.Str.Utf8.{
  BeginsChar, IsStr-BeginsChar, boundary-BeginsChar, BeginsChar-boundary, split-IsStr, append-IsStr,
  nil-continues,
}
use ropey.Crlf.{is_break}

-- The two parts of a string that is cut at `i`.
pub record IsCut (text : List ℕ) (i : ℕ) (left right : List ℕ) : Type 0 where
  pub joins : left ++ right ≡ text
  pub left_len : length left ≡ i
  pub left_str : IsStr left
  pub right_str : IsStr right

get_elem?_beyond : (xs : List ℕ) (i : ℕ) → length xs ≤ i → get_elem? xs i ≡ none
get_elem?_beyond [] i h = refl
get_elem?_beyond (x ∷ xs) zero h = absurd (omega arith)
get_elem?_beyond (x ∷ xs) (suc i) h = get_elem?_beyond xs i (omega arith)

pub boundary-le-length : (text : List ℕ) (i : ℕ) → is_char_boundary text i ≡ true → i ≤ length text
boundary-le-length text i h = elim (Bool-cases (leb i (length text))) [
  | inl inside ↦ ground arith
  | inr beyond ↦ ground (arith, get_elem?_beyond text i)
]

-- A character boundary of a string cuts it into two strings.
pub IsCut-at :
    (text : List ℕ) (i : ℕ)
    → IsStr text
    → is_char_boundary text i ≡ true
    → IsCut text i (take i text) (drop i text)
IsCut-at text zero h b = record {
  joins = refl;
  left_len = refl;
  left_str = nil-continues;
  right_str = h;
}
IsCut-at text (suc i) h b =
    let len : length (take (suc i) text) ≡ suc i =
      omega (arith, length-take (suc i) text, boundary-le-length text (suc i) b) in
    let joins = take-append-drop (suc i) text in
    let begins : BeginsChar (drop (suc i) text) =
      boundary-BeginsChar (take (suc i) text) (drop (suc i) text) (omega arith)
        (rw (len, joins) b) in
    let (l, r) = split-IsStr (take (suc i) text) (drop (suc i) text) begins (rw joins h) in
    record { joins = joins; left_len = len; left_str = l; right_str = r }

-- Between two strings stands a character boundary.
pub boundary_between : (xs ys : List ℕ) → IsStr ys → is_char_boundary (xs ++ ys) (length xs) ≡ true
boundary_between xs ys h = BeginsChar-boundary xs ys (IsStr-BeginsChar ys h)

pub boundary_end : (xs : List ℕ) → is_char_boundary xs (length xs) ≡ true
boundary_end xs = ground arith

pub second_boundary :
    (xs ys zs : List ℕ)
    → IsStr zs
    → is_char_boundary (xs ++ (ys ++ zs)) (length xs + length ys) ≡ true
second_boundary xs ys zs h = rw (← append_assoc, ← length-append) (boundary_between (xs ++ ys) zs h)

pub str_slice_parts :
    (xs ys zs : List ℕ)
    → IsStr ys
    → IsStr zs
    → str_slice (xs ++ (ys ++ zs)) (length xs) (length xs + length ys) ≡ some ys
unfolding str_slice
str_slice_parts xs ys zs hy hz =
    let first = boundary_between xs (ys ++ zs) (append-IsStr ys zs hy hz) in
    let second : is_char_boundary (xs ++ (ys ++ zs)) (length xs + length ys) ≡ true =
      rw (← append_assoc, ← length-append) (boundary_between (xs ++ ys) zs hz) in
    let len : length xs + length ys - length xs ≡ length ys = omega arith in
    let order : leb (length xs) (length xs + length ys) ≡ true = ground arith in
    rw (order, first, second, drop-append, len, take-append)

pub str_slice_back :
    (xs ys : List ℕ) → IsStr ys → str_slice (xs ++ ys) (length xs) (length (xs ++ ys)) ≡ some ys
unfolding str_slice
str_slice_back xs ys h =
    let first = boundary_between xs ys h in
    let len : length (xs ++ ys) - length xs ≡ length ys = omega (arith, length-append xs ys) in
    let order : leb (length xs) (length (xs ++ ys)) ≡ true = ground (arith, length-append xs ys) in
    rw (order, first, boundary_end (xs ++ ys), drop-append, len, take_all)

pub str_slice_front : (xs ys : List ℕ) → IsStr ys → str_slice (xs ++ ys) 0 (length xs) ≡ some xs
unfolding str_slice
str_slice_front xs ys h =
    let second = boundary_between xs ys h in
    let len : length xs - 0 ≡ length xs = omega arith in
    let order : leb 0 (length xs) ≡ true = ground arith in rw (order, second, len, take-append)

-- A valid splitting point is a character boundary.
pub break-boundary : (t : List ℕ) (i : ℕ) → is_break i t ≡ some true → is_char_boundary t i ≡ true
unfolding is_break
break-boundary t i h = ground arith

-- The two slices at a position that cuts a string.
pub slices_at :
    (t : List ℕ) (i : ℕ)
    → IsCut t i (take i t) (drop i t)
    → (str_slice t i (length t) ≡ some (drop i t)) × (str_slice t 0 i ≡ some (take i t))
slices_at t i cut = (
  rw (cut.joins, cut.left_len) at (str_slice_back (take i t) (drop i t) cut.right_str),
  rw (cut.joins, cut.left_len) at (str_slice_front (take i t) (drop i t) cut.right_str),
)
