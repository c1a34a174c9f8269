-- ===== src/NodeText/Split.antt =====
-- The position at which `insert_str_split` of src/tree/node_text.rs cuts the new text.
pub mod Eight
use ropey.Common.{
  ℕ, zero, suc, ◌+◌, ◌-◌, ◌/◌, ◌≤◌, ◌<◌, ◌≡◌, refl, ap, true, false, inl, inr, some, none, List, [],
  ◌∷◌, ◌++◌, arith, length, take, drop, ltb, leb, if◌then◌else◌, get_elem?, length-append, min,
  drop_cons, ◌⊎◌, Bool-cases, take_all,
}
use ropey.Crates.{Crates, IsDocumented}
use ropey.Crlf.Breaks.{IsBreak, IsBreak-length}
use ropey.Crlf.Nearest.{IsUnbroken, IsNearest, nearest_internal_break_lem, Chooses}
use ropey.Crlf.Window.{window, length-window, is_break-window}
use ropey.Str.{IsStr, is_char_boundary}
use ropey.NodeText.{
  byte_after_insert, fill_buf, find_split, insert_str_split, split_before, split_inside,
  split_after,
}
use Eight.{eight_have_break}

get_elem?-append :
    (xs ys : List ℕ) (i : ℕ)
    → get_elem? (xs ++ ys) i
      ≡ (if ltb i (length xs) then get_elem? xs i else get_elem? ys (i - length xs))
get_elem?-append [] ys i = ground arith
get_elem?-append (x ∷ xs) ys zero = ground arith
get_elem?-append (x ∷ xs) ys (suc i) = ground (arith, get_elem?-append xs ys i)

byte_after_insert_lem :
    (xs ys s : List ℕ) (i : ℕ)
    → byte_after_insert (xs ++ ys) (length xs) s i ≡ get_elem? (xs ++ (s ++ ys)) i
unfolding byte_after_insert
byte_after_insert_lem xs ys s i = ground (
  arith,
  get_elem?-append xs ys i,
  get_elem?-append xs ys (i - length s),
  get_elem?-append xs (s ++ ys) i,
  get_elem?-append s ys (i - length xs),
)

fill_buf_lem :
    (xs ys s : List ℕ) (n i : ℕ)
    → i + n ≤ length (xs ++ (s ++ ys))
    → fill_buf (xs ++ ys) (length xs) s n i ≡ some (window n i (xs ++ (s ++ ys)))
unfolding fill_buf
fill_buf_lem xs ys s zero i h = refl
fill_buf_lem xs ys s (suc n) i h =
    let (b, e, d) = drop_cons (xs ++ (s ++ ys)) i (omega arith) in
    rw (byte_after_insert_lem xs ys s i, e, fill_buf_lem xs ys s n (i + 1) (omega arith), d)

-- The buffer of `find_split` for a text of `tot` bytes: where it begins, and how long it is.
abbrev begin : ℕ → ℕ
begin tot = tot / 2 - min 4 (tot / 2)

abbrev size : ℕ → ℕ
size tot = min (tot / 2 + 4) tot - begin tot

buffer_fits : (tot : ℕ) → begin tot + size tot ≤ tot
buffer_fits tot = omega arith

buffer_whole_or_eight : (tot : ℕ) → ((begin tot ≡ 0) × (size tot ≡ tot)) ⊎ (size tot ≡ 8)
buffer_whole_or_eight tot = elim (Bool-cases (leb tot 8)) [
  | inl small ↦ let small' : tot ≤ 8 = ground arith in inl (omega arith, omega arith)
  | inr large ↦ let large' : 8 < tot = ground arith in inr (omega arith)
]

-- The split is a break of the whole text behind its start, and is the end only if the text has no
-- other break.
pub record IsSplit (text : List ℕ) (i : ℕ) : Type 0 where
  pub after_start : 0 < i
  pub in_range : i ≤ length text
  pub is_split : IsBreak i text
  pub at_end_only : i ≡ length text → IsUnbroken text

IsSplit-of_nearest :
    (t : List ℕ) (i n mid r : ℕ)
    → i + n ≤ length t
    → IsNearest mid r (window n i t)
    → IsSplit t (r + i)
IsSplit-of_nearest t i n mid r fits h =
    let len = length-window n i t fits in
    let inside : r < n = omega (arith, h.before_end) in
    let place : i + r ≡ r + i = omega arith in
    record {
      after_start = omega (arith, h.after_start);
      in_range = omega arith;
      is_split = rw (is_break-window n i t r fits h.after_start inside, place) at h.is_split;
      at_end_only = λ e. absurd (omega arith);
    }

IsSplit-of_unbroken :
    (t : List ℕ) (n i : ℕ)
    → 0 < length t
    → IsStr t
    → i + n ≤ length t
    → ((i ≡ 0) × (n ≡ length t)) ⊎ (n ≡ 8)
    → IsUnbroken (window n i t)
    → IsSplit t (n + i)
IsSplit-of_unbroken t n i pos h fits (inl (at_start, all)) none_inside =
    let same : window n i t ≡ t = rw (at_start, all) (take_all t) in
    let end : n + i ≡ length t = omega arith in
    record {
      after_start = omega arith;
      in_range = omega arith;
      is_split = rw end (IsBreak-length t);
      at_end_only = λ _. rw same at none_inside;
    }
IsSplit-of_unbroken t n i pos h fits (inr eight) none_inside =
    absurd (eight_have_break t i h (rw eight at fits) (rw eight at none_inside))

IsSplit-of_choice :
    (t : List ℕ) (mid r : ℕ)
    → 0 < length t
    → IsStr t
    → Chooses mid r (window (size (length t)) (begin (length t)) t)
    → IsSplit t (r + begin (length t))
IsSplit-of_choice t mid r pos h (inl near) =
    IsSplit-of_nearest t (begin (length t)) (size (length t)) mid r (buffer_fits (length t)) near
IsSplit-of_choice t mid r pos h (inr (end, none_inside)) =
    let fits = buffer_fits (length t) in
    let len = length-window (size (length t)) (begin (length t)) t fits in
    rw (end, len)
      (IsSplit-of_unbroken t (size (length t)) (begin (length t)) pos h fits
        (buffer_whole_or_eight (length t)) none_inside)

pub find_split_lem :
    (xs ys s : List ℕ)
    → IsStr (xs ++ (s ++ ys))
    → 0 < length (xs ++ (s ++ ys))
    → (i : ℕ) × (find_split (xs ++ ys) (length xs) s ≡ some i) × IsSplit (xs ++ (s ++ ys)) i
unfolding find_split
find_split_lem xs ys s h pos =
    let t = xs ++ (s ++ ys) in
    let tot : length (xs ++ ys) + length s ≡ length t =
      omega (arith, length-append xs ys, length-append xs (s ++ ys), length-append s ys) in
    let i = begin (length t) in
    let n = size (length t) in
    let fits = buffer_fits (length t) in
    let len = length-window n i t fits in
    let (r, er, choice) =
      nearest_internal_break_lem (length t / 2 - i) (window n i t) (omega arith) (omega arith) in
    (
      r + i,
      rw (tot, fill_buf_lem xs ys s n i fits, er),
      IsSplit-of_choice t (length t / 2 - i) r pos h choice,
    )
