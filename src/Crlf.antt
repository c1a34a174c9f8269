-- ===== src/Crlf.antt =====
-- src/crlf.rs: the valid splitting points of a byte string. A byte string is a list of numbers;
-- an index out of range panics, which is `none`. `is_break` and the searches call each other as in
-- the source; a loop that walks down recurs on the index, one that walks up takes fuel.
pub mod Breaks
pub mod Nearest
pub mod Window
pub mod Joined
mod Tests
use ropey.Common.{
  ℕ, zero, suc, ◌+◌, ◌-◌, ◌/◌, Bool, true, false, not, ◌&&◌, ◌||◌, Option, none, some, List, ltb,
  leb, ◌==◌, if◌then◌else◌, ◌>>=◌, length, get_elem?,
}

-- `byte >> 6 == 0b10`: a continuation byte of UTF-8.
abbrev pub is_continuation : ℕ → Bool
is_continuation b = b / 64 == 2

abbrev pub cr : ℕ
cr = 0x0D

abbrev pub lf : ℕ
lf = 0x0A

-- The test at a position between the bytes `a` and `b`.
abbrev pub splits : ℕ → ℕ → Bool
splits a b = not (is_continuation b) && (not (a == cr) || not (b == lf))

unfoldable pub is_break : ℕ → List ℕ → Option Bool
is_break byte_idx text =
    if byte_idx == 0 || byte_idx == length text
    then some true
    else (do b ← get_elem? text byte_idx; a ← get_elem? text (byte_idx - 1); some (splits a b))

-- The right byte is tested first, so an empty `left` panics only where that test passes.
unfoldable pub seam_is_break : List ℕ → List ℕ → Option Bool
seam_is_break left right = do
  b ← get_elem? right 0
  if is_continuation b
      then some false
      else (do a ← get_elem? left (length left - 1); some (not (a == cr) || not (b == lf)))

-- `while !is_break(boundary_idx, text) { boundary_idx -= 1; }`; below 0 the subtraction overflows.
unfoldable pub walk_back : ℕ → List ℕ → Option ℕ
walk_back zero text = do found ← is_break 0 text; if found then some 0 else none
walk_back (suc k) text =
    let rest = walk_back k text in
    do found ← is_break (suc k) text; if found then some (suc k) else rest

unfoldable pub prev_break : ℕ → List ℕ → Option ℕ
prev_break byte_idx text = if byte_idx == 0 then some 0 else walk_back (byte_idx - 1) text

-- `while !is_break(boundary_idx, text) { boundary_idx += 1; }` with fuel.
unfoldable pub walk_forward : ℕ → ℕ → List ℕ → Option ℕ
walk_forward zero boundary_idx text = none
walk_forward (suc fuel) boundary_idx text =
    let rest = walk_forward fuel (boundary_idx + 1) text in
    do found ← is_break boundary_idx text; if found then some boundary_idx else rest

-- The index rises to `length text` at most, where `is_break` holds; past it, it panics.
unfoldable pub next_break : ℕ → List ℕ → Option ℕ
next_break byte_idx text =
    if byte_idx == length text
    then some (length text)
    else walk_forward (suc (length text)) (byte_idx + 1) text

unfoldable pub nearest_internal_break : ℕ → List ℕ → Option ℕ
nearest_internal_break byte_idx text = do
  here ← is_break byte_idx text
  left ← if here && not (byte_idx == length text) then some byte_idx else prev_break byte_idx text
  right ← next_break byte_idx text
  some (
      if left == 0 || (not (right == length text) && leb (right - byte_idx) (byte_idx - left))
      then right
      else left)

unfoldable pub find_good_split : ℕ → List ℕ → Bool → Option ℕ
find_good_split byte_idx text bias_left = do
  here ← is_break byte_idx text
  if here then some byte_idx else (do
    prev ← prev_break byte_idx text
    next ← next_break byte_idx text
    some (
        if bias_left
        then (if ltb 0 prev then prev else next)
        else (if ltb next (length text) then next else prev)))
