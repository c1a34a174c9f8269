-- ===== src/StrUtils.antt =====
-- src/str_utils.rs: the test for a line break at the end of a string, and the trimming of that
-- line break, with the default features (`cr_lines` and `unicode_lines` on).
pub mod Breaks
pub mod Ends
pub mod Trimmed
mod Tests
use ropey.Common.{
  ℕ, zero, suc, ◌-◌, Bool, true, false, ◌&&◌, ◌||◌, Option, none, some, List, [], ◌∷◌, ltb, ◌==◌,
  if◌then◌else◌, ◌>>=◌, length, get_elem?,
}
use ropey.Str.{str_slice}
use ropey.Node.{floor_boundary}

-- `==` of strings
unfoldable pub same_bytes : List ℕ → List ℕ → Bool
same_bytes [] [] = true
same_bytes [] (_ ∷ _) = false
same_bytes (_ ∷ _) [] = false
same_bytes (x ∷ xs) (y ∷ ys) = x == y && same_bytes xs ys

-- `matches!` with alternatives that are string literals
unfoldable pub matches : List ℕ → List (List ℕ) → Bool
matches text [] = false
matches text (literal ∷ literals) = same_bytes text literal || matches text literals

-- U+000B, U+000C, U+0085, U+2028 and U+2029
abbrev pub unicode_breaks : List (List ℕ)
unicode_breaks =
    (0x0B ∷ [])
    ∷ (0x0C ∷ [])
    ∷ (0xC2 ∷ 0x85 ∷ [])
    ∷ (0xE2 ∷ 0x80 ∷ 0xA8 ∷ [])
    ∷ (0xE2 ∷ 0x80 ∷ 0xA9 ∷ [])
    ∷ []

-- U+000A, U+000D and the ones above
abbrev pub all_breaks : List (List ℕ)
all_breaks = (0x0A ∷ []) ∷ (0x0D ∷ []) ∷ unicode_breaks

-- `i > 0 && text.as_bytes()[i - 1] == 0xd`
unfoldable pub follows_cr : List ℕ → ℕ → Option Bool
follows_cr text i =
    if ltb 0 i then (do b ← get_elem? text (i - 1); some (b == 0x0D)) else some false

-- The start of the last code point: `text.len() - 1`, walked down to a boundary.
abbrev pub last_char : List ℕ → ℕ
last_char text = floor_boundary text (length text - 1)

unfoldable pub trim_tail : List ℕ → ℕ → List ℕ → Option (List ℕ)
trim_tail text i tail =
    if matches tail unicode_breaks
    then str_slice text 0 i
    else if same_bytes tail (0x0D ∷ [])
    then str_slice text 0 i
    else if same_bytes tail (0x0A ∷ [])
    then (do
      pair ← follows_cr text i
      if pair then str_slice text 0 (i - 1) else str_slice text 0 i)
    else some text

unfoldable pub trim_line_break : List ℕ → Option (List ℕ)
trim_line_break text = if length text == 0 then some [] else (do
  tail ← str_slice text (last_char text) (length text)
  trim_tail text (last_char text) tail)

unfoldable pub ends_with_line_break : List ℕ → Option Bool
ends_with_line_break text =
    if length text == 0
    then some false
    else (do tail ← str_slice text (last_char text) (length text); some (matches tail all_breaks))
