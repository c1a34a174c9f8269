-- ===== src/Str.antt =====
-- Rust's `&str` as its bytes: which byte strings are UTF-8, where a string may be cut, and the
-- slices of the standard library, which panic off a character boundary.
pub mod Utf8
pub mod Cut
pub mod Leads
use ropey.Common.{
  ℕ, zero, suc, ◌+◌, ◌-◌, ◌/◌, Bool, true, false, not, ◌&&◌, ◌||◌, Option, none, some, List, [],
  ◌∷◌, ltb, leb, ◌==◌, if◌then◌else◌, ◌>>=◌, ◌>>◌, assert, length, get_elem?, take, drop, ◌≡◌,
}
use ropey.Crlf.{is_continuation}

-- `str::is_char_boundary`
abbrev pub is_char_boundary : List ℕ → ℕ → Bool
is_char_boundary text i =
    if i == 0 || i == length text
    then true
    else elim (get_elem? text i) [ none ↦ false | some b ↦ not (is_continuation b) ]

-- `&text[start..end]`
unfoldable pub str_slice : List ℕ → ℕ → ℕ → Option (List ℕ)
str_slice text start end = do
  assert (leb start end && is_char_boundary text start && is_char_boundary text end)
  some (take (end - start) (drop start text))

-- What the next byte of a UTF-8 string may be: the first byte of a code point, or one of the
-- continuation bytes that a code point still wants. Four first bytes narrow the second.
pub data Expect : Type 0 where
  start tail_one tail_two tail_three after_e0 after_ed after_f0 after_f4 : Expect

abbrev within : ℕ → ℕ → ℕ → Bool
within lo hi b = leb lo b && leb b hi

abbrev when : Bool → Expect → Option Expect
when true e = some e
when false e = none

unfoldable pub first_byte : ℕ → Option Expect
first_byte b =
    if ltb b 0x80
    then some start
    else if within 0xC2 0xDF b
    then some tail_one
    else if b == 0xE0
    then some after_e0
    else if b == 0xED
    then some after_ed
    else if within 0xE1 0xEF b
    then some tail_two
    else if b == 0xF0
    then some after_f0
    else if b == 0xF4
    then some after_f4
    else if within 0xF1 0xF3 b
    then some tail_three
    else none

unfoldable pub next_byte : Expect → ℕ → Option Expect
next_byte start b = first_byte b
next_byte tail_one b = when (within 0x80 0xBF b) start
next_byte tail_two b = when (within 0x80 0xBF b) tail_one
next_byte tail_three b = when (within 0x80 0xBF b) tail_two
next_byte after_e0 b = when (within 0xA0 0xBF b) tail_one
next_byte after_ed b = when (within 0x80 0x9F b) tail_one
next_byte after_f0 b = when (within 0x90 0xBF b) tail_two
next_byte after_f4 b = when (within 0x80 0x8F b) tail_two

abbrev pub at_start : Expect → Bool
at_start start = true
at_start _ = false

unfoldable pub continues : Expect → List ℕ → Bool
continues e [] = at_start e
continues e (b ∷ text) = elim (next_byte e b) [ none ↦ false | some e' ↦ continues e' text ]

-- The type `str`: the bytes are UTF-8.
abbrev pub IsStr : List ℕ → Type 0
IsStr text = continues start text ≡ true
