-- ===== src/TextInfo.antt =====
-- src/tree/text_info.rs, with `Count` of src/tree/mod.rs: the four measures of a text, as `u64`
-- numbers. Sums and differences wrap around, as in a release build; a debug build panics there.
pub mod Laws
mod Tests
use ropey.Common.{ℕ, ◌+◌, ◌-◌, ◌%◌, ◌^◌, List, length}
use ropey.Crates.{Crates}

-- Casts between `usize` and `u64` change nothing.
abbrev pub word : ℕ
word = 2 ^ 64

abbrev pub as_count : ℕ → ℕ
as_count n = n % word

pub record TextInfo : Type 0 where
  pub bytes : ℕ
  pub chars : ℕ
  pub utf16_surrogates : ℕ
  pub line_breaks : ℕ

abbrev pub new : TextInfo
new = record { bytes = 0; chars = 0; utf16_surrogates = 0; line_breaks = 0 }

unfoldable pub from_str : ⦃crates : Crates⦄ → List ℕ → TextInfo
from_str ⦃crates⦄ text = record {
  bytes = as_count (length text);
  chars = as_count (crates.chars_count text);
  utf16_surrogates = as_count (crates.utf16_count_surrogates text);
  line_breaks = as_count (crates.lines_count_breaks text);
}

abbrev pub wrapping_add : ℕ → ℕ → ℕ
wrapping_add a b = (a + b) % word

abbrev pub wrapping_sub : ℕ → ℕ → ℕ
wrapping_sub a b = (a + word - b) % word

-- `impl Add` and `impl AddAssign`
unfoldable pub add : TextInfo → TextInfo → TextInfo
add self rhs = record {
  bytes = wrapping_add self.bytes rhs.bytes;
  chars = wrapping_add self.chars rhs.chars;
  utf16_surrogates = wrapping_add self.utf16_surrogates rhs.utf16_surrogates;
  line_breaks = wrapping_add self.line_breaks rhs.line_breaks;
}

-- `impl Sub` and `impl SubAssign`
unfoldable pub sub : TextInfo → TextInfo → TextInfo
sub self rhs = record {
  bytes = wrapping_sub self.bytes rhs.bytes;
  chars = wrapping_sub self.chars rhs.chars;
  utf16_surrogates = wrapping_sub self.utf16_surrogates rhs.utf16_surrogates;
  line_breaks = wrapping_sub self.line_breaks rhs.line_breaks;
}
