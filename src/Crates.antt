-- ===== src/Crates.antt =====
-- What ropey uses of the crates str_indices and smallvec (Cargo.toml, src/str_utils.rs,
-- src/tree/node_text.rs): a record of functions over byte strings, passed to all code as an
-- instance, and the documented behaviour of those functions as named laws. The line functions are
-- those of the default feature `unicode_lines`.
pub mod Measures
pub mod Reference
use ropey.Common.{ℕ, ◌+◌, ◌-◌, ◌≤◌, ◌≡◌, true, List, [], ◌++◌, length, take, drop, min}
use ropey.Str.{IsStr, is_char_boundary}
use Measures.{count_chars, count_surrogates, count_breaks}

pub record Crates : Type 0 where
  -- str_indices::chars
  pub chars_count : List ℕ → ℕ
  pub chars_to_byte_idx : List ℕ → ℕ → ℕ
  pub chars_from_byte_idx : List ℕ → ℕ → ℕ
  -- str_indices::utf16
  pub utf16_count_surrogates : List ℕ → ℕ
  pub utf16_to_byte_idx : List ℕ → ℕ → ℕ
  -- str_indices::lines
  pub lines_count_breaks : List ℕ → ℕ
  pub lines_to_byte_idx : List ℕ → ℕ → ℕ
  pub lines_from_byte_idx : List ℕ → ℕ → ℕ
  -- smallvec::SmallVec, by its contents
  pub insert_from_slice : List ℕ → ℕ → List ℕ → List ℕ
  pub extend_from_slice : List ℕ → List ℕ → List ℕ
  pub truncate : List ℕ → ℕ → List ℕ

pub record IsDocumented (c : Crates) : Type 0 where
  -- "Counts the chars in a string slice."
  pub chars_count_lem : (t : List ℕ) → IsStr t → c.chars_count t ≡ count_chars t
  -- "Converts from char-index to byte-index"; any past-the-end index gives the length.
  pub to_byte-in_range : (t : List ℕ) (i : ℕ) → IsStr t → c.chars_to_byte_idx t i ≤ length t
  pub to_byte-boundary :
      (t : List ℕ) (i : ℕ) → IsStr t → is_char_boundary t (c.chars_to_byte_idx t i) ≡ true
  pub to_byte-count :
      (t : List ℕ) (i : ℕ)
      → IsStr t
      → count_chars (take (c.chars_to_byte_idx t i) t) ≡ min i (count_chars t)
  -- "Converts from byte-index to char-index", at a char boundary.
  pub from_byte-count :
      (t : List ℕ) (i : ℕ)
      → IsStr t
      → i ≤ length t
      → is_char_boundary t i ≡ true
      → c.chars_from_byte_idx t i ≡ count_chars (take i t)
  -- "Counts the utf16 surrogate pairs that would be in a string slice if it were encoded as utf16."
  pub surrogates_count : (t : List ℕ) → IsStr t → c.utf16_count_surrogates t ≡ count_surrogates t
  -- "Counts the line breaks in a string slice."
  pub breaks_count : (t : List ℕ) → IsStr t → c.lines_count_breaks t ≡ count_breaks t
  -- "Copy elements from a slice into the vector at position index, shifting any following
  -- elements toward the back."
  pub insert_lem :
      (v : List ℕ) (i : ℕ) (s : List ℕ)
      → i ≤ length v
      → c.insert_from_slice v i s ≡ take i v ++ (s ++ drop i v)
  -- "Copy elements from a slice and append them to the vector."
  pub extend_lem : (v s : List ℕ) → c.extend_from_slice v s ≡ v ++ s
  -- "Shorten the vector, keeping the first `len` elements and dropping the rest."
  pub truncate_lem : (v : List ℕ) (n : ℕ) → n ≤ length v → c.truncate v n ≡ take n v
