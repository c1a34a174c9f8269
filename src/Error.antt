-- ===== src/Error.antt =====
-- The error type of src/lib.rs, `Result`, and the bounds of ranges.
use ropey.Common.{ℕ, ◌+◌, ◌%◌, Option, none, some}
use ropey.TextInfo.{word}

-- `crate::Error`
pub data Error : Type 0 where
  byte_index_out_of_bounds : ℕ → ℕ → Error
  char_index_out_of_bounds : ℕ → ℕ → Error
  line_index_out_of_bounds : ℕ → ℕ → Error
  utf16_index_out_of_bounds : ℕ → ℕ → Error
  byte_index_not_char_boundary : ℕ → Error
  byte_range_not_char_boundary : Option ℕ → Option ℕ → Error
  byte_range_invalid : ℕ → ℕ → Error
  char_range_invalid : ℕ → ℕ → Error
  byte_range_out_of_bounds : Option ℕ → Option ℕ → ℕ → Error
  char_range_out_of_bounds : Option ℕ → Option ℕ → ℕ → Error

-- `crate::Result`
pub data Result {ℓ} (A : Type ℓ) : Type ℓ where
  ok : A → Result A
  err : Error → Result A

-- `Result::unwrap` panics on an error.
abbrev pub unwrap {ℓ} : {A : Type ℓ} → Result A → Option A
unwrap (ok a) = some a
unwrap (err _) = none

-- `std::ops::Bound`
pub data Bound : Type 0 where
  included : ℕ → Bound
  excluded : ℕ → Bound
  unbounded : Bound

abbrev pub start_bound_to_num : Bound → Option ℕ
start_bound_to_num (included n) = some n
start_bound_to_num (excluded n) = some ((n + 1) % word)
start_bound_to_num unbounded = none

abbrev pub end_bound_to_num : Bound → Option ℕ
end_bound_to_num (included n) = some ((n + 1) % word)
end_bound_to_num (excluded n) = some n
end_bound_to_num unbounded = none
