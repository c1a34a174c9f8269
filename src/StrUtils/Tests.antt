-- ===== src/StrUtils/Tests.antt =====
-- Runs of the functions of src/str_utils.rs, and examples of the theorems on them.
use ropey.Common.{false, some, [], ◌∷◌, ◌≡◌, refl, List, true, ◌++◌, ◌⊎◌, ℕ}
use ropey.Str.{IsStr, continues, next_byte, first_byte, str_slice}
use ropey.Node.{floor_boundary}
use ropey.StrUtils.{
  trim_line_break, trim_tail, ends_with_line_break, follows_cr, matches, same_bytes,
}
use ropey.StrUtils.Breaks.{next_line}
use ropey.StrUtils.Ends.{ends_with_line_break-after}
use ropey.StrUtils.Trimmed.{IsTrimmed, IsUntouched, trim_line_break_lem}

trims_pair : trim_line_break (97 ∷ 13 ∷ 10 ∷ []) ≡ some (97 ∷ [])
unfolding trim_line_break trim_tail follows_cr matches same_bytes floor_boundary str_slice
trims_pair = refl

trims_nel : trim_line_break (97 ∷ 0xC2 ∷ 0x85 ∷ []) ≡ some (97 ∷ [])
unfolding trim_line_break trim_tail follows_cr matches same_bytes floor_boundary str_slice
trims_nel = refl

ends_in_letter : ends_with_line_break (10 ∷ 97 ∷ []) ≡ some false
unfolding ends_with_line_break matches same_bytes floor_boundary str_slice
ends_in_letter = refl

abbrev a_pair : List ℕ
a_pair = 97 ∷ 13 ∷ 10 ∷ []

a_pair-IsStr : IsStr a_pair
unfolding continues next_byte first_byte
a_pair-IsStr = refl

trim_line_break_example :
    IsUntouched a_pair ⊎ ((rest : List ℕ) × (tail : List ℕ) × IsTrimmed a_pair rest tail)
trim_line_break_example = trim_line_break_lem a_pair a_pair-IsStr

ends_with_line_break_example : ends_with_line_break ((97 ∷ []) ++ (0xC2 ∷ 0x85 ∷ [])) ≡ some true
ends_with_line_break_example = ends_with_line_break-after (97 ∷ []) (0xC2 ∷ 0x85 ∷ []) next_line
