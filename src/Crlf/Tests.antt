-- ===== src/Crlf/Tests.antt =====
-- Runs of src/crlf.rs on "a\r\nb", and examples of the theorems on it.
use ropey.Common.{ℕ, ◌≡◌, refl, some, true, List, [], ◌∷◌, ◌++◌, arith, length, ◌⊎◌, false}
use ropey.Crlf.{
  is_break, prev_break, next_break, nearest_internal_break, find_good_split, seam_is_break,
  walk_forward, walk_back,
}
use ropey.Crlf.Breaks.{IsBreak}
use ropey.Crlf.Nearest.{IsNextTo, Leans, Chooses, find_good_split_lem, nearest_internal_break_lem}
use ropey.Crlf.Joined.{seam_is_break_lem}

abbrev a_crlf_b : List ℕ
a_crlf_b = 97 ∷ 13 ∷ 10 ∷ 98 ∷ []

prev_break-run : prev_break 2 a_crlf_b ≡ some 1
unfolding prev_break walk_back is_break
prev_break-run = refl

next_break-run : next_break 1 a_crlf_b ≡ some 3
unfolding next_break walk_forward is_break
next_break-run = refl

nearest_internal_break-run : nearest_internal_break 2 a_crlf_b ≡ some 3
unfolding nearest_internal_break prev_break next_break walk_back walk_forward is_break
nearest_internal_break-run = refl

find_good_split_example :
    (r : ℕ) × (find_good_split 2 a_crlf_b true ≡ some r)
    × IsNextTo 2 r a_crlf_b
    × ((IsBreak 2 a_crlf_b × (r ≡ 2))
        ⊎ ((is_break 2 a_crlf_b ≡ some false) × Leans true 2 r a_crlf_b))
find_good_split_example = find_good_split_lem 2 a_crlf_b true (omega arith)

nearest_internal_break_example :
    (r : ℕ) × (nearest_internal_break 2 a_crlf_b ≡ some r) × Chooses 2 r a_crlf_b
nearest_internal_break_example = nearest_internal_break_lem 2 a_crlf_b (omega arith) (omega arith)

abbrev a_cr : List ℕ
a_cr = 97 ∷ 13 ∷ []

abbrev lf_b : List ℕ
lf_b = 10 ∷ 98 ∷ []

seam_is_break_example : seam_is_break a_cr lf_b ≡ is_break (length a_cr) (a_cr ++ lf_b)
seam_is_break_example = seam_is_break_lem a_cr lf_b (omega arith) (omega arith)
