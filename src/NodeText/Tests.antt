-- ===== src/NodeText/Tests.antt =====
-- Examples of the theorems on src/tree/node_text.rs, with the reference functions of the crates.
use ropey.Common.{ℕ, ◌≡◌, refl, some, List, [], ◌∷◌, ◌++◌, arith, take, drop, ◌+◌, ◌>>=◌, length}
use ropey.Str.{IsStr, continues, next_byte, first_byte}
use ropey.Crates.Reference.{reference, reference-IsDocumented}
use ropey.NodeText.{insert_str_split, fix_segment_seam, insert_str, remove_range}
use ropey.NodeText.Halves.{AreHalves, insert_str_split_lem}
use ropey.NodeText.Seam.{MeetAtBreak, fix_segment_seam_lem}
use ropey.NodeText.RoundTrips.{remove_range-insert_str}

abbrev a_crlf_b : List ℕ
a_crlf_b = 97 ∷ 13 ∷ 10 ∷ 98 ∷ []

abbrev two_bytes : List ℕ
two_bytes = 0xC3 ∷ 0xA9 ∷ []

a_crlf_b-IsStr : IsStr a_crlf_b
unfolding continues next_byte first_byte
a_crlf_b-IsStr = refl

two_bytes-IsStr : IsStr two_bytes
unfolding continues next_byte first_byte
two_bytes-IsStr = refl

abbrev a_cr : List ℕ
a_cr = 97 ∷ 13 ∷ []

abbrev lf_b : List ℕ
lf_b = 10 ∷ 98 ∷ []

a_cr-IsStr : IsStr a_cr
unfolding continues next_byte first_byte
a_cr-IsStr = refl

lf_b-IsStr : IsStr lf_b
unfolding continues next_byte first_byte
lf_b-IsStr = refl

insert_str_split_example :
    (l : List ℕ) × (r : List ℕ) × (insert_str_split ⦃crates = reference⦄ a_crlf_b 1 two_bytes
      ≡ some (l, r))
    × AreHalves (take 1 a_crlf_b ++ (two_bytes ++ drop 1 a_crlf_b)) l r
insert_str_split_example =
    insert_str_split_lem ⦃crates = reference⦄ reference-IsDocumented a_crlf_b two_bytes 1
      a_crlf_b-IsStr two_bytes-IsStr refl (omega arith)

fix_segment_seam_example :
    (l' : List ℕ) × (r' : List ℕ) × (fix_segment_seam ⦃crates = reference⦄ a_cr lf_b
      ≡ some (l', r'))
    × MeetAtBreak (a_cr ++ lf_b) l' r'
fix_segment_seam_example =
    fix_segment_seam_lem ⦃crates = reference⦄ reference-IsDocumented a_cr lf_b a_cr-IsStr lf_b-IsStr
      (omega arith) (omega arith)

remove_range-insert_str_example :
    (insert_str ⦃crates = reference⦄ a_crlf_b 1 two_bytes >>= λ u.
    remove_range ⦃crates = reference⦄ u 1 (1 + length two_bytes))
    ≡ some a_crlf_b
remove_range-insert_str_example =
    remove_range-insert_str ⦃crates = reference⦄ reference-IsDocumented a_crlf_b 1 a_crlf_b-IsStr
      refl two_bytes two_bytes-IsStr
