-- ===== src/TextInfo/Tests.antt =====
-- Examples of the theorems on src/tree/text_info.rs, with the reference functions of the crates.
use ropey.Common.{ℕ, ◌≡◌, refl, List, [], ◌∷◌, ◌++◌}
use ropey.Str.{IsStr, continues, next_byte, first_byte}
use ropey.Crates.Reference.{reference, reference-IsDocumented}
use ropey.TextInfo.{from_str, add}
use ropey.TextInfo.Laws.{from_str-append}

abbrev a_crlf : List ℕ
a_crlf = 97 ∷ 13 ∷ 10 ∷ []

abbrev e_acute : List ℕ
e_acute = 0xC3 ∷ 0xA9 ∷ []

a_crlf-IsStr : IsStr a_crlf
unfolding continues next_byte first_byte
a_crlf-IsStr = refl

e_acute-IsStr : IsStr e_acute
unfolding continues next_byte first_byte
e_acute-IsStr = refl

from_str-append_example :
    from_str ⦃crates = reference⦄ (a_crlf ++ e_acute)
    ≡ add (from_str ⦃crates = reference⦄ a_crlf) (from_str ⦃crates = reference⦄ e_acute)
from_str-append_example =
    from_str-append ⦃crates = reference⦄ reference-IsDocumented a_crlf e_acute a_crlf-IsStr
      e_acute-IsStr refl
