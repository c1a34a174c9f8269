-- ===== src/Crates/Measures.antt =====
-- Independent descriptions of what the text measures of a rope count: chars, UTF-16 surrogate
-- pairs and line breaks of a UTF-8 string.
pub mod Laws
pub mod Seams
use ropey.Common.{
  ℕ, zero, suc, ◌+◌, Bool, true, false, not, ◌&&◌, ◌||◌, none, some, List, [], ◌∷◌, leb, ◌==◌,
  if◌then◌else◌, get_elem?,
}
use ropey.Crlf.{is_continuation, cr, lf}

abbrev pub tally : (ℕ → Bool) → List ℕ → ℕ
tally p [] = 0
tally p (b ∷ t) = (if p b then 1 else 0) + tally p t

-- A char has one byte that is no continuation byte.
abbrev pub count_chars : List ℕ → ℕ
count_chars = tally (λ b. not (is_continuation b))

-- The chars past U+FFFF are those of four bytes, which begin with 0xF0 or more.
abbrev pub count_surrogates : List ℕ → ℕ
count_surrogates = tally (λ b. leb 0xF0 b)

abbrev pub byte_is : List ℕ → ℕ → ℕ → Bool
byte_is t i b = elim (get_elem? t i) [ none ↦ false | some x ↦ x == b ]

-- Whether a line break is counted at the byte `b` that stands before `t`: LF, VT, FF, CR unless it
-- stands before LF, NEL (U+0085), LS (U+2028) and PS (U+2029).
unfoldable pub counts_break : ℕ → List ℕ → Bool
counts_break b t =
    b == lf
    || (b == 0x0B
        || (b == 0x0C
            || ((b == cr && not (byte_is t 0 lf))
                || ((b == 0xC2 && byte_is t 0 0x85)
                    || (b == 0xE2
                        && (byte_is t 0 0x80 && (byte_is t 1 0xA8 || byte_is t 1 0xA9)))))))

unfoldable pub count_breaks : List ℕ → ℕ
count_breaks [] = 0
count_breaks (b ∷ t) = (if counts_break b t then 1 else 0) + count_breaks t
