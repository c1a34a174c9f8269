-- ===== src/Rope/Lengths.antt =====
-- The lengths of a rope (src/rope.rs), and an index past them.
use ropey.Common.{ℕ, ◌+◌, ◌<◌, ◌≡◌, false, some, arith, length, leb, ◌*◌, ap, ◌∙◌, not}
use ropey.Crates.{Crates, IsDocumented}
use ropey.Crates.Measures.{count_chars, count_surrogates, count_breaks}
use ropey.Crates.Measures.Laws.{tally-le-length, count_breaks-le-length}
use ropey.TextInfo.{word, wrapping_add}
use ropey.Tree.{Limits}
use ropey.Tree.Content.{text, IsTree}
use ropey.Node.Info.{text_info-measure}
use ropey.Error.{Error, err}
use ropey.Rope.{
  Rope, len_bytes, len_chars, len_lines, len_utf16_cu, try_byte_to_char, try_byte_to_line,
  try_char_to_byte, try_char_to_line, try_char_to_utf16_cu,
}
use ropey.Crlf.{is_continuation}
use ropey.Node.{text_info}
use ropey.TextInfo.Laws.{measure}

module _ ⦃lim : Limits⦄ ⦃crates : Crates⦄ (docs : IsDocumented crates) (d : ℕ) (rope : Rope)
    (h : IsTree d rope.root) (small : 2 * length (text rope.root) < word) where
  info : text_info rope.root ≡ measure (text rope.root)
  info = text_info-measure docs d rope.root h

  pub len_bytes-length : len_bytes rope ≡ length (text rope.root)
  unfolding len_bytes
  len_bytes-length = ap (λ x. x.bytes) info ∙ omega arith

  pub len_chars-count : len_chars rope ≡ count_chars (text rope.root)
  unfolding len_chars
  len_chars-count = ap (λ x. x.chars) info ∙ omega (arith, tally-le-length _ (text rope.root))

  -- In a balanced tree that holds less than 2^63 bytes, the lengths of the rope are those of its
  -- text: the bytes, the chars, one line more than line breaks, and the chars with the surrogate
  -- pairs.
  pub lengths_lem :
      (len_bytes rope ≡ length (text rope.root))
      × (len_chars rope ≡ count_chars (text rope.root))
      × (len_lines rope ≡ count_breaks (text rope.root) + 1)
      × (len_utf16_cu rope ≡ count_chars (text rope.root) + count_surrogates (text rope.root))
  unfolding len_lines len_utf16_cu
  lengths_lem = (
    len_bytes-length,
    len_chars-count,
    ap (λ x. wrapping_add x.line_breaks 1) info
        ∙ omega (arith, count_breaks-le-length (text rope.root)),
    ap (λ x. wrapping_add x.chars x.utf16_surrogates) info
        ∙ omega (
          arith,
          tally-le-length (λ b. not (is_continuation b)) (text rope.root),
          tally-le-length (λ b. leb 0xF0 b) (text rope.root),
        ),
  )

  -- In a balanced tree that holds less than 2^63 bytes, each conversion of a byte index past the
  -- end is an error, which names the index and the length.
  pub byte_index-beyond :
      (fuel i : ℕ)
      → length (text rope.root) < i
      → (try_byte_to_char fuel rope i
          ≡ some (err (Error.byte_index_out_of_bounds i (length (text rope.root)))))
        × (try_byte_to_line fuel rope i
            ≡ some (err (Error.byte_index_out_of_bounds i (length (text rope.root)))))
  unfolding try_byte_to_char try_byte_to_line
  byte_index-beyond fuel i past =
      let no : leb i (length (text rope.root)) ≡ false = ground arith in
      (rw (len_bytes-length, no), rw (len_bytes-length, no))

  -- In a balanced tree that holds less than 2^63 bytes, each conversion of a char index past the
  -- number of chars is an error, which names the index and that number.
  pub char_index-beyond :
      (fuel i : ℕ)
      → count_chars (text rope.root) < i
      → (try_char_to_byte fuel rope i
          ≡ some (err (Error.char_index_out_of_bounds i (count_chars (text rope.root)))))
        × (try_char_to_line fuel rope i
            ≡ some (err (Error.char_index_out_of_bounds i (count_chars (text rope.root)))))
        × (try_char_to_utf16_cu fuel rope i
            ≡ some (err (Error.char_index_out_of_bounds i (count_chars (text rope.root)))))
  unfolding try_char_to_byte try_char_to_line try_char_to_utf16_cu
  char_index-beyond fuel i past =
      let no : leb i (count_chars (text rope.root)) ≡ false = ground arith in
      (rw (len_chars-count, no), rw (len_chars-count, no), rw (len_chars-count, no))
