-- ===== src/Rope.antt =====
-- src/rope.rs: the lengths of a rope, its chunks, and the conversions between bytes, chars, lines
-- and UTF-16 code units. All code takes fuel for the levels of the tree.
pub mod Starts
pub mod Positions
pub mod Insert
pub mod Root
pub mod SplitOff
pub mod Append
mod Tests
pub mod Lengths
use ropey.Common.{
  ℕ, ◌+◌, ◌-◌, Bool, Option, none, some, List, ltb, leb, ◌==◌, if◌then◌else◌, ◌>>=◌, ◌>>◌,
  get_elem?,
}
use ropey.Crates.{Crates}
use ropey.TextInfo.{TextInfo, wrapping_add, wrapping_sub}
use ropey.Tree.{Node}
use ropey.Node
use ropey.Node.{text_info, byte_count, char_count, line_break_count, byte_to_utf16_surrogate_idx}
use ropey.Error.{Error, Result, ok, err, unwrap}

-- `struct Rope`
pub record Rope : Type 0 where
  pub root : Node

abbrev pub new : Rope
new = record { root = Node.new }

-- A chunk, and the byte, the char and the line at which it starts.
abbrev pub Chunk : Type 0
Chunk = List ℕ × ℕ × ℕ × ℕ

abbrev pub as_chunk : List ℕ × TextInfo → Chunk
as_chunk (chunk, info) = (chunk, info.bytes, info.chars, info.line_breaks)

module _ ⦃crates : Crates⦄ where
  -- src/str_utils.rs
  unfoldable pub char_to_line_idx : List ℕ → ℕ → ℕ
  char_to_line_idx text char_idx =
      crates.lines_from_byte_idx text (crates.chars_to_byte_idx text char_idx)

  unfoldable pub line_to_char_idx : List ℕ → ℕ → ℕ
  line_to_char_idx text line_idx =
      crates.chars_from_byte_idx text (crates.lines_to_byte_idx text line_idx)

  unfoldable pub utf16_code_unit_to_char_idx : List ℕ → ℕ → ℕ
  utf16_code_unit_to_char_idx text utf16_idx =
      crates.chars_from_byte_idx text (crates.utf16_to_byte_idx text utf16_idx)

  unfoldable pub len_bytes : Rope → ℕ
  len_bytes self = byte_count self.root

  unfoldable pub len_chars : Rope → ℕ
  len_chars self = char_count self.root

  unfoldable pub len_lines : Rope → ℕ
  len_lines self = wrapping_add (line_break_count self.root) 1

  unfoldable pub len_utf16_cu : Rope → ℕ
  len_utf16_cu self =
      let info = text_info self.root in wrapping_add info.chars info.utf16_surrogates

  -- The `Option` inside is that of the source.
  unfoldable pub get_chunk_at_byte : ℕ → Rope → ℕ → Option (Option Chunk)
  get_chunk_at_byte fuel self byte_idx =
      if leb byte_idx (len_bytes self)
      then Node.get_chunk_at_byte fuel self.root byte_idx
        >>= (λ found. some (some (as_chunk found)))
      else some none

  unfoldable pub get_chunk_at_char : ℕ → Rope → ℕ → Option (Option Chunk)
  get_chunk_at_char fuel self char_idx =
      if leb char_idx (len_chars self)
      then Node.get_chunk_at_char fuel self.root char_idx
        >>= (λ found. some (some (as_chunk found)))
      else some none

  unfoldable pub get_chunk_at_line_break : ℕ → Rope → ℕ → Option (Option Chunk)
  get_chunk_at_line_break fuel self line_break_idx =
      if leb line_break_idx (len_lines self)
      then Node.get_chunk_at_line_break fuel self.root line_break_idx
        >>= (λ found. some (some (as_chunk found)))
      else some none

  unfoldable pub chunk_at_byte : ℕ → Rope → ℕ → Option Chunk
  chunk_at_byte fuel self byte_idx = get_chunk_at_byte fuel self byte_idx >>= (λ out. out)

  unfoldable pub chunk_at_char : ℕ → Rope → ℕ → Option Chunk
  chunk_at_char fuel self char_idx = get_chunk_at_char fuel self char_idx >>= (λ out. out)

  unfoldable pub chunk_at_line_break : ℕ → Rope → ℕ → Option Chunk
  chunk_at_line_break fuel self line_break_idx =
      get_chunk_at_line_break fuel self line_break_idx >>= (λ out. out)

  unfoldable pub get_byte : ℕ → Rope → ℕ → Option (Option ℕ)
  get_byte fuel self byte_idx =
      if ltb byte_idx (len_bytes self)
      then chunk_at_byte fuel self byte_idx
        >>= (λ found. get_elem? found.0 (wrapping_sub byte_idx found.1) >>= (λ b. some (some b)))
      else some none

  unfoldable pub byte : ℕ → Rope → ℕ → Option ℕ
  byte fuel self byte_idx = get_byte fuel self byte_idx >>= (λ out. out)

  unfoldable pub try_byte_to_char : ℕ → Rope → ℕ → Option (Result ℕ)
  try_byte_to_char fuel self byte_idx =
      if leb byte_idx (len_bytes self)
      then (do
        (chunk, b, c, _) ← chunk_at_byte fuel self byte_idx
        some (ok (wrapping_add c (crates.chars_from_byte_idx chunk (wrapping_sub byte_idx b)))))
      else some (err (Error.byte_index_out_of_bounds byte_idx (len_bytes self)))

  unfoldable pub try_byte_to_line : ℕ → Rope → ℕ → Option (Result ℕ)
  try_byte_to_line fuel self byte_idx =
      if leb byte_idx (len_bytes self)
      then (do
        (chunk, b, _, l) ← chunk_at_byte fuel self byte_idx
        some (ok (wrapping_add l (crates.lines_from_byte_idx chunk (wrapping_sub byte_idx b)))))
      else some (err (Error.byte_index_out_of_bounds byte_idx (len_bytes self)))

  unfoldable pub try_char_to_byte : ℕ → Rope → ℕ → Option (Result ℕ)
  try_char_to_byte fuel self char_idx =
      if leb char_idx (len_chars self)
      then (do
        (chunk, b, c, _) ← chunk_at_char fuel self char_idx
        some (ok (wrapping_add b (crates.chars_to_byte_idx chunk (wrapping_sub char_idx c)))))
      else some (err (Error.char_index_out_of_bounds char_idx (len_chars self)))

  unfoldable pub try_char_to_line : ℕ → Rope → ℕ → Option (Result ℕ)
  try_char_to_line fuel self char_idx =
      if leb char_idx (len_chars self)
      then (do
        (chunk, _, c, l) ← chunk_at_char fuel self char_idx
        some (ok (wrapping_add l (char_to_line_idx chunk (wrapping_sub char_idx c)))))
      else some (err (Error.char_index_out_of_bounds char_idx (len_chars self)))

  unfoldable pub try_char_to_utf16_cu : ℕ → Rope → ℕ → Option (Result ℕ)
  try_char_to_utf16_cu fuel self char_idx =
      if leb char_idx (len_chars self)
      then (do
        (chunk, chunk_start_info) ← Node.get_chunk_at_char fuel self.root char_idx
        let chunk_byte_idx =
            crates.chars_to_byte_idx chunk (wrapping_sub char_idx chunk_start_info.chars)
        surrogate_count ← byte_to_utf16_surrogate_idx chunk chunk_byte_idx
        some (
            ok (
              wrapping_add (wrapping_add char_idx chunk_start_info.utf16_surrogates)
                surrogate_count)))
      else some (err (Error.char_index_out_of_bounds char_idx (len_chars self)))

  unfoldable pub try_utf16_cu_to_char : ℕ → Rope → ℕ → Option (Result ℕ)
  try_utf16_cu_to_char fuel self utf16_cu_idx =
      if leb utf16_cu_idx (len_utf16_cu self)
      then (do
        (chunk, chunk_start_info) ← Node.get_chunk_at_utf16_code_unit fuel self.root utf16_cu_idx
        let chunk_utf16_cu_idx =
            wrapping_sub utf16_cu_idx
              (wrapping_add chunk_start_info.chars chunk_start_info.utf16_surrogates)
        let chunk_char_idx = utf16_code_unit_to_char_idx chunk chunk_utf16_cu_idx
        some (ok (wrapping_add chunk_start_info.chars chunk_char_idx)))
      else some (err (Error.utf16_index_out_of_bounds utf16_cu_idx (len_utf16_cu self)))

  unfoldable pub try_line_to_byte : ℕ → Rope → ℕ → Option (Result ℕ)
  try_line_to_byte fuel self line_idx =
      if leb line_idx (len_lines self)
      then (if line_idx == len_lines self then some (ok (len_bytes self)) else (do
        (chunk, b, _, l) ← chunk_at_line_break fuel self line_idx
        some (ok (wrapping_add b (crates.lines_to_byte_idx chunk (wrapping_sub line_idx l))))))
      else some (err (Error.line_index_out_of_bounds line_idx (len_lines self)))

  unfoldable pub try_line_to_char : ℕ → Rope → ℕ → Option (Result ℕ)
  try_line_to_char fuel self line_idx =
      if leb line_idx (len_lines self)
      then (if line_idx == len_lines self then some (ok (len_chars self)) else (do
        (chunk, _, c, l) ← chunk_at_line_break fuel self line_idx
        some (ok (wrapping_add c (line_to_char_idx chunk (wrapping_sub line_idx l))))))
      else some (err (Error.line_index_out_of_bounds line_idx (len_lines self)))

  unfoldable pub byte_to_char : ℕ → Rope → ℕ → Option ℕ
  byte_to_char fuel self byte_idx = try_byte_to_char fuel self byte_idx >>= unwrap

  unfoldable pub byte_to_line : ℕ → Rope → ℕ → Option ℕ
  byte_to_line fuel self byte_idx = try_byte_to_line fuel self byte_idx >>= unwrap

  unfoldable pub char_to_byte : ℕ → Rope → ℕ → Option ℕ
  char_to_byte fuel self char_idx = try_char_to_byte fuel self char_idx >>= unwrap

  unfoldable pub char_to_line : ℕ → Rope → ℕ → Option ℕ
  char_to_line fuel self char_idx = try_char_to_line fuel self char_idx >>= unwrap

  unfoldable pub char_to_utf16_cu : ℕ → Rope → ℕ → Option ℕ
  char_to_utf16_cu fuel self char_idx = try_char_to_utf16_cu fuel self char_idx >>= unwrap

  unfoldable pub utf16_cu_to_char : ℕ → Rope → ℕ → Option ℕ
  utf16_cu_to_char fuel self utf16_cu_idx = try_utf16_cu_to_char fuel self utf16_cu_idx >>= unwrap

  unfoldable pub line_to_byte : ℕ → Rope → ℕ → Option ℕ
  line_to_byte fuel self line_idx = try_line_to_byte fuel self line_idx >>= unwrap

  unfoldable pub line_to_char : ℕ → Rope → ℕ → Option ℕ
  line_to_char fuel self line_idx = try_line_to_char fuel self line_idx >>= unwrap
