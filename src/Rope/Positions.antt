-- ===== src/Rope/Positions.antt =====
-- The conversions between bytes and chars of src/rope.rs.
use ropey.Common.{
  ℕ, ◌+◌, ◌-◌, ◌≤◌, ◌<◌, ◌≡◌, refl, sym, ◌∙◌, ap, true, not, some, List, ◌++◌, arith, length, leb,
  take, length-append, length-take, ◌>>=◌, ◌*◌, subst, ap₂,
}
use ropey.Crlf.{is_continuation}
use ropey.Str.{is_char_boundary}
use ropey.Str.Cut.{boundary-le-length}
use ropey.Crates.{Crates, IsDocumented}
use ropey.Crates.Measures.{count_chars}
use ropey.Crates.Measures.Laws.{tally-le-length}
use ropey.TextInfo.{TextInfo, word, wrapping_add, wrapping_sub}
use ropey.TextInfo.Laws.{measure, wrapping_sub-exact}
use ropey.Tree.{Limits}
use ropey.Tree.Content.{text, IsTree}
use ropey.Node.Chunks.{ChunkAt, get_chunk_at_byte_lem, get_chunk_at_char_lem}
use ropey.Error.{ok}
use ropey.Rope.{
  Rope, get_chunk_at_byte, get_chunk_at_char, chunk_at_byte, chunk_at_char, try_byte_to_char,
  try_char_to_byte, byte_to_char, char_to_byte, as_chunk,
}
use ropey.Rope.Lengths.{len_bytes-length, len_chars-count}
use ropey.Node.Info.{IsTree-IsStr}
use ropey.Rope.Starts.{
  StartsAt, StartsAt-chunk, boundary-inside, count_chars-take_le, StartsAt-unique,
}

-- The numbers of a text info that is the measure of a text below 2^63 bytes.
module _ (t : List ℕ) (x : TextInfo) (e : x ≡ measure t) (small : 2 * length t < word) where
  bytes_of : x.bytes ≡ length t
  bytes_of = ap (λ y. y.bytes) e ∙ omega arith

  chars_of : x.chars ≡ count_chars t
  chars_of = ap (λ y. y.chars) e ∙ omega (arith, tally-le-length _ t)

-- The lengths of the three parts of a text add up, in bytes and in chars.
length-three : (xs ys zs : List ℕ) → length (xs ++ (ys ++ zs)) ≡ length xs + length ys + length zs
length-three xs ys zs = omega (arith, length-append xs (ys ++ zs), length-append ys zs)

module _ ⦃crates : Crates⦄ (docs : IsDocumented crates) (t : List ℕ) (i : ℕ) (chunk : List ℕ)
    (offset : TextInfo) (small : 2 * length t < word) where
  -- The byte that `try_char_to_byte` computes from the chunk of the char.
  ChunkAt-byte :
      ChunkAt count_chars t i chunk offset
      → StartsAt t i
          (wrapping_add offset.bytes (crates.chars_to_byte_idx chunk (wrapping_sub i offset.chars)))
  ChunkAt-byte at =
      let len : length at.before + length chunk ≤ length t =
        omega (arith, ap length at.joins, length-three at.before chunk at.after) in
      let j = i - count_chars at.before in
      let k = crates.chars_to_byte_idx chunk j in
      let kb : k ≤ length chunk = docs.to_byte-in_range chunk j at.chunk_str in
      let b : offset.bytes ≡ length at.before = bytes_of at.before offset at.start (omega arith) in
      let c : offset.chars ≡ count_chars at.before =
        chars_of at.before offset at.start (omega arith) in
      let near : i < word = omega (
        arith,
        at.not_behind,
        tally-le-length (λ b. not (is_continuation b)) at.before,
        tally-le-length (λ b. not (is_continuation b)) chunk,
      ) in
      let same : wrapping_sub i offset.chars ≡ j =
        ap (wrapping_sub i) c ∙ wrapping_sub-exact (count_chars at.before) i at.not_before near in
      let byte : wrapping_add offset.bytes
            (crates.chars_to_byte_idx chunk (wrapping_sub i offset.chars))
          ≡ length at.before + k =
        ap₂ (λ x y. wrapping_add x (crates.chars_to_byte_idx chunk y)) b same ∙ omega arith in
      let chars : count_chars at.before + count_chars (take k chunk) ≡ i =
        omega (arith, docs.to_byte-count chunk j at.chunk_str, at.not_before, at.not_behind) in
      let here =
        StartsAt-chunk at.before chunk at.after k at.chunk_str at.after_str
          (docs.to_byte-boundary chunk j at.chunk_str) in
      subst (λ n. StartsAt t i n) (sym byte)
        (subst (λ n. StartsAt t n (length at.before + k)) chars
          (subst
            (λ u.
              StartsAt u (count_chars at.before + count_chars (take k chunk))
                (length at.before + k))
            at.joins here))

  -- The char that `try_byte_to_char` computes from the chunk of the byte.
  ChunkAt-char :
      is_char_boundary t i ≡ true
      → ChunkAt length t i chunk offset
      → wrapping_add offset.chars (crates.chars_from_byte_idx chunk (wrapping_sub i offset.bytes))
        ≡ count_chars (take i t)
  ChunkAt-char bound at =
      let len : length at.before + length chunk ≤ length t =
        omega (arith, ap length at.joins, length-three at.before chunk at.after) in
      let j = i - length at.before in
      let b : offset.bytes ≡ length at.before = bytes_of at.before offset at.start (omega arith) in
      let c : offset.chars ≡ count_chars at.before =
        chars_of at.before offset at.start (omega arith) in
      let same : wrapping_sub i offset.bytes ≡ j =
        ap (wrapping_sub i) b
        ∙ wrapping_sub-exact (length at.before) i at.not_before (omega (arith, at.not_behind)) in
      let place : length at.before + j ≡ i = omega (arith, at.not_before) in
      let inside : is_char_boundary chunk j ≡ true =
        boundary-inside at.before chunk at.after j
          (subst (λ u. is_char_boundary u (length at.before + j) ≡ true) (sym at.joins)
            (subst (λ n. is_char_boundary t n ≡ true) (sym place) bound))
          (omega (arith, at.not_behind)) in
      let here = StartsAt-chunk at.before chunk at.after j at.chunk_str at.after_str inside in
      let count : count_chars (take i t) ≡ count_chars at.before + count_chars (take j chunk) =
        ap₂ (λ n u. count_chars (take n u)) (sym place) (sym at.joins) ∙ here.before in
      ap₂ (λ x y. wrapping_add x (crates.chars_from_byte_idx chunk y)) c same
      ∙ (ap (λ n. wrapping_add (count_chars at.before) n)
            (docs.from_byte-count chunk j at.chunk_str (omega (arith, at.not_behind)) inside)
          ∙ (omega (
            arith,
            tally-le-length (λ b. not (is_continuation b)) (take i t),
            length-take i t,
            count,
          )
              ∙ sym count))

module _ ⦃lim : Limits⦄ ⦃crates : Crates⦄ (docs : IsDocumented crates) (d fuel : ℕ) (rope : Rope)
    (h : IsTree d rope.root) (enough : d < fuel) (small : 2 * length (text rope.root) < word) where
  pub chunk_at_char_lem :
      (i : ℕ)
      → i ≤ count_chars (text rope.root)
      → (chunk : List ℕ) × (offset : TextInfo) × (chunk_at_char fuel rope i
          ≡ some (as_chunk (chunk, offset)))
        × ChunkAt count_chars (text rope.root) i chunk offset
  unfolding chunk_at_char get_chunk_at_char
  chunk_at_char_lem i le =
      let (chunk, offset, e, at) =
        get_chunk_at_char_lem d fuel rope.root i h enough (omega arith) le in
      let yes : leb i (count_chars (text rope.root)) ≡ true = ground arith in
      (chunk, offset, rw (len_chars-count docs d rope h small, yes, e), at)

  chunk_at_byte_lem :
      (i : ℕ)
      → i ≤ length (text rope.root)
      → (chunk : List ℕ) × (offset : TextInfo) × (chunk_at_byte fuel rope i
          ≡ some (as_chunk (chunk, offset)))
        × ChunkAt length (text rope.root) i chunk offset
  unfolding chunk_at_byte get_chunk_at_byte
  chunk_at_byte_lem i le =
      let (chunk, offset, e, at) =
        get_chunk_at_byte_lem d fuel rope.root i h enough (omega arith) le in
      let yes : leb i (length (text rope.root)) ≡ true = ground arith in
      (chunk, offset, rw (len_bytes-length docs d rope h small, yes, e), at)

  -- In a balanced tree that holds less than 2^63 bytes, with fuel for its levels, a char index up to
  -- the number of chars is converted without a panic to the byte where that char starts.
  pub try_char_to_byte_lem :
      (i : ℕ)
      → i ≤ count_chars (text rope.root)
      → (b : ℕ) × (try_char_to_byte fuel rope i ≡ some (ok b)) × StartsAt (text rope.root) i b
  unfolding try_char_to_byte
  try_char_to_byte_lem i le =
      let (chunk, offset, e, at) = chunk_at_char_lem i le in
      let yes : leb i (count_chars (text rope.root)) ≡ true = ground arith in
      (
        wrapping_add offset.bytes (crates.chars_to_byte_idx chunk (wrapping_sub i offset.chars)),
        rw (len_chars-count docs d rope h small, yes, e),
        ChunkAt-byte docs (text rope.root) i chunk offset small at,
      )

  -- In a balanced tree that holds less than 2^63 bytes, with fuel for its levels, a byte index on a
  -- character boundary is converted without a panic to the number of chars before it.
  pub try_byte_to_char_lem :
      (i : ℕ)
      → is_char_boundary (text rope.root) i ≡ true
      → try_byte_to_char fuel rope i ≡ some (ok (count_chars (take i (text rope.root))))
  unfolding try_byte_to_char
  try_byte_to_char_lem i bound =
      let le = boundary-le-length (text rope.root) i bound in
      let (chunk, offset, e, at) = chunk_at_byte_lem i le in
      let yes : leb i (length (text rope.root)) ≡ true = ground arith in
      rw (len_bytes-length docs d rope h small, yes, e)
        (ap (λ n. some (ok n)) (ChunkAt-char docs (text rope.root) i chunk offset small bound at))

  -- In a balanced tree that holds less than 2^63 bytes, with fuel for its levels, a char index up to
  -- the number of chars, converted to a byte and back, is the char index.
  pub byte_to_char-char_to_byte :
      (i : ℕ)
      → i ≤ count_chars (text rope.root)
      → (char_to_byte fuel rope i >>= λ b. byte_to_char fuel rope b) ≡ some i
  unfolding char_to_byte byte_to_char
  byte_to_char-char_to_byte i le =
      let (b, e, at) = try_char_to_byte_lem i le in
      rw (e, try_byte_to_char_lem b at.boundary, at.before)

  -- In a balanced tree that holds less than 2^63 bytes, with fuel for its levels, a byte index on a
  -- character boundary, converted to a char and back, is the byte index.
  pub char_to_byte-byte_to_char :
      (i : ℕ)
      → is_char_boundary (text rope.root) i ≡ true
      → (byte_to_char fuel rope i >>= λ c. char_to_byte fuel rope c) ≡ some i
  unfolding char_to_byte byte_to_char
  char_to_byte-byte_to_char i bound =
      let (b, e, at) =
        try_char_to_byte_lem (count_chars (take i (text rope.root)))
          (count_chars-take_le i (text rope.root)) in
      rw (try_byte_to_char_lem i bound, e)
        (ap some (
          StartsAt-unique (text rope.root) (count_chars (take i (text rope.root))) b i
            (IsTree-IsStr d rope.root h) at
            (record {
              in_range = boundary-le-length (text rope.root) i bound;
              boundary = bound;
              before = refl;
            })))
