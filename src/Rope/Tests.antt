-- ===== src/Rope/Tests.antt =====
-- Examples of the theorems on src/rope.rs, on a rope of three leaves.
use ropey.Common.{ℕ, ◌+◌, ◌≡◌, refl, some, List, [], ◌∷◌, arith, length, take, ◌>>=◌, ◌<◌, ◌⊎◌}
use ropey.Str.{continues, next_byte, first_byte}
use ropey.Crates.Reference.{reference, reference-IsDocumented}
use ropey.Crates.Measures.{count_chars, count_surrogates, count_breaks}
use ropey.TextInfo.Laws.{measure}
use ropey.Tree.{leaf, internal, pack, Child, small_chunks, Node}
use ropey.Tree.Content.{text, IsTree}
use ropey.Error.{Error, ok, err}
use ropey.Rope.{
  Rope, len_bytes, len_chars, len_lines, len_utf16_cu, try_byte_to_char, try_byte_to_line,
  try_char_to_byte, try_char_to_line, try_char_to_utf16_cu, byte_to_char, char_to_byte,
}
use ropey.Rope.Lengths.{lengths_lem, byte_index-beyond, char_index-beyond}
use ropey.Rope.Starts.{StartsAt}
use ropey.Rope.Positions.{
  try_char_to_byte_lem, try_byte_to_char_lem, byte_to_char-char_to_byte, char_to_byte-byte_to_char,
}
use ropey.Rope.Root.{pull_up_singular_nodes, IsPulledUp, pull_up_singular_nodes_lem}
use ropey.Rope.SplitOff.{try_split_off, AreSplitOff, try_split_off_lem}

abbrev of_text : List ℕ → Child
of_text t = (measure t, leaf t)

abbrev three : Rope
three = record {
  root =
      internal
        (pack (of_text (97 ∷ []) ∷ of_text (0xC3 ∷ 0xA9 ∷ []) ∷ of_text (98 ∷ 10 ∷ []) ∷ []));
}

three-IsTree : IsTree ⦃lim = small_chunks⦄ 1 three.root
unfolding continues next_byte first_byte
three-IsTree = (
  omega arith,
  omega arith,
  (
    refl,
    omega arith,
    refl,
    refl,
    (refl, omega arith, refl, refl, (refl, omega arith, refl, refl, tt)),
  ),
)

one-IsTree : IsTree ⦃lim = small_chunks⦄ 1 (internal (pack (of_text (97 ∷ []) ∷ [])))
unfolding continues next_byte first_byte
one-IsTree = (omega arith, omega arith, (refl, omega arith, refl, refl, tt))

lengths_example :
    (len_bytes ⦃crates = reference⦄ three ≡ length (text three.root))
    × (len_chars ⦃crates = reference⦄ three ≡ count_chars (text three.root))
    × (len_lines ⦃crates = reference⦄ three ≡ count_breaks (text three.root) + 1)
    × (len_utf16_cu ⦃crates = reference⦄ three
        ≡ count_chars (text three.root) + count_surrogates (text three.root))
lengths_example =
    lengths_lem ⦃lim = small_chunks⦄ ⦃crates = reference⦄ reference-IsDocumented 1 three
      three-IsTree (omega arith)

byte_index-beyond_example :
    (try_byte_to_char ⦃crates = reference⦄ 2 three 9
      ≡ some (err (Error.byte_index_out_of_bounds 9 (length (text three.root)))))
    × (try_byte_to_line ⦃crates = reference⦄ 2 three 9
        ≡ some (err (Error.byte_index_out_of_bounds 9 (length (text three.root)))))
byte_index-beyond_example =
    byte_index-beyond ⦃lim = small_chunks⦄ ⦃crates = reference⦄ reference-IsDocumented 1 three
      three-IsTree (omega arith) 2 9 (omega arith)

char_index-beyond_example :
    (try_char_to_byte ⦃crates = reference⦄ 2 three 9
      ≡ some (err (Error.char_index_out_of_bounds 9 (count_chars (text three.root)))))
    × (try_char_to_line ⦃crates = reference⦄ 2 three 9
        ≡ some (err (Error.char_index_out_of_bounds 9 (count_chars (text three.root)))))
    × (try_char_to_utf16_cu ⦃crates = reference⦄ 2 three 9
        ≡ some (err (Error.char_index_out_of_bounds 9 (count_chars (text three.root)))))
char_index-beyond_example =
    char_index-beyond ⦃lim = small_chunks⦄ ⦃crates = reference⦄ reference-IsDocumented 1 three
      three-IsTree (omega arith) 2 9 (omega arith)

try_char_to_byte_example :
    (b : ℕ) × (try_char_to_byte ⦃crates = reference⦄ 2 three 2 ≡ some (ok b))
    × StartsAt (text three.root) 2 b
try_char_to_byte_example =
    try_char_to_byte_lem ⦃lim = small_chunks⦄ ⦃crates = reference⦄ reference-IsDocumented 1 2 three
      three-IsTree (omega arith) (omega arith) 2 (omega arith)

try_byte_to_char_example :
    try_byte_to_char ⦃crates = reference⦄ 2 three 3
    ≡ some (ok (count_chars (take 3 (text three.root))))
try_byte_to_char_example =
    try_byte_to_char_lem ⦃lim = small_chunks⦄ ⦃crates = reference⦄ reference-IsDocumented 1 2 three
      three-IsTree (omega arith) (omega arith) 3 refl

byte_to_char-char_to_byte_example :
    (char_to_byte ⦃crates = reference⦄ 2 three 2 >>= λ b.
    byte_to_char ⦃crates = reference⦄ 2 three b)
    ≡ some 2
byte_to_char-char_to_byte_example =
    byte_to_char-char_to_byte ⦃lim = small_chunks⦄ ⦃crates = reference⦄ reference-IsDocumented 1 2
      three three-IsTree (omega arith) (omega arith) 2 (omega arith)

char_to_byte-byte_to_char_example :
    (byte_to_char ⦃crates = reference⦄ 2 three 3 >>= λ c.
    char_to_byte ⦃crates = reference⦄ 2 three c)
    ≡ some 3
char_to_byte-byte_to_char_example =
    char_to_byte-byte_to_char ⦃lim = small_chunks⦄ ⦃crates = reference⦄ reference-IsDocumented 1 2
      three three-IsTree (omega arith) (omega arith) 3 refl

pull_up_singular_nodes_example :
    (root' : Node) × (pull_up_singular_nodes 3 (internal (pack (of_text (97 ∷ []) ∷ [])))
      ≡ some root')
    × IsPulledUp ⦃lim = small_chunks⦄ 1 (text (internal (pack (of_text (97 ∷ []) ∷ [])))) root'
pull_up_singular_nodes_example =
    pull_up_singular_nodes_lem ⦃lim = small_chunks⦄ 1 3 (internal (pack (of_text (97 ∷ []) ∷ [])))
      one-IsTree (omega arith)

try_split_off_example :
    ((count_chars (text three.root) < 2)
      × (try_split_off ⦃lim = small_chunks⦄ ⦃crates = reference⦄ 2 7 three 2
          ≡ some (three, err (Error.char_index_out_of_bounds 2 (count_chars (text three.root))))))
    ⊎ ((left right : Rope) × (try_split_off ⦃lim = small_chunks⦄ ⦃crates = reference⦄ 2 7 three 2
          ≡ some (left, ok right))
        × AreSplitOff ⦃lim = small_chunks⦄ 1 (text three.root) 2 left right)
try_split_off_example =
    try_split_off_lem ⦃lim = small_chunks⦄ ⦃crates = reference⦄ reference-IsDocumented 1 2 7 three 2
      three-IsTree (omega arith) (omega arith) (omega arith) (omega arith)
