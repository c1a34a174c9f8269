-- ===== src/Lib.antt =====
-- Ropey: a text rope for Rust.
--
-- A rope is a B-tree whose leaves hold chunks of UTF-8 text; each internal node keeps beside each
-- child the measures of its text. No chunk boundary lies inside a code point or a CRLF pair.
--   Common        shared names, Boolean tests, panics as `Option`, lemmas on lists
--   Str           Rust's `&str`: UTF-8 strings, character boundaries, slices
--   Crates        the functions of `str_indices` and `smallvec` that the code calls, as parameters
--                 with their documented laws, and functions that satisfy these
--   Crlf          src/crlf.rs: where a text may be split, and the searches for such a position
--   TextInfo      src/tree/text_info.rs: the measures of a text
--   NodeText      src/tree/node_text.rs: the text of a leaf and its edits
--   Tree          src/tree/mod.rs and the node types; in Content the invariant of a tree
--   NodeChildren  src/tree/node_children.rs: the child array, its edits and searches
--   Node          src/tree/node.rs: the queries that walk down the tree; in Edit the edit of a leaf
--                 by a closure, in Divide `split`, in Append the joins of two trees, in Zip and
--                 FixSeam the fixes of the edges and of a seam, in CrlfSeam `fix_crlf_seam`; in
--                 Merge the methods of the child array that edit the children
--   StrUtils      src/str_utils.rs: the line break at the end of a string; the conversions of that
--                 file stand where they are used, in Node and Rope
--   Error         src/lib.rs: the error type, and the bounds of ranges
--   Rope          src/rope.rs: lengths, chunks, and the conversions between kinds of positions;
--                 in Insert `insert_internal` with its two closures, `try_insert_char`, and the case
--                 of `try_insert` that inserts in chunks; in SplitOff `try_split_off`, in Append
--                 `append`, in Root `pull_up_singular_nodes`
-- Theorems on code that calls the crates assume `IsDocumented`, the laws of Crates; those on a tree
-- assume that it is balanced, `IsTree` of Tree/Content.
-- A definition has the name of the function it models; a loop is a definition of its own. A
-- function that may panic returns an `Option`, and `none` is the panic. A string is the list of
-- its bytes, and `IsStr` says that it is UTF-8. `usize` and `u64` have 64 bits; fields of a text
-- info wrap around, as in a release build, and debug assertions are left out. The features are the
-- default ones, `unicode_lines` and `cr_lines`. Mutation is a new value: `Arc::make_mut` copies a
-- shared node before it is changed, so sharing is not visible. The arrays of the child nodes are
-- lists, without the unsafe code that stores them.
-- The walks down the tree take fuel for its levels: a balanced tree of depth `d` has all leaves at
-- depth `d`, and any fuel above `d` is enough. An insertion may add a level, so the chunked case of
-- `try_insert` has fuel for a level, and for a round of its loop, for each byte of the text.
-- The fixes of edges and seams merge nodes: each round but the last leaves fewer, so their fuel is
-- more than the number of nodes, which Tree/Counts bounds by the text.
-- An insertion that begins with an LF at the start of a leaf behind the first one is outside the
-- theorems on `insert_internal`: Rope/Insert/SeamTests has a run of it that misplaces the LF.
-- `append` is proved for a second text that does not begin with an LF; `fix_crlf_seam`, which it calls
-- for the others, is modelled, without theorems.
-- The searches, queries and conversions by line break and by UTF-16 code unit are modelled too; the
-- line and UTF-16 index functions of `str_indices` have no laws in `IsDocumented`, so the
-- positions that these give are not specified.
-- Not modelled: src/slice.rs and src/iter.rs, which offset and walk what is modelled here;
-- src/rope_builder.rs; of src/rope.rs `remove` and the case of `try_insert` that builds a rope and
-- splices it in; `remove_char_range` of src/tree/node.rs;
-- `last_line_start_byte_idx` of src/str_utils.rs.
pub mod Common
pub mod Crlf
pub mod Str
pub mod Crates
pub mod TextInfo
pub mod NodeText
pub mod Tree
pub mod NodeChildren
pub mod Node
pub mod Error
pub mod Rope
pub mod StrUtils
