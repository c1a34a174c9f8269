-- ===== src/Rope/Insert/Tests.antt =====
-- Examples of the theorems on the closures of `insert_internal`, with the small limits.
use ropey.Common.{
  ℕ, ◌≡◌, refl, ◌&&◌, some, Option, List, [], ◌∷◌, ◌++◌, arith, take, drop, ltb, ◌==◌,
  if◌then◌else◌, ◌<◌, ◌⊎◌, inl,
}
use ropey.Crlf.{lf}
use ropey.Str.{IsStr, continues, next_byte, first_byte}
use ropey.Crates.Measures.{byte_is, count_chars}
use ropey.Crates.Reference.{reference, reference-IsDocumented, to_byte}
use ropey.TextInfo.{TextInfo}
use ropey.TextInfo.Laws.{measure}
use ropey.Tree.{Child, small_chunks, Node, internal, pack}
use ropey.Rope.Insert.{inserted_info, insert_text, insert_lf, insert_internal, try_insert_char}
use ropey.Rope.Insert.Measured.{inserted_info_parts}
use ropey.Tree.{leaf}
use ropey.Node.Edit.Edited.{IsEdited}
use ropey.Rope.Insert.Closures.{insert_text_lem, insert_lf_lem}
use ropey.Tree.Content.{text, IsTree}
use ropey.Rope.{Rope}
use ropey.Rope.Starts.{StartsAt}
use ropey.Error.{Error, ok, err}
use ropey.Rope.Insert.Char.{Inserted, try_insert_char_lem}
use ropey.Rope.Insert.Whole.{insert_internal_lem}
use ropey.Rope.Insert.Chunks.{insert_chunks, insert_chunks_lem, HasNoLf}

abbrev a_cr : List ℕ
a_cr = 97 ∷ 13 ∷ []

abbrev lf_b : List ℕ
lf_b = 10 ∷ 98 ∷ []

abbrev a_crlf_b : List ℕ
a_crlf_b = 97 ∷ 13 ∷ 10 ∷ 98 ∷ []

a_cr-IsStr : IsStr a_cr
unfolding continues next_byte first_byte
a_cr-IsStr = refl

lf_b-IsStr : IsStr lf_b
unfolding continues next_byte first_byte
lf_b-IsStr = refl

d-IsStr : IsStr (100 ∷ [])
unfolding continues next_byte first_byte
d-IsStr = refl

abbrev long_text : List ℕ
long_text = 100 ∷ (101 ∷ (102 ∷ (103 ∷ (104 ∷ (105 ∷ [])))))

long_text-IsStr : IsStr long_text
unfolding continues next_byte first_byte
long_text-IsStr = refl

long_text-HasNoLf : HasNoLf long_text
long_text-HasNoLf =
    let h0 : HasNoLf [] = tt in
    let h1 : HasNoLf (105 ∷ []) = (refl, h0) in
    let h2 : HasNoLf (104 ∷ (105 ∷ [])) = (refl, h1) in
    let h3 : HasNoLf (103 ∷ (104 ∷ (105 ∷ []))) = (refl, h2) in
    let h4 : HasNoLf (102 ∷ (103 ∷ (104 ∷ (105 ∷ [])))) = (refl, h3) in
    let h5 : HasNoLf (101 ∷ (102 ∷ (103 ∷ (104 ∷ (105 ∷ []))))) = (refl, h4) in (refl, h5)

inserted_info_example :
    inserted_info ⦃crates = reference⦄ (measure (a_cr ++ lf_b)) (a_cr ++ lf_b) 2 lf_b
    ≡ some (measure (a_cr ++ (lf_b ++ lf_b)))
inserted_info_example =
    inserted_info_parts ⦃crates = reference⦄ reference-IsDocumented a_cr lf_b lf_b a_cr-IsStr
      lf_b-IsStr lf_b-IsStr (omega arith)

insert_lf_example :
    (t' : List ℕ) × (info : TextInfo) × (residual : Option Child) × (insert_lf ⦃lim = small_chunks⦄
        ⦃crates = reference⦄ lf_b 1
        (measure a_cr)
        a_cr
      ≡ some (tt, t', info, residual))
    × IsEdited ⦃lim = small_chunks⦄ 0 (a_cr ++ lf ∷ []) (leaf t') info residual
insert_lf_example =
    insert_lf_lem ⦃lim = small_chunks⦄ ⦃crates = reference⦄ reference-IsDocumented a_cr lf_b 1
      a_cr-IsStr (omega arith)

insert_text_example :
    (rest t' : List ℕ) × (info : TextInfo) × (residual : Option Child) × (insert_text
        ⦃lim = small_chunks⦄ ⦃crates = reference⦄ 5 lf_b 0
        (measure a_cr)
        a_cr
      ≡ some ((0 == 0 && (ltb 0 5 && byte_is lf_b 0 lf), rest), t', info, residual))
    × (lf_b ≡ (if 0 == 0 && (ltb 0 5 && byte_is lf_b 0 lf) then lf ∷ rest else rest))
    × IsEdited ⦃lim = small_chunks⦄ 0
        (take (to_byte 0 a_cr) a_cr ++ (rest ++ drop (to_byte 0 a_cr) a_cr))
        (leaf t')
        info
        residual
unfolding reference
insert_text_example =
    insert_text_lem ⦃lim = small_chunks⦄ ⦃crates = reference⦄ reference-IsDocumented a_cr lf_b 5 0
      a_cr-IsStr lf_b-IsStr (omega arith) (omega arith)

-- A rope of two leaves below a root, "ab" and "c".
abbrev two_leaves : Rope
two_leaves = record {
  root = internal (
      pack (
        (measure (97 ∷ 98 ∷ []), leaf (97 ∷ 98 ∷ []))
        ∷ ((measure (99 ∷ []), leaf (99 ∷ [])) ∷ [])));
}

two_leaves-IsTree : IsTree ⦃lim = small_chunks⦄ 1 two_leaves.root
unfolding continues next_byte first_byte
two_leaves-IsTree =
    (omega arith, omega arith, (refl, omega arith, refl, refl, (refl, omega arith, refl, refl, tt)))

insert_internal_example :
    (root : Node) × (b : ℕ) × (insert_internal ⦃lim = small_chunks⦄ ⦃crates = reference⦄ 2
        two_leaves 2 a_cr
      ≡ some (record { root = root }))
    × StartsAt (text two_leaves.root) 2 b
    × (text root ≡ take b (text two_leaves.root) ++ (a_cr ++ drop b (text two_leaves.root)))
    × (IsTree ⦃lim = small_chunks⦄ 1 root ⊎ IsTree ⦃lim = small_chunks⦄ 2 root)
insert_internal_example =
    insert_internal_lem ⦃lim = small_chunks⦄ ⦃crates = reference⦄ reference-IsDocumented 1 2
      two_leaves 2 a_cr two_leaves-IsTree (omega arith) (omega arith) (omega arith) (omega arith)
      a_cr-IsStr (omega arith) (inl refl)

try_insert_char_example :
    ((count_chars (text two_leaves.root) < 3)
      × (try_insert_char ⦃lim = small_chunks⦄ ⦃crates = reference⦄ 2 two_leaves 3 (100 ∷ [])
          ≡ some (err (Error.char_index_out_of_bounds 3 (count_chars (text two_leaves.root))))))
    ⊎ ((root : Node) × (try_insert_char ⦃lim = small_chunks⦄ ⦃crates = reference⦄ 2 two_leaves 3
            (100 ∷ [])
          ≡ some (ok (record { root = root })))
        × Inserted ⦃lim = small_chunks⦄ 1 1 (text two_leaves.root) (100 ∷ []) 3 root)
try_insert_char_example =
    try_insert_char_lem ⦃lim = small_chunks⦄ ⦃crates = reference⦄ reference-IsDocumented 1 2
      two_leaves 3 (100 ∷ []) two_leaves-IsTree (omega arith) (omega arith) (omega arith) d-IsStr
      (omega arith) (inl refl)

insert_chunks_example :
    (root : Node) × (insert_chunks ⦃lim = small_chunks⦄ ⦃crates = reference⦄ 7 8 two_leaves 1
        long_text
      ≡ some (record { root = root }))
    × Inserted ⦃lim = small_chunks⦄ 1 6 (text two_leaves.root) long_text 1 root
insert_chunks_example =
    insert_chunks_lem ⦃lim = small_chunks⦄ ⦃crates = reference⦄ reference-IsDocumented 7 8 1
      two_leaves 1 long_text two_leaves-IsTree (omega arith) (omega arith) (omega arith)
      (omega arith) (omega arith) (omega arith) long_text-IsStr (inl long_text-HasNoLf)
