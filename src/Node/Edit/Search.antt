-- ===== src/Node/Edit/Search.antt =====
-- `search_char_idx_only` of src/tree/node_children.rs beside `search_char_idx`.
use ropey.Common.{ℕ, ◌+◌, ◌≡◌, refl, ap, some, [], ◌∷◌, ltb, inl, inr, Bool-cases, ◌>>=◌, length}
use ropey.TextInfo
use ropey.TextInfo.{TextInfo, add}
use ropey.Tree.{NodeChildren}
use ropey.NodeChildren.{init, search_from, search_by, search_char_idx}
use ropey.Node.Edit.{count_from, search_char_idx_only}

abbrev pub chars_only : ℕ × TextInfo → ℕ × ℕ
chars_only (idx, accum) = (idx, accum.chars)

count_from_lem :
    (i : ℕ) (cs : NodeChildren) (idx : ℕ) (acc : TextInfo)
    → count_from i cs idx acc.chars
      ≡ chars_only (search_from (λ start end. ltb i end.chars) cs idx acc)
unfolding count_from search_from add
count_from_lem i [] idx acc = refl
count_from_lem i ((info, n) ∷ cs) idx acc = elim (Bool-cases (ltb i (add acc info).chars)) [
  | inl found ↦ rw found refl
  | inr passed ↦ rw passed (count_from_lem i cs (idx + 1) (add acc info))
]

-- On every array, `search_char_idx_only` and `search_char_idx` find the same child behind the same
-- number of chars, or panic both.
pub search_char_idx_only_lem :
    (cs : NodeChildren) (i : ℕ)
    → search_char_idx_only cs i ≡ (search_char_idx cs i >>= λ found. some (chars_only found))
unfolding search_char_idx_only search_char_idx search_by
search_char_idx_only_lem cs i = elim (Bool-cases (ltb 0 (length cs))) [
  | inl some_child ↦ rw some_child (ap some (count_from_lem i (init cs) 0 TextInfo.new))
  | inr empty ↦ rw empty refl
]
