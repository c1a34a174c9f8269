-- ===== src/Rope/Insert/Closures.antt =====
-- The two closures of `insert_internal` (src/rope.rs) as a whole.
use ropey.Crates.Measures.Seams.{and_false, is_at-last}
use ropey.Common.{
  ℕ, ◌+◌, ◌-◌, ◌<◌, ◌≡◌, refl, sym, ◌∙◌, ap, Bool, true, false, ◌&&◌, Option, none, some, List, [],
  ◌∷◌, ◌++◌, arith, ltb, leb, ◌==◌, if◌then◌else◌, length, length-append, take, drop, subst,
  Bool-cases, append-nil, inl, inr, take-append-drop, take_all, drop_all, not, ◌⊎◌,
}
use ropey.Crlf.{cr, lf, is_continuation}
use ropey.Str.{IsStr, start, continues, next_byte, first_byte}
use ropey.Str.Cut.{boundary_end}
use ropey.Str.Utf8.{append-IsStr, suffix-IsStr}
use ropey.Crates.{Crates, IsDocumented}
use ropey.Crates.Measures.{byte_is, count_breaks, counts_break}
use ropey.Crates.Measures.Laws.{ends_cr, count_breaks-append, tally-append}
use ropey.TextInfo.{TextInfo}
use ropey.TextInfo.Laws.{measure, ext}
use ropey.Tree.{Limits, Child}
use ropey.NodeText.{insert_str, push_str}
use ropey.NodeText.Edits.{push_str_lem}
use ropey.Tree.{leaf}
use ropey.Node.Edit.Edited.{IsEdited}
use ropey.Rope.Insert.{insert_text, insert_lf, lf_info, insert_rest, has_left_seam, is_at, ◌&&?◌}
use ropey.Rope.Insert.Measured.{and_then}
use ropey.Rope.Insert.Leaf.{insert_at_lem, split_leaf_lem}

one_lf : IsStr (lf ∷ [])
unfolding continues next_byte first_byte
one_lf = refl

lf_info_lem : (t : List ℕ) → IsStr t → lf_info (measure t) (ends_cr t) ≡ measure (t ++ lf ∷ [])
unfolding count_breaks counts_break
lf_info_lem t h =
    let breaks = count_breaks-append start t (lf ∷ []) h in
    ext _ _ (omega (arith, length-append t (lf ∷ [])))
      (omega (arith, tally-append (λ b. not (is_continuation b)) t (lf ∷ [])))
      (omega (arith, tally-append (λ b. leb 0xF0 b) t (lf ∷ []))) (ground (arith, breaks))

has_left_seam_lem :
    (char_idx : ℕ) (ins : List ℕ) (x idx : ℕ)
    → has_left_seam char_idx (x ∷ ins) idx ≡ some (idx == 0 && (ltb 0 char_idx && (x == lf)))
unfolding has_left_seam
has_left_seam_lem char_idx ins x idx =
    ap (λ m. some (idx == 0) &&? m) (and_then (ltb 0 char_idx) (x == lf))
    ∙ and_then (idx == 0) (ltb 0 char_idx && (x == lf))

seam_cases :
    (char_idx idx x n : ℕ)
    → 0 < n + (1 - char_idx)
    → ((idx == 0 && (ltb 0 char_idx && (x == lf))) ≡ false) ⊎ ((idx ≡ 0) × (x ≡ lf) × (0 < n))
seam_cases char_idx idx x n h = elim (Bool-cases (idx == 0 && (ltb 0 char_idx && (x == lf)))) [
  | inr other ↦ inl other
  | inl found ↦ inr (ground arith, ground arith, ground arith)
]

module _ ⦃lim : Limits⦄ ⦃crates : Crates⦄ (docs : IsDocumented crates) where
  insert_end : (t s : List ℕ) → insert_str t (length t) s ≡ some (t ++ s)
  unfolding push_str
  insert_end t s = push_str_lem docs t s

  insert_rest_lem :
      (v : Bool) (t ins : List ℕ) (x idx : ℕ)
      → IsStr t
      → IsStr (x ∷ ins)
      → (v ≡ false) ⊎ ((idx ≡ 0) × (x ≡ lf) × (0 < length t))
      → (rest t' : List ℕ) × (info : TextInfo) × (residual : Option Child) × (insert_rest v
            (x ∷ ins)
            idx
            (measure t)
            t
          ≡ some ((v, rest), t', info, residual))
        × (x ∷ ins ≡ (if v then lf ∷ rest else rest))
        × IsEdited 0
            (take (crates.chars_to_byte_idx t idx) t
              ++ (rest ++ drop (crates.chars_to_byte_idx t idx) t))
            (leaf t')
            info
            residual
  unfolding insert_rest
  insert_rest_lem false t ins x idx h k seam =
      let (t', info, residual, e, leaves) =
        insert_at_lem docs (false, x ∷ ins) t (x ∷ ins) idx h k (omega arith) in
      (x ∷ ins, t', info, residual, e, refl, leaves)
  insert_rest_lem true t ins x idx h k (inl wrong) = cc
  insert_rest_lem true t [] x idx h k (inr (e0, ex, pos)) = (
    [],
    t,
    measure t,
    none,
    refl,
    ap (λ b. b ∷ []) ex,
    record {
      joins = append-nil t ∙ sym (take-append-drop (crates.chars_to_byte_idx t idx) t);
      tree = h;
      accurate = refl;
      not_empty = pos;
      split_off = tt;
      meets = and_false (ends_cr t);
    },
  )
  insert_rest_lem true t (y ∷ ins) x idx h k (inr (e0, ex, pos)) =
      let more : (length (y ∷ ins) == 0) ≡ false = ground arith in
      let k' : IsStr (lf ∷ (y ∷ ins)) = rw ex at k in
      let (t', info, residual, e, leaves) =
        insert_at_lem docs {S = Bool × List ℕ} (true, y ∷ ins) t (y ∷ ins) idx h
          (suffix-IsStr (lf ∷ []) (y ∷ ins) one_lf k') (omega arith) in
      (y ∷ ins, t', info, residual, rw more e, ap (λ b. b ∷ (y ∷ ins)) ex, leaves)

  -- For a leaf that is not empty, with an accurate text info, the second closure leaves the text
  -- with an LF at its end, in one leaf or in two, with accurate text infos.
  pub insert_lf_lem :
      (t ins : List ℕ) (idx : ℕ)
      → IsStr t
      → 0 < length t
      → (t' : List ℕ) × (info : TextInfo) × (residual : Option Child) × (insert_lf ins idx
            (measure t)
            t
          ≡ some (tt, t', info, residual))
        × IsEdited 0 (t ++ lf ∷ []) (leaf t') info residual
  unfolding insert_lf
  insert_lf_lem t ins idx h pos =
      let last : is_at t (length t - 1) cr ≡ some (ends_cr t) =
        rw append-nil at (is_at-last t [] pos) in
      let pushed = insert_end t (lf ∷ []) in
      let same : take (length t) t ++ (lf ∷ [] ++ drop (length t) t) ≡ t ++ lf ∷ [] =
        rw (take_all, drop_all) refl in
      elim (Bool-cases (leb (length t + length ins) lim.max_bytes)) [
        | inl fits ↦ (
          t ++ lf ∷ [],
          measure (t ++ lf ∷ []),
          none,
          rw (fits, last, pushed) (ap (λ i. some (tt, t ++ lf ∷ [], i, none)) (lf_info_lem t h)),
          record {
            joins = append-nil (t ++ lf ∷ []);
            tree = append-IsStr t (lf ∷ []) h one_lf;
            accurate = refl;
            not_empty = omega (arith, length-append t (lf ∷ []));
            split_off = tt;
            meets = and_false (ends_cr (t ++ lf ∷ []));
          },
        )
        | inr big ↦
            let (t', info, residual, e, leaves) =
              split_leaf_lem {0} docs tt t (lf ∷ []) (length t) h one_lf (boundary_end t)
                (omega arith) in
            (
              t',
              info,
              residual,
              rw big e,
              subst (λ u. IsEdited 0 u (leaf t') info residual) same leaves,
            )
      ]

  -- For an insertion that is not empty, the first closure takes an LF off its front where it is made
  -- at the start of a leaf that is not the first of the rope, and captures that it did and the rest.
  -- It leaves the leaf with the rest inserted, in one leaf or in two, with accurate text infos.
  pub insert_text_lem :
      (t ins : List ℕ) (char_idx idx : ℕ)
      → IsStr t
      → IsStr ins
      → 0 < length ins
      → 0 < length t + (1 - char_idx)
      → (rest t' : List ℕ) × (info : TextInfo) × (residual : Option Child) × (insert_text char_idx
            ins idx
            (measure t)
            t
          ≡ some ((idx == 0 && (ltb 0 char_idx && byte_is ins 0 lf), rest), t', info, residual))
        × (ins ≡ (if idx == 0 && (ltb 0 char_idx && byte_is ins 0 lf) then lf ∷ rest else rest))
        × IsEdited 0
            (take (crates.chars_to_byte_idx t idx) t
              ++ (rest ++ drop (crates.chars_to_byte_idx t idx) t))
            (leaf t')
            info
            residual
  unfolding insert_text
  insert_text_lem t [] char_idx idx h k pos nonempty = absurd (omega arith)
  insert_text_lem t (x ∷ ins) char_idx idx h k pos nonempty =
      let v = idx == 0 && (ltb 0 char_idx && (x == lf)) in
      let lead = has_left_seam_lem char_idx ins x idx in
      let seam : (v ≡ false) ⊎ ((idx ≡ 0) × (x ≡ lf) × (0 < length t)) =
        seam_cases char_idx idx x (length t) nonempty in
      let (rest, t', info, residual, e, front, leaves) = insert_rest_lem v t ins x idx h k seam in
      (rest, t', info, residual, rw lead e, front, leaves)
