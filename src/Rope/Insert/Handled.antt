-- ===== src/Rope/Insert/Handled.antt =====
-- The parts of `insert_internal` of src/rope.rs: the seams of an insertion, the first closure at the
-- leaf of the char, and the new root.
use ropey.Common.{
  ℕ, suc, ◌+◌, ◌≤◌, ◌<◌, ◌≡◌, refl, sym, ◌∙◌, ap, ap₂, ◌⊎◌, inl, inr, Bool, true, false, ◌&&◌, none,
  some, Option, List, [], ◌∷◌, ◌++◌, arith, ltb, ◌==◌, length, length-append, append-nil,
  append_assoc, take, drop, min, not, ◌-◌, take-append, drop-append,
}
use ropey.Crlf.{lf, is_continuation}
use ropey.Str.{IsStr, is_char_boundary}
use ropey.Str.Cut.{IsCut-at}
use ropey.Str.Utf8.{IsStr-BeginsChar}
use ropey.Crates.{Crates, IsDocumented}
use ropey.Crates.Measures.{byte_is, count_chars}
use ropey.Crates.Measures.Laws.{cuts_crlf, ends_cr, tally-append, tally-le-length}
use ropey.Crates.Measures.Seams.{and_false, cuts_crlf-front}
use ropey.TextInfo.{TextInfo}
use ropey.TextInfo.Laws.{measure}
use ropey.Tree.{pack, Limits, Node, internal, Child}
use ropey.Tree.Content.{Fits, text, IsTree}
use ropey.NodeChildren.Arrays.{push_lem}
use ropey.Node.Merge.Merged.{packed_text, packed-IsTree}
use ropey.Node.Edit.Edited.{IsEdited}
use ropey.Node.Edit.Contexts.{cuts_crlf-back}
use ropey.Node.Edit.Reached.{Handles}
use ropey.Rope.Insert.{insert_text, grow_root}
use ropey.Rope.Insert.Closures.{insert_text_lem}

pub no_chars : (t : List ℕ) → IsStr t → count_chars t ≡ 0 → t ≡ []
no_chars [] h e = refl
no_chars (b ∷ t) h e = absurd (ground (arith, IsStr-BeginsChar (b ∷ t) h))

insert_left :
    (before l r ins : List ℕ)
    → 0 < length ins
    → (byte_is ins 0 lf ≡ false) ⊎ (before ≡ [])
    → cuts_crlf before (l ++ r) ≡ false
    → cuts_crlf before (l ++ (ins ++ r)) ≡ false
insert_left before (b ∷ l) r ins pos first h = h
insert_left before [] r ins pos (inl no_lf) h =
    cuts_crlf-front before ins r pos
    ∙ (ap (λ b. ends_cr before && b) no_lf ∙ and_false (ends_cr before))
insert_left before [] r ins pos (inr nothing) h = rw nothing refl

insert_right :
    (l r ins after : List ℕ)
    → (after ≡ []) ⊎ (0 < length r)
    → cuts_crlf (l ++ r) after ≡ false
    → cuts_crlf (l ++ (ins ++ r)) after ≡ false
insert_right l r ins after (inl last) h =
    ap (cuts_crlf (l ++ (ins ++ r))) last ∙ and_false (ends_cr (l ++ (ins ++ r)))
insert_right l r ins after (inr more) h =
    ap (λ t. cuts_crlf t after) (sym (append_assoc l ins r))
    ∙ (cuts_crlf-back (l ++ ins) r after more ∙ (sym (cuts_crlf-back l r after more) ∙ h))

room_left :
    (all before t after : List ℕ) (i idx : ℕ)
    → (0 < length t) ⊎ (all ≡ [])
    → before ++ (t ++ after) ≡ all
    → count_chars before + idx ≡ i
    → idx ≤ count_chars t
    → 0 < length t + (1 - i)
room_left all before t after i idx (inl more) joins place le = omega (arith, more)
room_left all before t after i idx (inr nothing) joins place le = omega (
  arith,
  place,
  le,
  ap length (joins ∙ nothing),
  length-append before (t ++ after),
  length-append t after,
  tally-le-length (λ b. not (is_continuation b)) before,
  tally-le-length (λ b. not (is_continuation b)) t,
)

no_second :
    (ins : List ℕ) (i idx : ℕ)
    → (byte_is ins 0 lf ≡ false) ⊎ (i ≡ 0)
    → (idx == 0 && (ltb 0 i && byte_is ins 0 lf)) ≡ false
no_second ins i idx (inl no_lf) =
    ap (λ b. idx == 0 && (ltb 0 i && b)) no_lf
    ∙ (ap (λ b. idx == 0 && b) (and_false (ltb 0 i)) ∙ and_false (idx == 0))
no_second ins i idx (inr zero_th) =
    ap (λ n. idx == 0 && (ltb 0 n && byte_is ins 0 lf)) zero_th ∙ and_false (idx == 0)

clear_front :
    (before ins : List ℕ) (i idx : ℕ)
    → IsStr before
    → count_chars before + idx ≡ i
    → (byte_is ins 0 lf ≡ false) ⊎ (i ≡ 0)
    → (byte_is ins 0 lf ≡ false) ⊎ (before ≡ [])
clear_front before ins i idx h place (inl no_lf) = inl no_lf
clear_front before ins i idx h place (inr zero_th) =
    inr (no_chars before h (omega (arith, place, zero_th)))

some_behind :
    (l r after : List ℕ) (idx : ℕ)
    → count_chars l ≡ min idx (count_chars (l ++ r))
    → (after ≡ []) ⊎ (idx < count_chars (l ++ r))
    → (after ≡ []) ⊎ (0 < length r)
some_behind l r after idx h (inl last) = inl last
some_behind l r after idx h (inr lt) = inr (
    omega (
      arith,
      h,
      lt,
      tally-append (λ b. not (is_continuation b)) l r,
      tally-le-length (λ b. not (is_continuation b)) r,
    ))

pub some_or_none : (t : List ℕ) → (0 < length t) ⊎ (t ≡ [])
some_or_none [] = inr refl
some_or_none (b ∷ t) = inl (omega arith)

pub inserted_parts :
    (t f l r z ins : List ℕ) (b : ℕ)
    → f ++ ((l ++ r) ++ z) ≡ t
    → length f + length l ≡ b
    → f ++ ((l ++ (ins ++ r)) ++ z) ≡ take b t ++ (ins ++ drop b t)
inserted_parts t f l r z ins b joins len =
    let t' = (f ++ l) ++ (r ++ z) in
    let same : t ≡ t' =
      sym joins ∙ (ap (λ u. f ++ u) (append_assoc l r z) ∙ sym (append_assoc f l (r ++ z))) in
    let place : b ≡ length (f ++ l) = omega (arith, len, length-append f l) in
    let front : take b t ≡ f ++ l = ap₂ take place same ∙ take-append (f ++ l) (r ++ z) in
    let back : drop b t ≡ r ++ z = ap₂ drop place same ∙ drop-append (f ++ l) (r ++ z) in
    rw (front, back)
      (ap (λ u. f ++ u) (append_assoc l (ins ++ r) z ∙ ap (λ u. l ++ u) (append_assoc ins r z))
        ∙ sym (append_assoc f l (ins ++ (r ++ z))))

-- The text `w` is the chunk `t` with the insertion at the char `i` of the rope.
pub record Inserts (ins : List ℕ) (i : ℕ) (before t after : List ℕ) (s : Bool × List ℕ) (w : List ℕ)
    : Type 0 where
  pub no_seam : s.0 ≡ false
  pub at : ℕ
  pub chunk_str : IsStr t
  pub after_str : IsStr after
  pub boundary : is_char_boundary t at ≡ true
  pub place : count_chars before + count_chars (take at t) ≡ i
  pub new_text : w ≡ take at t ++ (ins ++ drop at t)

module _ ⦃lim : Limits⦄ ⦃crates : Crates⦄ where
  pub grow_root_lem :
      (d : ℕ) (whole : List ℕ) (node : Node) (info : TextInfo) (residual : Option Child)
      → 2 ≤ lim.max_children
      → IsEdited d whole node info residual
      → (root : Node) × (grow_root node info residual ≡ some root)
        × (text root ≡ whole)
        × (IsTree d root ⊎ IsTree (suc d) root)
  unfolding grow_root
  grow_root_lem d whole node info none room e =
      (node, refl, sym (append-nil (text node)) ∙ e.joins, inl e.tree)
  grow_root_lem d whole node info (some (r_info, r)) room e =
      let cs = (info, node) ∷ ((r_info, r) ∷ []) in
      let t : text (internal (pack cs)) ≡ whole =
        packed_text cs ∙ (ap (λ u. text node ++ u) (append-nil (text r)) ∙ e.joins) in
      let fits : Fits (IsTree d) cs = (
        e.tree,
        e.not_empty,
        e.accurate,
        rw append-nil e.meets,
        (e.split_off.0, e.split_off.1, e.split_off.2, and_false (ends_cr (text r)), tt),
      ) in
      (
        internal (pack cs),
        rw
            (
              push_lem [] (info, node) (omega (arith, room)),
              push_lem ((info, node) ∷ []) (r_info, r) (omega (arith, room)),
            )
            refl,
        t,
        inr (packed-IsTree d cs (omega arith) (omega (arith, room)) fits),
      )

module _ ⦃lim : Limits⦄ ⦃crates : Crates⦄ (docs : IsDocumented crates) where
  -- The first closure, at the leaf that holds the char.
  pub insert-Handles :
      (all ins : List ℕ) (i : ℕ) (before t after : List ℕ) (idx : ℕ)
      → IsStr ins
      → 0 < length ins
      → (byte_is ins 0 lf ≡ false) ⊎ (i ≡ 0)
      → before ++ (t ++ after) ≡ all
      → IsStr before
      → IsStr t
      → IsStr after
      → cuts_crlf before t ≡ false
      → cuts_crlf t after ≡ false
      → count_chars before + idx ≡ i
      → idx ≤ count_chars t
      → (after ≡ []) ⊎ (idx < count_chars t)
      → (0 < length t) ⊎ (all ≡ [])
      → Handles (Inserts ins i) before t after (insert_text i ins idx (measure t) t)
  insert-Handles all ins i before t after idx hi pos first joins bh th ah left right place le end
        some_text =
      let k = crates.chars_to_byte_idx t idx in
      let bound = docs.to_byte-boundary t idx th in
      let cut = IsCut-at t k th bound in
      let count = docs.to_byte-count t idx th in
      let (rest, t', info, residual, e, front, edited) =
        insert_text_lem docs t ins i idx th hi pos
          (room_left all before t after i idx some_text joins place le) in
      let no : (idx == 0 && (ltb 0 i && byte_is ins 0 lf)) ≡ false = no_second ins i idx first in
      let same : ins ≡ rest = rw no at front in
      record {
        state = (idx == 0 && (ltb 0 i && byte_is ins 0 lf), rest);
        new_text = t';
        info = info;
        residual = residual;
        whole = take k t ++ (rest ++ drop k t);
        returns = e;
        edited = edited;
        left = rw (sym same) (
            insert_left before (take k t) (drop k t) ins pos
              (clear_front before ins i idx bh place first) (rw cut.joins left));
        right = rw (sym same) (
            insert_right (take k t) (drop k t) ins after
              (some_behind (take k t) (drop k t) after idx (rw cut.joins count) (rw cut.joins end))
              (rw cut.joins right));
        claim = record {
          no_seam = no;
          at = k;
          chunk_str = th;
          after_str = ah;
          boundary = bound;
          place = omega (arith, count, place, le);
          new_text = ap (λ u. take k t ++ (u ++ drop k t)) (sym same);
        };
      }
