-- ===== src/Rope/Insert/Chunks.antt =====
-- The second case of `try_insert` of src/rope.rs, which inserts a text in chunks from its end.
use ropey.Common.{
  ℕ, zero, suc, ◌+◌, ◌-◌, ◌≤◌, ◌<◌, ◌≡◌, refl, ◌⊎◌, inl, inr, false, none, some, Option, List, ◌++◌,
  arith, ◌==◌, if◌then◌else◌, ◌>>=◌, length, take, drop, min, take-append-drop, ◌∷◌, ap, ap₂, [],
  ◌∙◌, sym, append_assoc, subst, length-append, take-append, drop-append,
}
use ropey.Crlf.{lf, find_good_split}
use ropey.Str.{IsStr, str_slice}
use ropey.Crates.{Crates, IsDocumented}
use ropey.Crates.Measures.{byte_is, count_chars}
use ropey.TextInfo.{word}
use ropey.Tree.{Limits, Node}
use ropey.Tree.Content.{text, IsTree}
use ropey.Rope.{Rope}
use ropey.Rope.Starts.{StartsAt, StartsAt-parts, StartsAt-unique}
use ropey.Rope.Insert.{insert_internal}
use ropey.Crlf.Nearest.{find_good_split-inside}
use ropey.Str.Cut.{IsCut-at, slices_at, break-boundary}
use ropey.Node.Info.{IsTree-IsStr}
use ropey.Str.Utf8.{append-IsStr}
use ropey.Rope.Insert.Char.{Inserted, insert_once, deeper, length-Inserted, count-Inserted}

module _ ⦃lim : Limits⦄ ⦃crates : Crates⦄ where
  -- Fuel for the chunks, and for the levels of the tree.
  unfoldable pub insert_chunks : ℕ → ℕ → Rope → ℕ → List ℕ → Option Rope
  insert_chunks zero levels self char_idx text = none
  insert_chunks (suc fuel) levels self char_idx text = if length text == 0 then some self else (do
    split_idx ← find_good_split (length text - min (lim.max_bytes - 4) (length text)) text false
    ins_text ← str_slice text split_idx (length text)
    text ← str_slice text 0 split_idx
    self ← insert_internal levels self char_idx ins_text
    insert_chunks fuel levels self char_idx text)

-- No byte of the text is an LF.
abbrev pub HasNoLf : List ℕ → Type 0
HasNoLf [] = Unit
HasNoLf (b ∷ t) = ((b == lf) ≡ false) × HasNoLf t

HasNoLf-take : (n : ℕ) (t : List ℕ) → HasNoLf t → HasNoLf (take n t)
HasNoLf-take zero t h = tt
HasNoLf-take (suc n) [] h = tt
HasNoLf-take (suc n) (b ∷ t) h = (h.0, HasNoLf-take n t h.1)

HasNoLf-drop : (n : ℕ) (t : List ℕ) → HasNoLf t → HasNoLf (drop n t)
HasNoLf-drop zero t h = h
HasNoLf-drop (suc n) [] h = tt
HasNoLf-drop (suc n) (b ∷ t) h = HasNoLf-drop n t h.1

HasNoLf-first : (t : List ℕ) → HasNoLf t → byte_is t 0 lf ≡ false
HasNoLf-first [] h = refl
HasNoLf-first (b ∷ t) h = h.0

front_of :
    (n : ℕ) (t : List ℕ) (i : ℕ) → HasNoLf t ⊎ (i ≡ 0) → (byte_is (drop n t) 0 lf ≡ false) ⊎ (i ≡ 0)
front_of n t i (inl none_in) = inl (HasNoLf-first (drop n t) (HasNoLf-drop n t none_in))
front_of n t i (inr first) = inr first

back_of : (n : ℕ) (t : List ℕ) (i : ℕ) → HasNoLf t ⊎ (i ≡ 0) → HasNoLf (take n t) ⊎ (i ≡ 0)
back_of n t i (inl none_in) = inl (HasNoLf-take n t none_in)
back_of n t i (inr first) = inr first

some_text : (c : ℕ) (t : List ℕ) → (length (c ∷ t) == 0) ≡ false
some_text c t = ground arith

module _ ⦃lim : Limits⦄ ⦃crates : Crates⦄ (docs : IsDocumented crates) where
  chunk_step :
      (fuel levels : ℕ) (self next last : Rope) (i : ℕ) (t ins rest : List ℕ) (r : ℕ)
      → (length t == 0) ≡ false
      → find_good_split (length t - min (lim.max_bytes - 4) (length t)) t false ≡ some r
      → str_slice t r (length t) ≡ some ins
      → str_slice t 0 r ≡ some rest
      → insert_internal levels self i ins ≡ some next
      → insert_chunks fuel levels next i rest ≡ some last
      → insert_chunks (suc fuel) levels self i t ≡ some last
  unfolding insert_chunks
  chunk_step fuel levels self next last i t ins rest r h0 h1 h2 h3 h4 h5 =
      rw (h0, h1, h2, h3, h4) h5

  nothing-Inserted :
      (d : ℕ) (root : Node) (i : ℕ)
      → IsTree d root
      → i ≤ count_chars (text root)
      → Inserted d 0 (text root) [] i root
  nothing-Inserted d root i h le =
      let t = text root in
      let b = crates.chars_to_byte_idx t i in
      let str = IsTree-IsStr d root h in
      record {
        byte = b;
        depth = d;
        starts = record {
          in_range = docs.to_byte-in_range t i str;
          boundary = docs.to_byte-boundary t i str;
          before = docs.to_byte-count t i str ∙ omega (arith, le);
        };
        new_text = sym (take-append-drop b t);
        tree = h;
        not_deeper = omega arith;
      }

  -- An insertion in front of the char `i`, and then one in front of it.
  Inserted-twice :
      (d grown : ℕ) (t l ins u : List ℕ) (i : ℕ) (root root' : Node)
      → IsStr t
      → IsStr ins
      → l ++ ins ≡ u
      → (once : Inserted d 1 t ins i root) → Inserted once.depth grown (text root) l i root'
      → Inserted d (suc grown) t u i root'
  Inserted-twice d grown t l ins u i root root' ht hi joins once twice =
      let a = take once.byte t in
      let z = drop once.byte t in
      let cut = IsCut-at t once.byte ht once.starts.boundary in
      let here : StartsAt (text root) i (length a) =
        subst (λ x. StartsAt x i (length a)) (sym once.new_text)
          (subst (λ n. StartsAt (a ++ (ins ++ z)) n (length a)) once.starts.before
            (StartsAt-parts a (ins ++ z) (append-IsStr ins z hi cut.right_str))) in
      let same =
        StartsAt-unique (text root) i twice.byte (length a) (IsTree-IsStr once.depth root once.tree)
          twice.starts here in
      let front : take twice.byte (text root) ≡ a =
        ap₂ take same once.new_text ∙ take-append a (ins ++ z) in
      let back : drop twice.byte (text root) ≡ ins ++ z =
        ap₂ drop same once.new_text ∙ drop-append a (ins ++ z) in
      record {
        byte = once.byte;
        depth = twice.depth;
        starts = once.starts;
        new_text =
            twice.new_text
            ∙ (ap₂ (λ x y. x ++ (l ++ y)) front back
                ∙ ap (λ x. a ++ x) (sym (append_assoc l ins z) ∙ ap (λ x. x ++ z) joins));
        tree = twice.tree;
        not_deeper = omega (arith, once.not_deeper, twice.not_deeper);
      }

  -- With more fuel than the text has bytes, and fuel for the levels of the tree and one more for
  -- each byte of the text, the loop ends without a panic, for a balanced tree that holds less than
  -- 2^64 bytes with the text, limits of at least two children and more than four bytes, a char
  -- index up to the number of chars, and a text without LF or the index 0. The tree stays balanced
  -- and holds the whole text in front of the char at the index.
  pub insert_chunks_lem :
      (fuel levels d : ℕ) (self : Rope) (i : ℕ) (t : List ℕ)
      → IsTree d self.root
      → length t < fuel
      → d + length t < levels
      → length (text self.root) + length t < word
      → 2 ≤ lim.max_children
      → 4 < lim.max_bytes
      → i ≤ count_chars (text self.root)
      → IsStr t
      → HasNoLf t ⊎ (i ≡ 0)
      → (root : Node) × (insert_chunks fuel levels self i t ≡ some (record { root = root }))
        × Inserted d (length t) (text self.root) t i root
  unfolding insert_chunks
  insert_chunks_lem zero levels d self i t h more enough small room big le str first =
      absurd (omega arith)
  insert_chunks_lem (suc fuel) levels d self i [] h more enough small room big le str first =
      (self.root, refl, nothing-Inserted d self.root i h le)
  insert_chunks_lem (suc fuel) levels d self i (c ∷ t) h more enough small room big le str first =
      let u = c ∷ t in
      let (r, e, split, inside) =
        find_good_split-inside (length u - min (lim.max_bytes - 4) (length u)) u
          (omega (arith, big)) in
      let cut = IsCut-at u r str (break-boundary u r split) in
      let len : length (take r u) + length (drop r u) ≡ length u =
        omega (arith, length-append (take r u) (drop r u), ap length cut.joins) in
      let pos : 0 < length (drop r u) = omega (arith, len, inside, cut.left_len) in
      let (root, e', once) =
        insert_once docs d levels self i (drop r u) h (omega (arith, enough)) (omega (arith, small))
          room le cut.right_str pos (front_of r u i first) in
      let after = length-Inserted d 1 (text self.root) (drop r u) i root once in
      let (root', e'', rest) =
        insert_chunks_lem fuel levels once.depth (record { root = root }) i (take r u) once.tree
          (omega (arith, len, pos, more)) (omega (arith, len, pos, enough, once.not_deeper))
          (omega (arith, len, after, small)) room big
          (count-Inserted d 1 (text self.root) (drop r u) i root once) cut.left_str
          (back_of r u i first) in
      let (back, front) = slices_at u r cut in
      (
        root',
        chunk_step fuel levels self (record { root = root }) (record { root = root' }) i u
            (drop r u) (take r u) r (some_text c t) e back front e' e'',
        deeper (omega (arith, len, pos)) (
            Inserted-twice d (length (take r u)) (text self.root) (take r u) (drop r u) u i root
              root' (IsTree-IsStr d self.root h) cut.right_str cut.joins once rest),
      )
