-- ===== src/Node/Edit/Contexts.antt =====
-- The seams of a part of a text, from those of the text around it, for `edit_chunk_at_char` of
-- src/tree/node.rs: `before` and `after` stand around the text `x ++ (y ++ z)`.
use ropey.Common.{
  ℕ, ◌<◌, ◌≡◌, sym, ◌∙◌, ap, false, List, [], ◌∷◌, ◌++◌, arith, length, append-nil, append_assoc,
}
use ropey.Crates.Measures.Laws.{cuts_crlf, ends_cr, ends_cr-append}
use ropey.Crates.Measures.Seams.{and_false, cuts_crlf-front, cuts_crlf-behind, no_seam}

pub cuts_crlf-back : (t xs ys : List ℕ) → 0 < length xs → cuts_crlf (t ++ xs) ys ≡ cuts_crlf xs ys
cuts_crlf-back t xs ys h = rw (ends_cr-append t xs h)

pub left_down :
    (before x y z : List ℕ)
    → 0 < length y
    → cuts_crlf before (x ++ (y ++ z)) ≡ false
    → cuts_crlf x y ≡ false
    → cuts_crlf (before ++ x) y ≡ false
left_down before [] y z pos outer inner =
    rw append-nil (rw (cuts_crlf-front before y z pos) at outer)
left_down before (b ∷ x) y z pos outer inner = cuts_crlf-back before (b ∷ x) y (omega arith) ∙ inner

pub left_up :
    (before x y z y' : List ℕ)
    → 0 < length y
    → cuts_crlf before (x ++ (y ++ z)) ≡ false
    → cuts_crlf (before ++ x) y' ≡ false
    → cuts_crlf before (x ++ y') ≡ false
left_up before [] y z y' pos outer inner = rw append-nil at inner
left_up before (b ∷ x) y z y' pos outer inner = outer

pub left_in : (before x y : List ℕ) → cuts_crlf (before ++ x) y ≡ false → cuts_crlf x y ≡ false
left_in before x y h = no_seam x y (cuts_crlf-behind before x y h)

pub right_down :
    (x y z after : List ℕ)
    → 0 < length y
    → cuts_crlf (x ++ (y ++ z)) after ≡ false
    → cuts_crlf y z ≡ false
    → cuts_crlf y (z ++ after) ≡ false
right_down x y [] after pos outer inner =
    sym (cuts_crlf-back x y after pos) ∙ rw append-nil at outer
right_down x y (b ∷ z) after pos outer inner = inner

pub right_up :
    (x y z after y' : List ℕ)
    → 0 < length y'
    → cuts_crlf (x ++ (y ++ z)) after ≡ false
    → cuts_crlf y' (z ++ after) ≡ false
    → cuts_crlf (x ++ (y' ++ z)) after ≡ false
right_up x y [] after y' pos outer inner = rw append-nil (cuts_crlf-back x y' after pos ∙ inner)
right_up x y (b ∷ z) after y' pos outer inner =
    let old : cuts_crlf (x ++ (y ++ b ∷ z)) after ≡ cuts_crlf (b ∷ z) after =
      ap (λ t. cuts_crlf t after) (sym (append_assoc x y (b ∷ z)))
      ∙ cuts_crlf-back (x ++ y) (b ∷ z) after (omega arith) in
    let new : cuts_crlf (x ++ (y' ++ b ∷ z)) after ≡ cuts_crlf (b ∷ z) after =
      ap (λ t. cuts_crlf t after) (sym (append_assoc x y' (b ∷ z)))
      ∙ cuts_crlf-back (x ++ y') (b ∷ z) after (omega arith) in
    new ∙ (sym old ∙ outer)

pub right_in : (y z after : List ℕ) → cuts_crlf y (z ++ after) ≡ false → cuts_crlf y z ≡ false
right_in y [] after h = and_false (ends_cr y)
right_in y (b ∷ z) after h = h
