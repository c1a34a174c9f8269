-- ===== src/Crates/Measures/Seams.antt =====
-- Where a CRLF pair is cut between two strings, which counts as two line breaks.
use ropey.Common.{
  ℕ, suc, ◌-◌, ◌<◌, ◌≡◌, refl, sym, ◌⊎◌, inl, inr, Bool, true, false, ◌&&◌, some, List, [], ◌∷◌,
  ◌++◌, arith, ◌==◌, ◌>>=◌, length, get_elem?, get_elem?_total, append-nil, subst, ◌∙◌,
}
use ropey.Crlf.{cr, lf, seam_is_break}
use ropey.Crlf.Breaks.{IsBreak}
use ropey.Crlf.Joined.{seam_is_break_lem}
use ropey.Crates.Measures.{byte_is}
use ropey.Crates.Measures.Laws.{ends_cr, cuts_crlf, ends_cr-append}

pub and_false : (a : Bool) → (a && false) ≡ false
and_false true = refl
and_false false = refl

pub is_at-last :
    (l r : List ℕ)
    → 0 < length l
    → (get_elem? (l ++ r) (length l - 1) >>= λ x. some (x == cr)) ≡ some (ends_cr l)
is_at-last [] r h = absurd (omega arith)
is_at-last (b ∷ []) r h = refl
is_at-last (b ∷ (c ∷ t)) r h =
    let place : length (b ∷ (c ∷ t)) - 1 ≡ suc (length (c ∷ t) - 1) = omega arith in
    rw place (is_at-last (c ∷ t) r (omega arith))

-- Only the first byte of the right string matters at a seam.
pub cuts_crlf-front : (l ins r : List ℕ) → 0 < length ins → cuts_crlf l (ins ++ r) ≡ cuts_crlf l ins
cuts_crlf-front l [] r h = absurd (omega arith)
cuts_crlf-front l (b ∷ ins) r h = refl

-- Only the last bytes of the left text and the first of the right one matter at a seam.
pub cuts_crlf-join :
    (t xs ys : List ℕ)
    → cuts_crlf t xs ≡ false
    → cuts_crlf (t ++ xs) ys ≡ false
    → cuts_crlf t (xs ++ ys) ≡ false
cuts_crlf-join t [] ys h k = rw append-nil at k
cuts_crlf-join t (x ∷ xs) ys h k = h

pub cuts_crlf-behind :
    (t xs ys : List ℕ) → cuts_crlf (t ++ xs) ys ≡ false → (xs ≡ []) ⊎ (cuts_crlf xs ys ≡ false)
cuts_crlf-behind t [] ys h = inl refl
cuts_crlf-behind t (x ∷ xs) ys h = inr (rw (ends_cr-append t (x ∷ xs) (omega arith)) at h)

pub no_seam : (xs ys : List ℕ) → (xs ≡ []) ⊎ (cuts_crlf xs ys ≡ false) → cuts_crlf xs ys ≡ false
no_seam xs ys (inl empty) = subst (λ t. cuts_crlf t ys ≡ false) (sym empty) refl
no_seam xs ys (inr whole) = whole

-- A break of the joined text does not cut a CRLF pair.
pub IsBreak-cuts_crlf :
    (l r : List ℕ) → 0 < length l → IsBreak (length l) (l ++ r) → cuts_crlf l r ≡ false
unfolding seam_is_break
IsBreak-cuts_crlf l [] pos h = ground arith
IsBreak-cuts_crlf l (b ∷ r) pos h =
    let seam = seam_is_break_lem l (b ∷ r) pos (omega arith) ∙ h in
    let (a, ea) = get_elem?_total l (length l - 1) (omega arith) in
    let last : some (a == cr) ≡ some (ends_cr l) = rw (append-nil, ea) at (is_at-last l [] pos) in
    let e : (a == cr) ≡ ends_cr l = cc in
    let seam' = rw ea at seam in
    subst (λ x. (x && byte_is (b ∷ r) 0 lf) ≡ false) e (ground (arith, seam'))
