-- ===== src/NodeText/Split/Eight.antt =====
-- Valid splitting points among eight bytes of a string, for the buffer of `insert_str_split` in
-- src/tree/node_text.rs.
use ropey.Common.{
  ℕ, ◌+◌, ◌≤◌, ◌≡◌, Bool, true, false, inl, inr, some, List, ◌∷◌, arith, length, take, drop,
  Bool-cases, length-drop, ◌∙◌, ap,
}
use ropey.Crlf.{is_continuation, splits, is_break}
use ropey.Crlf.Nearest.{IsUnbroken}
use ropey.Crlf.Window.{window, length-window, is_break-window}
use ropey.Str.{Expect, start, continues, IsStr}
use ropey.Str.Utf8.{step}
use ropey.Str.Leads.{no_four_continuations, begins_after_ascii, continues-drop}

-- A character that may not be cut off before is the LF of a CRLF pair, and may be cut off behind.
cut_before_or_behind :
    (e : Expect) (a b c : ℕ) (t : List ℕ)
    → continues e (b ∷ (c ∷ t)) ≡ true
    → is_continuation b ≡ false
    → splits a b ≡ false
    → splits b c ≡ false
    → ⊥
cut_before_or_behind e a b c t h lead p q = ground (arith, begins_after_ascii e b c t h)

-- The tests at the first five inner positions.
five_tests :
    (e : Expect) (a b c d f g : ℕ) (t : List ℕ)
    → continues e (b ∷ (c ∷ (d ∷ (f ∷ (g ∷ t))))) ≡ true
    → splits a b ≡ false
    → splits b c ≡ false
    → splits c d ≡ false
    → splits d f ≡ false
    → splits f g ≡ false
    → ⊥
five_tests e a b c d f g t h p q r s u =
    let (e1, n1, h1) = step e b (c ∷ (d ∷ (f ∷ (g ∷ t)))) h in
    let (e2, n2, h2) = step e1 c (d ∷ (f ∷ (g ∷ t))) h1 in
    let (e3, n3, h3) = step e2 d (f ∷ (g ∷ t)) h2 in
    elim (Bool-cases (is_continuation b)) [
      | inr lead ↦ cut_before_or_behind e a b c _ h lead p q
      | inl hb ↦ elim (Bool-cases (is_continuation c)) [
        | inr lead ↦ cut_before_or_behind e1 b c d _ h1 lead q r
        | inl hc ↦ elim (Bool-cases (is_continuation d)) [
          | inr lead ↦ cut_before_or_behind e2 c d f _ h2 lead r s
          | inl hd ↦ elim (Bool-cases (is_continuation f)) [
            | inr lead ↦ cut_before_or_behind e3 d f g t h3 lead s u
            | inl hf ↦ no_four_continuations e b c d f (g ∷ t) h hb hc hd hf
          ]
        ]
      ]
    ]

some-false : (b : Bool) → some b ≡ some false → b ≡ false
some-false b h = cc

eight_bytes :
    (e : Expect) (u : List ℕ) → 8 ≤ length u → continues e u ≡ true → IsUnbroken (take 8 u) → ⊥
unfolding is_break
eight_bytes e (a ∷ (b ∷ (c ∷ (d ∷ (f ∷ (g ∷ (h ∷ (i ∷ t)))))))) l k none_inside =
    let (e', next, rest) = step e a _ k in
    five_tests e' a b c d f g (h ∷ (i ∷ t)) rest
      (some-false _ (none_inside 1 (omega arith) (omega arith)))
      (some-false _ (none_inside 2 (omega arith) (omega arith)))
      (some-false _ (none_inside 3 (omega arith) (omega arith)))
      (some-false _ (none_inside 4 (omega arith) (omega arith)))
      (some-false _ (none_inside 5 (omega arith) (omega arith)))
eight_bytes e _ l k none_inside = absurd (omega arith)

pub eight_have_break :
    (t : List ℕ) (i : ℕ) → IsStr t → i + 8 ≤ length t → IsUnbroken (window 8 i t) → ⊥
eight_have_break t i h fits none_inside =
    let (e, rest) = continues-drop start i t (omega arith) h in
    eight_bytes e (drop i t) (omega (arith, length-drop i t)) rest none_inside

-- A text of eight bytes or more has a valid splitting point inside.
pub long_have_break : (t : List ℕ) → IsStr t → 8 ≤ length t → IsUnbroken t → ⊥
long_have_break t h fits none_inside =
    let len = length-window 8 0 t (omega arith) in
    eight_have_break t 0 h (omega arith) (λ j p q.
      let same : 0 + j ≡ j = omega arith in
      is_break-window 8 0 t j (omega arith) p (omega (arith, len, q))
      ∙ (ap (λ k. is_break k t) same ∙ none_inside j p (omega (arith, len, fits, q))))
