-- ===== src/Str/Leads.antt =====
-- How often the characters of a string begin.
use ropey.Common.{
  ℕ, zero, suc, ◌≤◌, ◌<◌, ◌≡◌, true, false, some, List, [], ◌∷◌, arith, length, drop,
}
use ropey.Crlf.{is_continuation}
use ropey.Str.{
  Expect, start, tail_one, tail_two, tail_three, after_e0, after_ed, after_f0, after_f4, first_byte,
  next_byte, continues,
}
use ropey.Str.Utf8.{step, first_begins}

-- How many continuation bytes a state wants.
abbrev wanted : Expect → ℕ
wanted start = 0
wanted tail_one = 1
wanted tail_two = 2
wanted tail_three = 3
wanted after_e0 = 2
wanted after_ed = 2
wanted after_f0 = 3
wanted after_f4 = 3

wanted-le : (e : Expect) → wanted e ≤ 3
wanted-le start = omega arith
wanted-le tail_one = omega arith
wanted-le _ = omega arith

wanted-next_byte :
    (e : Expect) (b : ℕ) (e' : Expect)
    → next_byte e b ≡ some e'
    → is_continuation b ≡ true
    → wanted e ≡ suc (wanted e')
unfolding next_byte first_byte
wanted-next_byte start b e' h k = ground arith
wanted-next_byte tail_one b e' h k = ground arith
wanted-next_byte _ b e' h k = ground arith

ascii-next_byte :
    (e : Expect) (b : ℕ) (e' : Expect) → next_byte e b ≡ some e' → b < 0x80 → e' ≡ start
unfolding next_byte first_byte
ascii-next_byte start b e' h k = ground arith
ascii-next_byte tail_one b e' h k = ground arith
ascii-next_byte _ b e' h k = ground arith

-- A string has no four continuation bytes in a row.
pub no_four_continuations :
    (e : Expect) (a b c d : ℕ) (t : List ℕ)
    → continues e (a ∷ (b ∷ (c ∷ (d ∷ t)))) ≡ true
    → is_continuation a ≡ true
    → is_continuation b ≡ true
    → is_continuation c ≡ true
    → is_continuation d ≡ true
    → ⊥
no_four_continuations e a b c d t h ha hb hc hd =
    let (e1, n1, h1) = step e a (b ∷ (c ∷ (d ∷ t))) h in
    let (e2, n2, h2) = step e1 b (c ∷ (d ∷ t)) h1 in
    let (e3, n3, h3) = step e2 c (d ∷ t) h2 in
    let (e4, n4, h4) = step e3 d t h3 in
    absurd (
      omega (
        arith,
        wanted-le e,
        wanted-next_byte e a e1 n1 ha,
        wanted-next_byte e1 b e2 n2 hb,
        wanted-next_byte e2 c e3 n3 hc,
        wanted-next_byte e3 d e4 n4 hd,
      ))

-- Behind an ASCII byte a character begins.
pub begins_after_ascii :
    (e : Expect) (a b : ℕ) (t : List ℕ)
    → continues e (a ∷ (b ∷ t)) ≡ true
    → a < 0x80
    → is_continuation b ≡ false
begins_after_ascii e a b t h k =
    let (e1, n1, h1) = step e a (b ∷ t) h in
    let (e2, n2, h2) = step e1 b t h1 in first_begins b e2 (rw (ascii-next_byte e a e1 n1 k) at n2)

-- What stands behind the first bytes of a string goes on well.
pub continues-drop :
    (e : Expect) (n : ℕ) (t : List ℕ)
    → n < length t
    → continues e t ≡ true
    → (e' : Expect) × (continues e' (drop n t) ≡ true)
continues-drop e zero t p h = (e, h)
continues-drop e (suc n) [] p h = elim p [ ]
continues-drop e (suc n) (b ∷ t) p h =
    let (e', next, rest) = step e b t h in continues-drop e' n t (omega arith) rest
