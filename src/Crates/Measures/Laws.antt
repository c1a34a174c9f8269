-- ===== src/Crates/Measures/Laws.antt =====
-- How the measures of two strings add up when the strings are joined.
use ropey.Common.{
  ℕ, ◌+◌, ◌≤◌, ◌≡◌, refl, Bool, true, false, List, [], ◌∷◌, ◌++◌, arith, ◌==◌, ◌&&◌, if◌then◌else◌,
  length, some, ◌<◌,
}
use ropey.Crlf.{cr, lf}
use ropey.Str.{Expect, start, continues, next_byte, first_byte, tail_one}
use ropey.Crates.Measures.{tally, byte_is, counts_break, count_breaks}
use ropey.Str.Utf8.{step, continues-nil}

pub tally-append : (p : ℕ → Bool) (xs ys : List ℕ) → tally p (xs ++ ys) ≡ tally p xs + tally p ys
tally-append p [] ys = omega arith
tally-append p (x ∷ xs) ys = omega (arith, tally-append p xs ys)

pub tally-le-length : (p : ℕ → Bool) (xs : List ℕ) → tally p xs ≤ length xs
tally-le-length p [] = omega arith
tally-le-length p (x ∷ xs) = ground (arith, tally-le-length p xs)

pub count_breaks-le-length : (xs : List ℕ) → count_breaks xs ≤ length xs
unfolding count_breaks
count_breaks-le-length [] = omega arith
count_breaks-le-length (x ∷ xs) = ground (arith, count_breaks-le-length xs)

-- The last byte is CR.
abbrev pub ends_cr : List ℕ → Bool
ends_cr [] = false
ends_cr (b ∷ []) = b == cr
ends_cr (b ∷ (c ∷ t)) = ends_cr (c ∷ t)

-- A CRLF pair is cut between the strings.
abbrev pub cuts_crlf : List ℕ → List ℕ → Bool
cuts_crlf xs ys = ends_cr xs && byte_is ys 0 lf

-- A string does not end in a byte that begins a longer code point.
last_byte : (e : Expect) (b : ℕ) → next_byte e b ≡ some start → b < 0xC0
unfolding next_byte first_byte
last_byte start b h = ground arith
last_byte tail_one b h = ground arith
last_byte _ b h = ground arith

last_two :
    (e : Expect) (b : ℕ) (e' : Expect) (c : ℕ)
    → next_byte e b ≡ some e'
    → next_byte e' c ≡ some start
    → b < 0xE0
unfolding next_byte first_byte
last_two start b start c h k = ground arith
last_two tail_one b start c h k = ground arith
last_two _ b tail_one c h k = ground arith
last_two _ b _ c h k = ground arith

counts_break_last :
    (b : ℕ) (ys : List ℕ)
    → b < 0xC0
    → (if counts_break b ys then 1 else 0) + (if b == cr && byte_is ys 0 lf then 1 else 0)
      ≡ (if counts_break b [] then 1 else 0)
unfolding counts_break
counts_break_last b ys h = ground arith

counts_break_two :
    (b c : ℕ) (ys : List ℕ) → b < 0xE0 → counts_break b (c ∷ ys) ≡ counts_break b (c ∷ [])
unfolding counts_break
counts_break_two b c ys h = ground arith

counts_break_far :
    (b c d : ℕ) (xs ys : List ℕ) → counts_break b (c ∷ (d ∷ xs)) ≡ counts_break b (c ∷ (d ∷ ys))
unfolding counts_break
counts_break_far b c d xs ys = refl

-- A cut CRLF pair counts once in the joined string, and twice in the parts.
pub count_breaks-append :
    (e : Expect) (xs ys : List ℕ)
    → continues e xs ≡ true
    → count_breaks (xs ++ ys) + (if cuts_crlf xs ys then 1 else 0)
      ≡ count_breaks xs + count_breaks ys
unfolding count_breaks
count_breaks-append e [] ys h = omega arith
count_breaks-append e (b ∷ []) ys h =
    let (e', next, end) = step e b [] h in
    omega (arith, counts_break_last b ys (last_byte e b (rw (continues-nil e' end) at next)))
count_breaks-append e (b ∷ (c ∷ [])) ys h =
    let (e', next, rest) = step e b (c ∷ []) h in
    let (e'', next', end) = step e' c [] rest in
    let narrow = last_two e b e' c next (rw (continues-nil e'' end) at next') in
    rw (counts_break_two b c ys narrow) (omega (arith, count_breaks-append e' (c ∷ []) ys rest))
count_breaks-append e (b ∷ (c ∷ (d ∷ xs))) ys h =
    let (e', next, rest) = step e b (c ∷ (d ∷ xs)) h in
    rw (counts_break_far b c d (xs ++ ys) xs)
      (omega (arith, count_breaks-append e' (c ∷ (d ∷ xs)) ys rest))

pub ends_cr-append : (xs ys : List ℕ) → 0 < length ys → ends_cr (xs ++ ys) ≡ ends_cr ys
ends_cr-append [] ys h = refl
ends_cr-append (x ∷ []) [] h = absurd (omega arith)
ends_cr-append (x ∷ []) (y ∷ ys) h = refl
ends_cr-append (x ∷ (x' ∷ xs)) ys h = ends_cr-append (x' ∷ xs) ys h
