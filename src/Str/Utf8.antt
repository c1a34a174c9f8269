-- ===== src/Str/Utf8.antt =====
-- UTF-8 strings joined, and cut at a character boundary.
use ropey.Common.{
  ℕ, ◌<◌, ◌≡◌, refl, inl, inr, true, false, some, List, [], ◌∷◌, ◌++◌, arith, Option-cases, length,
  length-append, get_elem?-append_middle,
}
use ropey.Crlf.{is_continuation}
use ropey.Str.{Expect, start, tail_one, first_byte, next_byte, continues, IsStr, is_char_boundary}

-- The string does not begin in the middle of a code point.
abbrev pub BeginsChar : List ℕ → Type 0
BeginsChar [] = Unit
BeginsChar (b ∷ _) = is_continuation b ≡ false

-- The first byte of a code point never continues one.
next_byte-start :
    (e : Expect) (b : ℕ) (e' : Expect)
    → is_continuation b ≡ false
    → next_byte e b ≡ some e'
    → e ≡ start
unfolding next_byte
next_byte-start start b e' h k = refl
next_byte-start tail_one b e' h k = ground arith
next_byte-start _ b e' h k = ground arith

-- The state after a byte of a string that goes on well.
pub step :
    (e : Expect) (b : ℕ) (text : List ℕ)
    → continues e (b ∷ text) ≡ true
    → (e' : Expect) × (next_byte e b ≡ some e') × (continues e' text ≡ true)
unfolding continues
step e b text h = elim (Option-cases (next_byte e b)) [
  | inl stuck ↦ cc (rw (stuck, continues) at h)
  | inr (e', next) ↦ (e', next, rw (next, continues) at h)
]

step_back :
    (e : Expect) (b : ℕ) (text : List ℕ) {e' : Expect}
    → next_byte e b ≡ some e'
    → continues e' text ≡ true
    → continues e (b ∷ text) ≡ true
unfolding continues
step_back e b text next h = rw (next, continues) h

pub continues-nil : (e : Expect) → continues e [] ≡ true → e ≡ start
unfolding continues
continues-nil start h = refl
continues-nil tail_one h = cc
continues-nil _ h = cc

pub nil-continues : continues start [] ≡ true
unfolding continues
nil-continues = refl

begins_at_start :
    (e : Expect) (text : List ℕ) → BeginsChar text → continues e text ≡ true → e ≡ start
begins_at_start e [] h c = continues-nil e c
begins_at_start e (b ∷ text) h c =
    let (e', next, rest) = step e b text c in next_byte-start e b e' h next

pub continues-append :
    (e : Expect) (xs ys : List ℕ) → continues e xs ≡ true → IsStr ys → continues e (xs ++ ys) ≡ true
continues-append e [] ys h k = rw (continues-nil e h) k
continues-append e (x ∷ xs) ys h k =
    let (e', next, rest) = step e x xs h in
    step_back e x (xs ++ ys) next (continues-append e' xs ys rest k)

pub continues-split :
    (e : Expect) (xs ys : List ℕ)
    → BeginsChar ys
    → continues e (xs ++ ys) ≡ true
    → (continues e xs ≡ true) × IsStr ys
continues-split e [] ys b h = let e' = begins_at_start e ys b h in (rw e' nil-continues, rw e' at h)
continues-split e (x ∷ xs) ys b h =
    let (e', next, rest) = step e x (xs ++ ys) h in
    let (left, right) = continues-split e' xs ys b rest in (step_back e x xs next left, right)

-- Two strings join to a string.
pub append-IsStr : (xs ys : List ℕ) → IsStr xs → IsStr ys → IsStr (xs ++ ys)
append-IsStr xs ys = continues-append start xs ys

-- A string cut where a character begins falls into two strings.
pub split-IsStr : (xs ys : List ℕ) → BeginsChar ys → IsStr (xs ++ ys) → IsStr xs × IsStr ys
split-IsStr xs ys = continues-split start xs ys

pub first_begins : (b : ℕ) (e : Expect) → next_byte start b ≡ some e → is_continuation b ≡ false
unfolding next_byte first_byte
first_begins b e next = ground arith

-- A string begins with a character.
pub IsStr-BeginsChar : (text : List ℕ) → IsStr text → BeginsChar text
IsStr-BeginsChar [] h = tt
IsStr-BeginsChar (b ∷ text) h = let (e, next, rest) = step start b text h in first_begins b e next

-- Where a string is cut, the position is a character boundary exactly if the right part begins
-- with a character.
pub boundary-BeginsChar :
    (xs ys : List ℕ)
    → 0 < length xs
    → is_char_boundary (xs ++ ys) (length xs) ≡ true
    → BeginsChar ys
boundary-BeginsChar xs [] p h = tt
boundary-BeginsChar xs (b ∷ ys) p h =
    ground (arith, get_elem?-append_middle xs (b ∷ ys), length-append xs (b ∷ ys))

pub BeginsChar-boundary :
    (xs ys : List ℕ) → BeginsChar ys → is_char_boundary (xs ++ ys) (length xs) ≡ true
BeginsChar-boundary xs [] h = ground (arith, length-append xs [])
BeginsChar-boundary xs (b ∷ ys) h =
    ground (arith, get_elem?-append_middle xs (b ∷ ys), length-append xs (b ∷ ys))

-- Behind a string the bytes of a string are a string.
continues-suffix :
    (e : Expect) (xs ys : List ℕ) → continues e xs ≡ true → continues e (xs ++ ys) ≡ true → IsStr ys
continues-suffix e [] ys h k = rw (continues-nil e h) at k
continues-suffix e (x ∷ xs) ys h k =
    let (e', next, rest) = step e x xs h in
    let (e'', next', rest') = step e x (xs ++ ys) k in
    continues-suffix e' xs ys rest (rw (same_state next next') rest')
  where
    same_state : {f g : Expect} → next_byte e x ≡ some f → next_byte e x ≡ some g → f ≡ g
    same_state p q = cc

pub suffix-IsStr : (xs ys : List ℕ) → IsStr xs → IsStr (xs ++ ys) → IsStr ys
suffix-IsStr xs ys = continues-suffix start xs ys
