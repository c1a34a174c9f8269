-- ===== src/TextInfo/Laws.antt =====
-- Laws of the sums and differences of the text infos of src/tree/text_info.rs, and the text info
-- that measures a string.
use ropey.Common.{
  ℕ, ◌<◌, ◌≡◌, refl, false, List, [], ◌++◌, arith, length, length-append, ◌≤◌, ◌-◌, ◌∙◌, ap,
}
use ropey.Str.{IsStr, start}
use ropey.Crates.{Crates, IsDocumented}
use ropey.Crates.Measures.{count_chars, count_surrogates, count_breaks}
use ropey.Crates.Measures.Laws.{tally-append, count_breaks-append, cuts_crlf}
use ropey.TextInfo
use ropey.TextInfo.{TextInfo, word, as_count, from_str, add, sub, wrapping_sub}
use ropey.Str.Utf8.{append-IsStr}

-- Every field holds a `u64`.
pub record IsCount (x : TextInfo) : Type 0 where
  pub bytes_fit : x.bytes < word
  pub chars_fit : x.chars < word
  pub surrogates_fit : x.utf16_surrogates < word
  pub breaks_fit : x.line_breaks < word

-- The measures of a text, independently of the crates.
abbrev pub measure : List ℕ → TextInfo
measure t = record {
  bytes = as_count (length t);
  chars = as_count (count_chars t);
  utf16_surrogates = as_count (count_surrogates t);
  line_breaks = as_count (count_breaks t);
}

pub ext :
    (x y : TextInfo)
    → x.bytes ≡ y.bytes
    → x.chars ≡ y.chars
    → x.utf16_surrogates ≡ y.utf16_surrogates
    → x.line_breaks ≡ y.line_breaks
    → x ≡ y
ext x y p q r s =
    λ i. record { bytes = p i; chars = q i; utf16_surrogates = r i; line_breaks = s i }

pub measure-IsCount : (t : List ℕ) → IsCount (measure t)
measure-IsCount t = omega arith

pub add-IsCount : (x y : TextInfo) → IsCount (add x y)
unfolding add
add-IsCount x y = omega arith

pub sub-IsCount : (x y : TextInfo) → IsCount (sub x y)
unfolding sub
sub-IsCount x y = omega arith

pub add_comm : (x y : TextInfo) → add x y ≡ add y x
unfolding add
add_comm x y = ext _ _ (omega arith) (omega arith) (omega arith) (omega arith)

pub add_assoc : (x y z : TextInfo) → add (add x y) z ≡ add x (add y z)
unfolding add
add_assoc x y z = ext _ _ (omega arith) (omega arith) (omega arith) (omega arith)

pub add-new : (x : TextInfo) → IsCount x → add x TextInfo.new ≡ x
unfolding add
add-new x h = ext _ _ (omega arith) (omega arith) (omega arith) (omega arith)

-- Of text infos whose fields are below 2^64, taking away what was added gives the first one back,
-- whatever wrapped around.
pub sub-add : (x y : TextInfo) → IsCount x → IsCount y → sub (add x y) y ≡ x
unfolding add sub
sub-add x y h k = ext _ _ (omega arith) (omega arith) (omega arith) (omega arith)

-- A text joined of two strings measures the sum, unless a CRLF pair is cut between them.
pub measure-append :
    (xs ys : List ℕ)
    → IsStr xs
    → cuts_crlf xs ys ≡ false
    → measure (xs ++ ys) ≡ add (measure xs) (measure ys)
unfolding add
measure-append xs ys h c =
    let breaks = rw c at (count_breaks-append start xs ys h) in
    ext _ _ (omega (arith, length-append xs ys)) (omega (arith, tally-append _ xs ys))
      (omega (arith, tally-append _ xs ys)) (omega (arith, breaks))

-- On a string `from_str` is the measure.
pub from_str-measure :
    ⦃crates : Crates⦄ (docs : IsDocumented crates) (t : List ℕ) → IsStr t → from_str t ≡ measure t
unfolding from_str
from_str-measure docs t h =
    rw (docs.chars_count_lem t h, docs.surrogates_count t h, docs.breaks_count t h)

pub measure-nil : measure [] ≡ TextInfo.new
unfolding count_breaks
measure-nil = refl

-- The text info of two joined strings is the sum of theirs, unless a CRLF pair is cut between them.
pub from_str-append :
    ⦃crates : Crates⦄ (docs : IsDocumented crates) (xs ys : List ℕ)
    → IsStr xs
    → IsStr ys
    → cuts_crlf xs ys ≡ false
    → from_str (xs ++ ys) ≡ add (from_str xs) (from_str ys)
from_str-append docs xs ys hx hy c =
    rw
      (
        from_str-measure docs (xs ++ ys) (append-IsStr xs ys hx hy),
        from_str-measure docs xs hx,
        from_str-measure docs ys hy,
      )
      (measure-append xs ys hx c)

-- A difference that does not borrow does not wrap.
pub wrapping_sub-exact : (a b : ℕ) → a ≤ b → b < word → wrapping_sub b a ≡ b - a
wrapping_sub-exact a b h k = omega arith

-- The middle of three sums exchanged, and exchanged for two.
pub add-sub_middle :
    (a b c l : TextInfo) → IsCount c → add (sub (add a (add c b)) c) l ≡ add a (add l b)
unfolding add sub
add-sub_middle a b c l h = ext _ _ (omega arith) (omega arith) (omega arith) (omega arith)

pub add-sub_middle_two :
    (a b c l r : TextInfo)
    → IsCount c
    → add (add (sub (add a (add c b)) c) l) r ≡ add a (add l (add r b))
unfolding add sub
add-sub_middle_two a b c l r h = ext _ _ (omega arith) (omega arith) (omega arith) (omega arith)

-- The measure of three joined strings, between which no CRLF pair is cut.
pub measure-append_three :
    (xs ys zs : List ℕ)
    → IsStr xs
    → IsStr ys
    → cuts_crlf xs (ys ++ zs) ≡ false
    → cuts_crlf ys zs ≡ false
    → measure (xs ++ (ys ++ zs)) ≡ add (measure xs) (add (measure ys) (measure zs))
measure-append_three xs ys zs hx hy k l =
    measure-append xs (ys ++ zs) hx k ∙ ap (add (measure xs)) (measure-append ys zs hy l)
