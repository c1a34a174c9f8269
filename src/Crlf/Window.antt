-- ===== src/Crlf/Window.antt =====
-- Breaks seen through a window onto a longer text.
use ropey.Common.{
  ℕ, ◌+◌, ◌-◌, ◌≤◌, ◌<◌, ◌≡◌, false, List, arith, length, take, drop, ◌==◌, ◌||◌, get_elem?,
  get_elem?-drop_add, get_elem?-take, length-take, length-drop, ◌∙◌,
}
use ropey.Crlf.{is_break}

abbrev pub window : ℕ → ℕ → List ℕ → List ℕ
window n i t = take n (drop i t)

pub length-window : (n i : ℕ) (t : List ℕ) → i + n ≤ length t → length (window n i t) ≡ n
length-window n i t h = omega (arith, length-take n (drop i t), length-drop i t)

pub get_elem?-window :
    (n i : ℕ) (t : List ℕ) (j : ℕ) → j < n → get_elem? (window n i t) j ≡ get_elem? t (i + j)
get_elem?-window n i t j h = get_elem?-take n (drop i t) j h ∙ get_elem?-drop_add i t j

-- Inside the window the breaks are those of the text.
pub is_break-window :
    (n i : ℕ) (t : List ℕ) (j : ℕ)
    → i + n ≤ length t
    → 0 < j
    → j < n
    → is_break j (window n i t) ≡ is_break (i + j) t
unfolding is_break
is_break-window n i t j fits p q =
    let here : (j == 0 || j == length (window n i t)) ≡ false =
      ground (arith, length-window n i t fits) in
    let there : (i + j == 0 || i + j == length t) ≡ false = ground arith in
    let before : i + (j - 1) ≡ i + j - 1 = omega arith in
    rw (
      here,
      there,
      get_elem?-window n i t j q,
      get_elem?-window n i t (j - 1) (omega arith),
      before,
    )
