-- ===== src/Crlf/Nearest.antt =====
-- The choices of `nearest_internal_break` and `find_good_split` of src/crlf.rs.
use ropey.Common.{
  ℕ, zero, suc, ◌+◌, ◌-◌, ◌≤◌, ◌<◌, ◌≡◌, refl, ◌⊎◌, inl, inr, Bool, true, false, not, some, List,
  arith, ltb, leb, ◌==◌, ◌&&◌, ◌||◌, Bool-cases, length, if◌then◌else◌,
}
use ropey.Crlf.{is_break, prev_break, next_break, nearest_internal_break, find_good_split}
use ropey.Crlf.Breaks.{
  IsBreak, NoneBetween, is_break_cases, IsBreak-zero, IsBreak-length, lt_of_not_break,
  prev_break_lem, next_break_lem, next_break-length, NoneBetween-join,
}

abbrev pub distance : ℕ → ℕ → ℕ
distance a b = (a - b) + (b - a)

-- No position of the text but its two ends is a break.
abbrev pub IsUnbroken : List ℕ → Type 0
IsUnbroken t = NoneBetween 0 (length t) t

-- `r` is a break of the text, and no other break lies between it and `i`.
pub record IsNextTo (i r : ℕ) (t : List ℕ) : Type 0 where
  pub in_range : r ≤ length t
  pub is_split : IsBreak r t
  pub none_before : NoneBetween r i t
  pub none_after : NoneBetween i r t

IsNextTo-self : (i : ℕ) (t : List ℕ) → i ≤ length t → IsBreak i t → IsNextTo i i t
IsNextTo-self i t h here = record {
  in_range = h;
  is_split = here;
  none_before = λ j p q. absurd (omega arith);
  none_after = λ j p q. absurd (omega arith);
}

prev_break-IsNextTo :
    (i : ℕ) (t : List ℕ)
    → 0 < i
    → i ≤ length t
    → (r : ℕ) × (prev_break i t ≡ some r) × (r < i) × IsNextTo i r t
prev_break-IsNextTo i t p h =
    let (r, e, lt, isb, noneb) = prev_break_lem i t p h in
    (
      r,
      e,
      lt,
      record {
        in_range = omega arith;
        is_split = isb;
        none_before = noneb;
        none_after = λ j p q. absurd (omega arith);
      },
    )

next_break-IsNextTo :
    (i : ℕ) (t : List ℕ)
    → i < length t
    → (r : ℕ) × (next_break i t ≡ some r) × (i < r) × IsNextTo i r t
next_break-IsNextTo i t h =
    let (r, e, lt, le, isb, noneb) = next_break_lem i t h in
    (
      r,
      e,
      lt,
      record {
        in_range = le;
        is_split = isb;
        none_before = λ j p q. absurd (omega arith);
        none_after = noneb;
      },
    )

-- A position that is no break is not the start.
pos_of_not_break : (i : ℕ) (t : List ℕ) → is_break i t ≡ some false → 0 < i
pos_of_not_break zero t e = cc (IsBreak-zero t)
pos_of_not_break (suc i) t e = omega arith

-- `r` lies on the side of the bias, and not at the end of the text there; it lies on the other side
-- only where the text has no break between `i` and that end.
abbrev pub Leans : Bool → ℕ → ℕ → List ℕ → Type 0
Leans true i r t = ((0 < r) × (r < i)) ⊎ ((i < r) × NoneBetween 0 i t)
Leans false i r t = ((i < r) × (r < length t)) ⊎ ((r < i) × NoneBetween i (length t) t)

-- What `find_good_split` chooses between.
abbrev choose : Bool → ℕ → ℕ → List ℕ → ℕ
choose bias_left p n t =
    if bias_left then (if ltb 0 p then p else n) else (if ltb n (length t) then n else p)

choose-IsNextTo :
    (bias_left : Bool) (i p n : ℕ) (t : List ℕ)
    → p < i
    → i < n
    → IsNextTo i p t
    → IsNextTo i n t
    → IsNextTo i (choose bias_left p n t) t × Leans bias_left i (choose bias_left p n t) t
choose-IsNextTo true i p n t before after hp hn = elim (Bool-cases (ltb 0 p)) [
  | inl inside ↦ rw inside (hp, inl (ground arith, before))
  | inr at_start ↦ rw at_start (hn, inr (after, λ j low high. hp.none_before j (ground arith) high))
]
choose-IsNextTo false i p n t before after hp hn = elim (Bool-cases (ltb n (length t))) [
  | inl inside ↦ rw inside (hn, inl (after, ground arith))
  | inr at_end ↦ rw at_end (hp, inr (before, λ j low high. hn.none_after j low (ground arith)))
]

-- For an index of the text `find_good_split` does not panic, and returns a break with no other
-- break between it and the index. It is the index itself if that is a break. If not, it is the
-- break on the side of the bias where there is one inside the text, and else that on the other
-- side.
pub find_good_split_lem :
    (i : ℕ) (t : List ℕ) (bias_left : Bool)
    → i ≤ length t
    → (r : ℕ) × (find_good_split i t bias_left ≡ some r)
      × IsNextTo i r t
      × ((IsBreak i t × (r ≡ i)) ⊎ ((is_break i t ≡ some false) × Leans bias_left i r t))
unfolding find_good_split
find_good_split_lem i t bias_left h = elim (is_break_cases i t h) [
  | inl here ↦ (i, rw here, IsNextTo-self i t h here, inl (here, refl))
  | inr passed ↦
      let (p, ep, lt, hp) = prev_break-IsNextTo i t (pos_of_not_break i t passed) h in
      let (n, en, gt, hn) = next_break-IsNextTo i t (lt_of_not_break i t h passed) in
      let (next, leans) = choose-IsNextTo bias_left i p n t lt gt hp hn in
      (choose bias_left p n t, rw (passed, ep, en), next, inr (passed, leans))
]

-- With a bias to the right, an index inside the text is not split off at its end.
pub find_good_split-inside :
    (i : ℕ) (t : List ℕ)
    → i < length t
    → (r : ℕ) × (find_good_split i t false ≡ some r) × IsBreak r t × (r < length t)
unfolding find_good_split
find_good_split-inside i t h = elim (is_break_cases i t (omega arith)) [
  | inl here ↦ (i, rw here, here, h)
  | inr passed ↦
      let (p, ep, lt, hp) = prev_break-IsNextTo i t (pos_of_not_break i t passed) (omega arith) in
      let (n, en, gt, hn) = next_break-IsNextTo i t h in
      elim (Bool-cases (ltb n (length t))) [
        | inl inside ↦ (n, rw (passed, ep, en, inside) refl, hn.is_split, ground arith)
        | inr outside ↦ (p, rw (passed, ep, en, outside) refl, hp.is_split, omega arith)
      ]
]

-- A break lies outside a range that has none.
break_outside : (a b j : ℕ) (t : List ℕ) → NoneBetween a b t → IsBreak j t → (j ≤ a) ⊎ (b ≤ j)
break_outside a b j t noneb h = elim (Bool-cases (ltb a j && ltb j b)) [
  | inl inside ↦ cc (noneb j (ground arith) (ground arith))
  | inr outside ↦ ground arith
]

-- `r` is an internal break, and none is nearer to `i`.
pub record IsNearest (i r : ℕ) (t : List ℕ) : Type 0 where
  pub after_start : 0 < r
  pub before_end : r < length t
  pub is_split : IsBreak r t
  pub nearest : (j : ℕ) → 0 < j → j < length t → IsBreak j t → distance i r ≤ distance i j

-- What the last lines of `nearest_internal_break` choose between.
abbrev nearer : ℕ → ℕ → ℕ → List ℕ → ℕ
nearer i left right t =
    if left == 0 || (not (right == length t) && leb (right - i) (i - left)) then right else left

abbrev pub Chooses : ℕ → ℕ → List ℕ → Type 0
Chooses i r t = IsNearest i r t ⊎ ((r ≡ length t) × IsUnbroken t)

module _ (i left right : ℕ) (t : List ℕ) (low : left ≤ i) (high : i ≤ right) (gap : left < right)
    (le : right ≤ length t) (left_break : IsBreak left t) (right_break : IsBreak right t)
    (none_inside : NoneBetween left right t) where
  choose_right : (left ≡ 0) ⊎ (right - i ≤ i - left) → right < length t → IsNearest i right t
  choose_right c inside = record {
    after_start = omega arith;
    before_end = inside;
    is_split = right_break;
    nearest = λ j p q b. omega (arith, break_outside left right j t none_inside b);
  }

  choose_left : 0 < left → (right ≡ length t) ⊎ (i - left < right - i) → IsNearest i left t
  choose_left pos c = record {
    after_start = pos;
    before_end = omega arith;
    is_split = left_break;
    nearest = λ j p q b. omega (arith, break_outside left right j t none_inside b);
  }

  choose_end : left ≡ 0 → right ≡ length t → IsUnbroken t
  choose_end e f j p q = none_inside j (omega arith) (omega arith)

  nearer_lem : Chooses i (nearer i left right t) t
  nearer_lem = elim (Bool-cases (left == 0)) [
    | inl at_start ↦ elim (Bool-cases (right == length t)) [
      | inl at_end ↦ rw at_start (inr (ground arith, choose_end (ground arith) (ground arith)))
      | inr inside ↦ rw at_start (inl (choose_right (inl (ground arith)) (ground arith)))
    ]
    | inr past_start ↦ elim (Bool-cases (not (right == length t) && leb (right - i) (i - left))) [
      | inl near ↦ rw (past_start, near) (inl (choose_right (inr (ground arith)) (ground arith)))
      | inr far ↦ rw (past_start, far) (inl (choose_left (ground arith) (ground arith)))
    ]
  ]

-- For an index of a text that is not empty, `nearest_internal_break` does not panic. It returns a
-- nearest internal break where the text has one, and else the length.
pub nearest_internal_break_lem :
    (i : ℕ) (t : List ℕ)
    → 0 < length t
    → i ≤ length t
    → (r : ℕ) × (nearest_internal_break i t ≡ some r) × Chooses i r t
unfolding nearest_internal_break
nearest_internal_break_lem i t ne h = elim (Bool-cases (i == length t)) [
  | inl at_end ↦
      let end : i ≡ length t = ground arith in
      let here : IsBreak i t = rw end (IsBreak-length t) in
      let (p, ep, lt, hp) = prev_break-IsNextTo i t (omega arith) h in
      (
        nearer i p (length t) t,
        rw (here, at_end, ep, next_break-length i t end),
        nearer_lem i p (length t) t (omega arith) h (omega arith) (omega arith) hp.is_split
            (IsBreak-length t) (λ j a b. hp.none_before j a (omega arith)),
      )
  | inr inside ↦
      let (n, en, gt, hn) = next_break-IsNextTo i t (ground arith) in
      elim (is_break_cases i t h) [
        | inl here ↦ (
          nearer i i n t,
          rw (here, inside, en),
          nearer_lem i i n t (omega arith) (omega arith) gt hn.in_range here hn.is_split
              hn.none_after,
        )
        | inr passed ↦
            let (p, ep, lt, hp) = prev_break-IsNextTo i t (pos_of_not_break i t passed) h in
            (
              nearer i p n t,
              rw (passed, ep, en),
              nearer_lem i p n t (omega arith) (omega arith) (omega arith) hn.in_range hp.is_split
                  hn.is_split (NoneBetween-join p i n t hp.none_before passed hn.none_after),
            )
      ]
]
