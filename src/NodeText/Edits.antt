-- ===== src/NodeText/Edits.antt =====
-- What the edits of src/tree/node_text.rs leave, for a text given by the parts that the position
-- makes. `as_str` relies on its being UTF-8.
use ropey.Common.{
  ℕ, ◌+◌, ◌-◌, ◌≤◌, ◌≡◌, true, some, List, [], ◌++◌, arith, length, take-append, drop-append,
  append-nil, append_assoc, length-append, leb, take_all, drop_all, drop-append_two,
}
use ropey.Crates.{Crates, IsDocumented}
use ropey.Str.{IsStr}
use ropey.Str.Cut.{boundary_between, boundary_end, second_boundary}
use ropey.Str.Utf8.{append-IsStr}
use ropey.NodeText.{
  insert_str, push_str, remove_range, truncate, truncate_front, split_off, from_str,
}
use native.Mathlib.Nat.{zero-add}

module _ ⦃crates : Crates⦄ (docs : IsDocumented crates) where
  pub insert_str_parts :
      (xs ys s : List ℕ) → IsStr ys → insert_str (xs ++ ys) (length xs) s ≡ some (xs ++ (s ++ ys))
  unfolding insert_str
  insert_str_parts xs ys s h =
      let fits : length xs ≤ length (xs ++ ys) = omega (arith, length-append xs ys) in
      rw (
        boundary_between xs ys h,
        docs.insert_lem (xs ++ ys) (length xs) s fits,
        take-append,
        drop-append,
      )

  pub push_str_lem : (t s : List ℕ) → push_str t s ≡ some (t ++ s)
  unfolding push_str insert_str
  push_str_lem t s =
      rw (
        boundary_end t,
        docs.insert_lem t (length t) s (omega arith),
        take_all,
        drop_all,
        append-nil,
      )

  pub from_str_lem : (s : List ℕ) → from_str s ≡ some s
  unfolding from_str insert_str
  from_str_lem s = rw (docs.insert_lem [] 0 s (omega arith), append-nil)

  pub truncate_parts : (xs ys : List ℕ) → IsStr ys → truncate (xs ++ ys) (length xs) ≡ some xs
  unfolding truncate
  truncate_parts xs ys h =
      let fits : length xs ≤ length (xs ++ ys) = omega (arith, length-append xs ys) in
      rw (boundary_between xs ys h, docs.truncate_lem (xs ++ ys) (length xs) fits, take-append)

  pub split_off_parts :
      (xs ys : List ℕ) → IsStr ys → split_off (xs ++ ys) (length xs) ≡ some (xs, ys)
  unfolding split_off
  split_off_parts xs ys h =
      let fits : length xs ≤ length (xs ++ ys) = omega (arith, length-append xs ys) in
      rw (
        boundary_between xs ys h,
        docs.truncate_lem (xs ++ ys) (length xs) fits,
        docs.extend_lem,
        take-append,
        drop-append,
      )

  -- What `copy_within` and the truncation leave.
  close_gap :
      (xs ys zs rest : List ℕ)
      → crates.truncate
          (xs ++ (zs ++ rest))
          (length (xs ++ (ys ++ zs)) - (length xs + length ys - length xs))
        ≡ xs ++ zs
  close_gap xs ys zs rest =
      let len : length (xs ++ (ys ++ zs)) - (length xs + length ys - length xs)
          ≡ length (xs ++ zs) =
        omega (arith, length-append xs (ys ++ zs), length-append ys zs, length-append xs zs) in
      let fits : length (xs ++ zs) ≤ length (xs ++ (zs ++ rest)) =
        omega (arith, length-append xs (zs ++ rest), length-append zs rest, length-append xs zs) in
      rw (
        len,
        docs.truncate_lem (xs ++ (zs ++ rest)) (length (xs ++ zs)) fits,
        ← append_assoc,
        take-append,
      )

  pub remove_range_parts :
      (xs ys zs : List ℕ)
      → IsStr ys
      → IsStr zs
      → remove_range (xs ++ (ys ++ zs)) (length xs) (length xs + length ys) ≡ some (xs ++ zs)
  unfolding remove_range
  remove_range_parts xs ys zs hy hz =
      let first = boundary_between xs (ys ++ zs) (append-IsStr ys zs hy hz) in
      let order : leb (length xs) (length xs + length ys) ≡ true = ground arith in
      rw (
        order,
        first,
        second_boundary xs ys zs hz,
        take-append,
        drop-append_two,
        close_gap xs ys zs _,
      )

  pub truncate_front_parts :
      (xs ys : List ℕ) → IsStr xs → IsStr ys → truncate_front (xs ++ ys) (length xs) ≡ some ys
  unfolding truncate_front
  truncate_front_parts xs ys hx hy = rw zero-add at (remove_range_parts [] xs ys hx hy)
