-- ===== src/Node/Zip.antt =====
-- `zip_fix_left` and `zip_fix_right` of src/tree/node.rs, which merge the undersized nodes down an
-- edge of a tree.
pub mod Zipped
pub mod Left
pub mod Right
mod Tests
use ropey.Common.{
  ℕ, zero, suc, ◌+◌, ◌-◌, Bool, true, false, ◌&&◌, ◌||◌, Option, none, some, ltb, if◌then◌else◌,
  ◌>>=◌, length, get_elem?,
}
use ropey.Crates.{Crates}
use ropey.Tree.{Limits, Node, leaf, internal, NodeChildren, pack, unpack}
use ropey.Node.{is_undersized}
use ropey.Node.Merge.{merge_distribute, set_child}

module _ ⦃lim : Limits⦄ ⦃crates : Crates⦄ where
  -- `did_stuff` of the round, and the children.
  unfoldable pub merge_first : NodeChildren → Option (Bool × NodeChildren)
  merge_first children = do
    first ← get_elem? children 0
    if ltb 1 (length children) && is_undersized first.1
        then merge_distribute children 0 1
        else some (false, children)

  unfoldable pub merge_last : NodeChildren → Option (Bool × NodeChildren)
  merge_last children = do
    let last_i = length children - 1
    last ← get_elem? children last_i
    if ltb 1 (length children) && is_undersized last.1
        then merge_distribute children (last_i - 1) last_i
        else some (false, children)

  -- The loop from a round on, with `did_stuff` of the rounds before it. Fuel for the rounds, here
  -- and below.
  unfoldable pub zip_left : ℕ → Bool → Node → Option (Bool × Node)
  zip_left zero did_stuff self = none
  zip_left (suc fuel) did_stuff (leaf text) = some (false, leaf text)
  zip_left (suc fuel) did_stuff (internal es) = do
    (merged, children) ← merge_first (unpack es)
    first ← get_elem? children 0
    (again, child) ← zip_left fuel false first.1
    children ← set_child children 0 (first.0, child)
    let rest = zip_left fuel (did_stuff || merged) (internal (pack children))
    if again then rest else some (did_stuff || merged, internal (pack children))

  unfoldable pub zip_fix_left : ℕ → Node → Option (Bool × Node)
  zip_fix_left fuel self = zip_left fuel false self

  unfoldable pub zip_right : ℕ → Bool → Node → Option (Bool × Node)
  zip_right zero did_stuff self = none
  zip_right (suc fuel) did_stuff (leaf text) = some (false, leaf text)
  zip_right (suc fuel) did_stuff (internal es) = do
    (merged, children) ← merge_last (unpack es)
    last ← get_elem? children (length children - 1)
    (again, child) ← zip_right fuel false last.1
    children ← set_child children (length children - 1) (last.0, child)
    let rest = zip_right fuel (did_stuff || merged) (internal (pack children))
    if again then rest else some (did_stuff || merged, internal (pack children))

  unfoldable pub zip_fix_right : ℕ → Node → Option (Bool × Node)
  zip_fix_right fuel self = zip_right fuel false self
