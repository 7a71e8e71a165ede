-- ===== src/BinaryTree/Rotate.antt =====
-- The four rotations of src/btree.c. The functions of a pair are mirror images, and stand here as
-- one function of the side `s` on which the tree is too high. A rotation returns the new root of the
-- subtree and the memory.
pub mod Steps
pub mod Single
pub mod Double
pub mod Fix
use cutil.Prelude.{
  ℕ, Bool, true, false, not, ◌&&◌, ◌==◌, if◌then◌else◌, Result, ok, fault, ◌>>=◌, ℤ, pos, negsuc,
  ◌==ℤ◌,
}
use cutil.BinaryTree.{
  Side, left, right, opposite, same_side, Memory, deref, with_child, with_parent, with_balance,
}

-- A balance factor of one, and of two, to a side.
abbrev pub tipped : Side → ℤ
tipped left = negsuc 0
tipped right = pos 1

abbrev pub overweight : Side → ℤ
overweight left = negsuc 1
overweight right = pos 2

-- The result is whether `n` is the left child of `p`; the nodes are not NULL where it is called.
unfoldable pub bt_is_left_child : Memory → ℕ → ℕ → Result Bool
bt_is_left_child m p n =
    if p == 0 then ok false else if n == 0 then ok false else deref m p (m.child left p == n)

-- `if ( b != NULL ) b->parent = p;`
pub set_parent : Memory → ℕ → ℕ → Result Memory
set_parent m b p = if not (b == 0) then deref m b (with_parent b p m) else ok m

-- The child of `R` that `p` was becomes `n`, if there is an `R`; `n` gets the parent `R`.
pub attach : Memory → ℕ → Bool → ℕ → Result Memory
attach m R is_left n =
    if not (R == 0)
    then (do
      m₁ ← deref m R (with_child (if is_left then left else right) R n m)
      deref m₁ n (with_parent n R m₁))
    else deref m n (with_parent n 0 m)

pub rotate_single : Side → Memory → ℕ → Result (ℕ × Memory)
rotate_single s m p = do
  R ← deref m p (m.parent p)
  let n = m.child s p
  if n == 0 then ok (p, m) else if not (m.balance p ==ℤ overweight s) then ok (p, m) else do
    weight ← deref m n (m.balance n)
    if not (weight ==ℤ tipped s) then ok (p, m) else do
      is_left ← bt_is_left_child m R p
      let b = m.child (opposite s) n
      m₂ ← set_parent (with_child s p b m) b p
      m₃ ← attach (with_parent p n (with_child (opposite s) n p m₂)) R is_left n
      ok (n, with_balance p (pos 0) (with_balance n (pos 0) m₃))

abbrev pub bt_rotate_left : Memory → ℕ → Result (ℕ × Memory)
bt_rotate_left m p = rotate_single right m p

abbrev pub bt_rotate_right : Memory → ℕ → Result (ℕ × Memory)
bt_rotate_right m p = rotate_single left m p

-- The new factors of `n` and `p` after a double rotation, by the factor of `g`.
pub inner_balance : Side → ℤ → ℤ
inner_balance left g = if g ==ℤ pos 0 then pos 0 else if g ==ℤ negsuc 0 then pos 0 else negsuc 0
inner_balance right g = if g ==ℤ pos 0 then pos 0 else if g ==ℤ negsuc 0 then pos 1 else pos 0

pub outer_balance : Side → ℤ → ℤ
outer_balance left g = if g ==ℤ pos 0 then pos 0 else if g ==ℤ negsuc 0 then pos 1 else pos 0
outer_balance right g = if g ==ℤ pos 0 then pos 0 else if g ==ℤ negsuc 0 then pos 0 else negsuc 0

pub rotate_double : Side → Memory → ℕ → Result (ℕ × Memory)
rotate_double s m p = do
  R ← deref m p (m.parent p)
  let n = m.child s p
  if n == 0 then ok (p, m) else do
    g ← deref m n (m.child (opposite s) n)
    if g == 0
        then ok (p, m)
        else if not (m.balance p ==ℤ overweight s)
        then ok (p, m)
        else if not (m.balance n ==ℤ tipped (opposite s))
        then ok (p, m)
        else do
          is_left ← bt_is_left_child m R p
          b ← deref m g (m.child s g)
          let c = m.child (opposite s) g
          m₁ ← set_parent (with_child (opposite s) n b m) b n
          m₂ ← set_parent (with_child s p c m₁) c p
          let m₃ = with_parent n g (with_child s g n m₂)
          m₄ ← attach (with_parent p g (with_child (opposite s) g p m₃)) R is_left g
          let weight = m₄.balance g
          ok (
            g,
            with_balance g (pos 0) (
                with_balance p (outer_balance s weight)
                  (with_balance n (inner_balance s weight) m₄)),
          )

abbrev pub bt_rotate_left_right : Memory → ℕ → Result (ℕ × Memory)
bt_rotate_left_right m p = rotate_double left m p

abbrev pub bt_rotate_right_left : Memory → ℕ → Result (ℕ × Memory)
bt_rotate_right_left m p = rotate_double right m p
