-- ===== src/BinaryTree/Edit.antt =====
-- `bt_balance_tree`, `bt_insert_node` and `bt_add` of src/btree.c.
pub mod Balance
use cutil.Prelude.{
  ℕ, zero, suc, ◌+◌, ◌%◌, ◌^◌, Bool, true, false, not, ◌&&◌, ◌||◌, Option, none, some, List, [],
  ◌∷◌, ◌==◌, if◌then◌else◌, Result, ok, fault, out_of_fuel, ◌>>=◌, ℤ, pos, negsuc, ◌==ℤ◌,
}
use cutil.BinaryTree.{
  Side, left, right, Memory, BtT, deref, update, with_child, with_parent, with_balance, is_negative,
  is_positive, bt_find_node, bt_find_tree_min,
}
use cutil.BinaryTree.Rotate.{
  bt_is_left_child, bt_rotate_left, bt_rotate_right, bt_rotate_left_right, bt_rotate_right_left,
}
use cutil.BinaryTree.Pool.{bt_add_more_nodes, bt_get_node, bt_put_node}

-- `b - 1` and `b + 1`
abbrev pub lower : ℤ → ℤ
lower (pos zero) = negsuc 0
lower (pos (suc n)) = pos n
lower (negsuc n) = negsuc (suc n)

abbrev pub raise : ℤ → ℤ
raise (pos n) = pos (suc n)
raise (negsuc zero) = pos 0
raise (negsuc (suc n)) = negsuc n

-- The choice among the rotations.
pub rotate : Memory → ℕ → ℤ → ℤ → Result (ℕ × Memory)
rotate m p bp bn =
    if (bp ==ℤ negsuc 1) && (bn ==ℤ negsuc 0)
    then bt_rotate_right m p
    else if (bp ==ℤ negsuc 1) && (bn ==ℤ pos 1)
    then bt_rotate_left_right m p
    else if (bp ==ℤ pos 2) && (bn ==ℤ negsuc 0)
    then bt_rotate_right_left m p
    else if (bp ==ℤ pos 2) && (bn ==ℤ pos 1)
    then bt_rotate_left m p
    else ok (p, m)

-- The third case: the taller subtree of `p` has increased in height. A failed ASSERT is a fault.
pub rebalance : BtT → ℕ → ℕ → ℤ → Result BtT
rebalance btree n p bp = do
  let m = with_balance p bp btree.memory
  let bn = m.balance n
  if not ((bp ==ℤ negsuc 1) || (bp ==ℤ pos 2))
      then fault
      else if not ((bn ==ℤ negsuc 0) || (bn ==ℤ pos 1))
      then fault
      else do
        (p', m') ← rotate m p bp bn
        ok (record btree {
          memory = m';
          tree = if btree.memory.parent p == 0 then p' else btree.tree;
        })

-- The loop of `bt_balance_tree`. The node that it returns is not used by its caller.
unfoldable pub balance_up : ℕ → BtT → ℕ → ℕ → Result BtT
balance_up zero btree n p = out_of_fuel
balance_up (suc fuel) btree n p = if p == 0 then ok btree else do
  let m = btree.memory
  left_child ← bt_is_left_child m p n
  b ← deref m p (m.balance p)
  let tilted = if left_child then lower b else raise b
  if b ==ℤ pos 0
      then (do
        let m' = with_balance p (if left_child then negsuc 0 else pos 1) m
        balance_up fuel (record btree { memory = m' }) p (m'.parent p))
      else if (is_negative b && not left_child) || (is_positive b && left_child)
      then (if not (tilted ==ℤ pos 0)
          then fault
          else ok (record btree { memory = with_balance p tilted m }))
      else rebalance btree n p tilted

unfoldable pub bt_balance_tree : BtT → ℕ → Result BtT
bt_balance_tree btree n =
    if n == 0
    then ok btree
    else do p ← deref btree.memory n (btree.memory.parent n); balance_up (btree.size + 1) btree n p

-- Where a new node goes: the pointer that leads to it is `tree`, or a child of `parent`.
pub record Place : Type 0 where
  pub parent : ℕ
  pub side : Side
  pub inorder_successor : ℕ
  pub inorder_predecessor : ℕ

-- The loop of `bt_insert_node`; no place for a duplicate key.
unfoldable pub find_place : ℕ → BtT → ℕ → ℕ → Place → Result (Option Place)
find_place zero btree key p place = out_of_fuel
find_place (suc fuel) btree key p place = if p == 0 then ok (some place) else do
  let m = btree.memory
  k ← deref m p (m.key p)
  if is_negative (btree.kcfn key k)
      then find_place fuel btree key (m.child left p)
          (record place { parent = p; side = left; inorder_successor = p })
      else if is_positive (btree.kcfn key k)
      then find_place fuel btree key (m.child right p)
          (record place { parent = p; side = right; inorder_predecessor = p })
      else ok none

-- The fields of the node `n` at its place.
unfoldable pub fill_node : ℕ → Place → ℕ → ℕ → Memory → Memory
fill_node n place key value m = record m {
  key = update m.key n key;
  val = update m.val n value;
  balance = update m.balance n (pos 0);
  parent = update m.parent n place.parent;
  child = λ s. update (m.child s) n 0;
  next = update m.next n place.inorder_successor;
  prev = update m.prev n place.inorder_predecessor;
}

-- The node is made the child of its parent, or the root, and threaded.
unfoldable pub link_node : BtT → ℕ → Place → Memory → Result BtT
link_node btree n place m = do
  m₁ ←
      (if place.parent == 0
        then ok m
        else deref m place.parent (with_child place.side place.parent n m))
  m₂ ←
      (if place.inorder_successor == 0
        then ok m₁
        else deref m₁ place.inorder_successor
            (record m₁ { prev = update m₁.prev place.inorder_successor n }))
  m₃ ←
      (if place.inorder_predecessor == 0
        then ok m₂
        else deref m₂ place.inorder_predecessor
            (record m₂ { next = update m₂.next place.inorder_predecessor n }))
  ok (record btree {
    size = (btree.size + 1) % 2 ^ 64;
    tree = if place.parent == 0 then n else btree.tree;
    memory = m₃;
  })

-- Without a free node the function returns no value, which its caller reads.
unfoldable pub bt_insert_node : BtT → ℕ → ℕ → Result (Bool × BtT)
bt_insert_node btree key value =
    if key == 0 then ok (false, btree) else if value == 0 then ok (false, btree) else do
      found ←
          find_place (btree.size + 1) btree key btree.tree
            (record { parent = 0; side = left; inorder_successor = 0; inorder_predecessor = 0 })
      elim found [
        | none ↦ ok (false, btree)
        | some place ↦ do
          (n, btree₁) ← bt_get_node btree
          if n == 0 then fault else do
            btree₂ ← link_node btree₁ n place (fill_node n place key value btree₁.memory)
            btree₃ ← bt_balance_tree btree₂ n
            ok (true, btree₃)
      ]

-- `alloc_list` and `alloc_block` say whether REALLOC and CALLOC succeed.
unfoldable pub bt_add : Bool → Bool → BtT → ℕ → ℕ → Result (Bool × BtT)
bt_add alloc_list alloc_block btree key value =
    if key == 0 then ok (false, btree) else if value == 0 then ok (false, btree) else do
      btree' ←
          (if btree.free_list == 0
            then bt_add_more_nodes alloc_list alloc_block btree
            else ok btree)
      if btree'.free_list == 0 then ok (false, btree') else bt_insert_node btree' key value
