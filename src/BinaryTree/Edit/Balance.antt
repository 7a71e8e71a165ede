-- ===== src/BinaryTree/Edit/Balance.antt =====
-- `bt_balance_tree`: what it starts from, and what it leaves.
pub mod Rotation
pub mod Step
pub mod Up
use cutil.Prelude.{
  ℕ, zero, suc, subst, ◌+◌, ◌≤◌, ◌<◌, ◌≡◌, ◌⊎◌, inl, inr, refl, sym, ap, ◌∙◌, Bool, true, false,
  not, ◌&&◌, ◌||◌, List, if◌then◌else◌, ◌==◌, ==_refl, max, arith, Result, ok, Returns, ◌>>=◌, ℤ,
  pos, negsuc, ◌==ℤ◌,
}
use cutil.BinaryTree.{
  Side, left, right, opposite, same_side, Memory, BtT, deref, update, with_balance, is_negative,
  is_positive,
}
use cutil.BinaryTree.Rotate.{rotate_single, rotate_double, tipped, overweight, bt_is_left_child}
use cutil.BinaryTree.Rotate.Steps.{
  deref-ok, is_node-not_null, is_left_of, bt_is_left_child-ok, one_here,
}
use cutil.BinaryTree.Rotate.Fix.{Fixed, fix_single, fix_double}
use cutil.BinaryTree.Shape.{
  Tree, leaf, node, root, inorder, height, cells, cells-join, join, plug, Ctx, top, under, up,
  cells_around, ReprAround, Focus, root-join, other_node, cells-root,
}
use cutil.BinaryTree.Shape.Balance.{
  Tilt, Balanced, BalancedAround, height-join, Balanced-split, Balanced-join, Balanced-frame,
  BalancedAround-frame, Focus-under, Focus-plug, Balanced-plug, inorder-plug, Focus-balance,
}
use cutil.BinaryTree.Edit.{rotate, rebalance, balance_up, lower, raise, bt_balance_tree}

-- `t` has grown to one level more than its context is balanced for; its root is not even, unless
-- it is a new node.
pub record Grown (m : Memory) (c : Ctx) (t : Tree) (h : ℕ) : Type 0 where
  pub focus : Focus m c t
  pub balanced : Balanced m t
  pub around : BalancedAround m c h
  pub high : height t ≡ h + 1
  pub uneven : (h ≡ 0) ⊎ ((s : Side) × (m.balance (root t) ≡ tipped s))

-- The tree `T` of `btree'` is an AVL tree with the nodes `order`, and the rest is as in `btree`.
pub record Settled (btree btree' : BtT) (T : Tree) (order : List ℕ) : Type 0 where
  pub focus : Focus btree'.memory top T
  pub balanced : Balanced btree'.memory T
  pub tree : btree'.tree ≡ root T
  pub order_kept : inorder T ≡ order
  pub key : btree'.memory.key ≡ btree.memory.key
  pub val : btree'.memory.val ≡ btree.memory.val
  pub next : btree'.memory.next ≡ btree.memory.next
  pub prev : btree'.memory.prev ≡ btree.memory.prev
  pub allocated : btree'.memory.allocated ≡ btree.memory.allocated
  pub size : btree'.size ≡ btree.size
  pub free_list : btree'.free_list ≡ btree.free_list
  pub list_size : btree'.list_size ≡ btree.list_size
  pub kcfn : btree'.kcfn ≡ btree.kcfn

pub root-plug :
    (s : Side) (q : ℕ) (y : Tree) (c : Ctx) (t t' : Tree)
    → root (plug (under s q y c) t) ≡ root (plug (under s q y c) t')
root-plug s q y top t t' = root-join s t q y ∙ sym (root-join s t' q y)
root-plug s q y (under s' q' y' c) t t' = root-plug s' q' y' c (join s t q y) (join s t' q y)

-- The depth of a hole.
abbrev pub depth : Ctx → ℕ
depth top = 0
depth (under s p y c) = suc (depth c)
