-- ===== src/BinaryTree/Missing.antt =====
-- `bt_remove` of a key that the tree does not have.
use cutil.Prelude.{
  ℕ, ◌+◌, ◌<◌, ◌≡◌, refl, ap, ◌∙◌, false, List, [], ◌==◌, Bool-cases, inl, inr, arith, ok,
}
use cutil.BinaryTree.{BtT, bt_find_node, find_down}
use cutil.BinaryTree.Remove.{bt_remove}
use cutil.BinaryTree.Order.{equal_keys, first_equal-none, cells-count}
use cutil.BinaryTree.Find.{find_down-first, height-le}
use cutil.BinaryTree.Shape.{Tree, inorder, cells}
use cutil.BinaryTree.Valid.{IsValid}

missing_node :
    (btree : BtT) (T : Tree) (fs : List ℕ) (key : ℕ)
    → IsValid btree T fs
    → ((j : ℕ) → 0 < cells j T → equal_keys btree.kcfn key (btree.memory.key j) ≡ false)
    → find_down (btree.size + 1) btree key btree.tree ≡ ok 0
missing_node btree T fs key v other =
    ap (find_down (btree.size + 1) btree key) v.tree
    ∙ find_down-first btree v.order key (btree.size + 1) 0 T v.focus.here v.sorted
        (omega (arith, v.size, height-le T))
    ∙ ap ok (
        first_equal-none btree.kcfn btree.memory.key key [] (inorder T)
          (λ j h. other j (omega (arith, cells-count j T))))

-- In a valid tree, bt_remove of a key that compares as equal to that of no node ends, returns
-- NULL, deletes nothing and changes nothing.
pub bt_remove-missing :
    (btree : BtT) (T : Tree) (fs : List ℕ) (key : ℕ)
    → IsValid btree T fs
    → ((j : ℕ) → 0 < cells j T → equal_keys btree.kcfn key (btree.memory.key j) ≡ false)
    → bt_remove btree key ≡ ok (0, btree, [])
unfolding bt_remove bt_find_node
bt_remove-missing btree T fs key v other = elim (Bool-cases (key == 0)) [
  | inl e ↦ rw e refl
  | inr e ↦ rw (e, missing_node btree T fs key v other) refl
]
