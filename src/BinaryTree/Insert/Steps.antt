-- ===== src/BinaryTree/Insert/Steps.antt =====
-- `bt_insert_node`: the calls that it makes, in order.
use cutil.Prelude.{ℕ, ◌+◌, ◌<◌, ◌≡◌, refl, true, false, ◌==◌, arith, ok, none, some}
use cutil.BinaryTree.{BtT, is_node, update, left}
use cutil.BinaryTree.Pool.{bt_get_node}
use cutil.BinaryTree.Edit.{
  Place, bt_insert_node, bt_balance_tree, balance_up, find_place, fill_node, link_node,
}
use cutil.BinaryTree.Rotate.Steps.{deref-ok, is_node-not_null}

-- The tree without its first free node.
abbrev pub popped : BtT → BtT
popped btree = record btree {
  free_list = btree.memory.next btree.free_list;
  memory = record btree.memory { next = update btree.memory.next btree.free_list 0 };
}

pub bt_get_node-popped :
    (btree : BtT)
    → is_node btree.memory btree.free_list ≡ true
    → bt_get_node btree ≡ ok (btree.free_list, popped btree)
unfolding bt_get_node
bt_get_node-popped btree h =
    rw
      (
        is_node-not_null btree.memory btree.free_list h,
        deref-ok btree.memory btree.free_list (btree.memory.next btree.free_list) h,
      )
      refl

-- Where the search begins.
abbrev pub no_place : Place
no_place = record { parent = 0; side = left; inorder_successor = 0; inorder_predecessor = 0 }

-- The steps after the search.
pub insert-steps :
    (btree btree₂ btree₃ : BtT) (key value n : ℕ) (place : Place) (btree₁ : BtT)
    → 0 < key
    → 0 < value
    → find_place (btree.size + 1) btree key btree.tree no_place ≡ ok (some place)
    → bt_get_node btree ≡ ok (n, btree₁)
    → 0 < n
    → link_node btree₁ n place (fill_node n place key value btree₁.memory) ≡ ok btree₂
    → bt_balance_tree btree₂ n ≡ ok btree₃
    → bt_insert_node btree key value ≡ ok (true, btree₃)
unfolding bt_insert_node
insert-steps btree btree₂ btree₃ key value n place btree₁ hk hv e₁ e₂ hn e₃ e₄ =
    let nk : (key == 0) ≡ false = ground arith in
    let nv : (value == 0) ≡ false = ground arith in
    let nn : (n == 0) ≡ false = ground arith in rw (nk, nv, e₁, e₂, nn, e₃, e₄) refl

pub duplicate-steps :
    (btree : BtT) (key value : ℕ)
    → 0 < key
    → 0 < value
    → find_place (btree.size + 1) btree key btree.tree no_place ≡ ok none
    → bt_insert_node btree key value ≡ ok (false, btree)
unfolding bt_insert_node
duplicate-steps btree key value hk hv e =
    let nk : (key == 0) ≡ false = ground arith in
    let nv : (value == 0) ≡ false = ground arith in rw (nk, nv, e) refl

pub bt_balance_tree-steps :
    (btree btree' : BtT) (n p : ℕ)
    → is_node btree.memory n ≡ true
    → btree.memory.parent n ≡ p
    → balance_up (btree.size + 1) btree n p ≡ ok btree'
    → bt_balance_tree btree n ≡ ok btree'
unfolding bt_balance_tree
bt_balance_tree-steps btree btree' n p h e run =
    rw (is_node-not_null btree.memory n h, deref-ok btree.memory n (btree.memory.parent n) h, e) run
