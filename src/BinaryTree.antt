-- ===== src/BinaryTree.antt =====
-- src/btree.c: the nodes, the tree, the lookups and the iterators. The `btree` argument is a pointer
-- that is not NULL. A pointer to a node is an address, 0 for NULL; the memory has a map for each
-- field of `node_t`, and one for the two children. An access at NULL, or at an address that no
-- block of nodes has, is a fault. The loops that walk down have a round of fuel more than the tree
-- has nodes.
pub mod Rotate
pub mod Pool
pub mod Edit
pub mod Remove
pub mod Shape
pub mod Order
pub mod Find
pub mod Valid
pub mod Insert
pub mod New
pub mod Iterate
pub mod Reverse
pub mod Missing
pub mod Witness
use cutil.Prelude.{
  ℕ, zero, suc, ◌+◌, Bool, true, false, not, ◌&&◌, Option, List, ltb, leb, ◌==◌, if◌then◌else◌,
  Result, ok, fault, out_of_fuel, ◌>>=◌, ℤ, pos, negsuc,
}

-- Which child: `left` or `right`.
pub data Side : Type 0 where
  left right : Side

abbrev pub opposite : Side → Side
opposite left = right
opposite right = left

abbrev pub same_side : Side → Side → Bool
same_side left left = true
same_side right right = true
same_side _ _ = false

-- The fields of the nodes, by address; there are nodes at the addresses 1 to `allocated`.
pub record Memory : Type 0 where
  pub allocated : ℕ
  pub key : ℕ → ℕ
  pub val : ℕ → ℕ
  pub balance : ℕ → ℤ
  pub parent : ℕ → ℕ
  pub child : Side → ℕ → ℕ
  pub next : ℕ → ℕ
  pub prev : ℕ → ℕ

-- `node_list` has the address of the first node of each block, 0 for NULL; an entry that was never
-- written is `none`. The delete functions are addresses, 0 for NULL.
pub record BtT : Type 0 where
  pub kcfn : ℕ → ℕ → ℤ
  pub kdfn : ℕ
  pub vdfn : ℕ
  pub node_list : List (Option ℕ)
  pub free_list : ℕ
  pub num_lists : ℕ
  pub list_size : ℕ
  pub tree : ℕ
  pub size : ℕ
  pub memory : Memory

abbrev pub is_node : Memory → ℕ → Bool
is_node m p = ltb 0 p && leb p m.allocated

-- An access through `p`, which reads or writes `x`.
pub deref {ℓ} : {A : Type ℓ} → Memory → ℕ → A → Result A
deref m p x = if is_node m p then ok x else fault

-- A map with one entry changed.
abbrev pub update {ℓ} : {A : Type ℓ} → (ℕ → A) → ℕ → A → ℕ → A
update f p x j = if p == j then x else f j

abbrev pub with_child : Side → ℕ → ℕ → Memory → Memory
with_child s p x m = record m {
  child = λ s' j. if (p == j) && same_side s s' then x else m.child s' j;
}

abbrev pub with_parent : ℕ → ℕ → Memory → Memory
with_parent p x m = record m { parent = update m.parent p x }

abbrev pub with_balance : ℕ → ℤ → Memory → Memory
with_balance p x m = record m { balance = update m.balance p x }

abbrev pub is_negative : ℤ → Bool
is_negative (pos n) = false
is_negative (negsuc n) = true

abbrev pub is_positive : ℤ → Bool
is_positive (pos n) = ltb 0 n
is_positive (negsuc n) = false

-- The addresses of keys are compared as numbers.
unfoldable pub default_key_cmp : ℕ → ℕ → ℤ
default_key_cmp l r = if ltb l r then negsuc 0 else if l == r then pos 0 else pos 1

pub bt_size : BtT → ℕ
bt_size btree = btree.size

-- The loop of `bt_find_node`.
pub find_down : ℕ → BtT → ℕ → ℕ → Result ℕ
find_down zero btree key p = out_of_fuel
find_down (suc fuel) btree key p = if p == 0 then ok 0 else do
  let m = btree.memory
  k ← deref m p (m.key p)
  if is_negative (btree.kcfn key k)
      then find_down fuel btree key (m.child left p)
      else if is_positive (btree.kcfn key k)
      then find_down fuel btree key (m.child right p)
      else ok p

pub bt_find_node : BtT → ℕ → Result ℕ
bt_find_node btree key = if key == 0 then ok 0 else find_down (btree.size + 1) btree key btree.tree

pub bt_find : BtT → ℕ → Result ℕ
bt_find btree key = if key == 0 then ok 0 else do
  p ← bt_find_node btree key
  if not (p == 0) then deref btree.memory p (btree.memory.val p) else ok 0

-- The loop of `bt_find_tree_min`, to the left, and of `bt_find_tree_max`, to the right.
unfoldable pub far_down : Side → ℕ → Memory → ℕ → Result ℕ
far_down s zero m p = out_of_fuel
far_down s (suc fuel) m p = do
  next ← deref m p (m.child s p)
  if not (next == 0) then far_down s fuel m next else ok p

unfoldable pub bt_find_tree_min : ℕ → Memory → ℕ → Result ℕ
bt_find_tree_min fuel m p = if p == 0 then ok 0 else far_down left fuel m p

unfoldable pub bt_find_tree_max : ℕ → Memory → ℕ → Result ℕ
bt_find_tree_max fuel m p = if p == 0 then ok 0 else far_down right fuel m p

unfoldable pub bt_itr_begin : BtT → Result ℕ
bt_itr_begin btree = bt_find_tree_min (btree.size + 1) btree.memory btree.tree

unfoldable pub bt_itr_next : BtT → ℕ → Result ℕ
bt_itr_next btree itr = if itr == 0 then ok 0 else deref btree.memory itr (btree.memory.next itr)

unfoldable pub bt_itr_rbegin : BtT → Result ℕ
bt_itr_rbegin btree = bt_find_tree_max (btree.size + 1) btree.memory btree.tree

unfoldable pub bt_itr_rnext : BtT → ℕ → Result ℕ
bt_itr_rnext btree itr = if itr == 0 then ok 0 else deref btree.memory itr (btree.memory.prev itr)

unfoldable pub bt_itr_get : BtT → ℕ → Result ℕ
bt_itr_get btree itr = if itr == 0 then ok 0 else deref btree.memory itr (btree.memory.val itr)

unfoldable pub bt_itr_get_key : BtT → ℕ → Result ℕ
bt_itr_get_key btree itr = if itr == 0 then ok 0 else deref btree.memory itr (btree.memory.key itr)
