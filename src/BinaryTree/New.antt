-- ===== src/BinaryTree/New.antt =====
-- `bt_new` and `default_key_cmp` of src/btree.c: a new tree is valid and has no entries.
use cutil.Prelude.{ℕ, ◌≡◌, sym, ◌∙◌, [], if◌then◌else◌, ltb, arith, ℤ, Option, none, some}
use cutil.BinaryTree.{Memory, BtT, default_key_cmp, is_negative, is_positive}
use cutil.BinaryTree.Order.{IsOrder}

pub default_key_cmp-negative : (a b : ℕ) → is_negative (default_key_cmp a b) ≡ ltb a b
unfolding default_key_cmp
default_key_cmp-negative a b = ground arith

default_key_cmp-positive : (a b : ℕ) → is_positive (default_key_cmp a b) ≡ ltb b a
unfolding default_key_cmp
default_key_cmp-positive a b = ground arith

-- compare
pub default_key_cmp-IsOrder : IsOrder default_key_cmp
default_key_cmp-IsOrder = record {
  greater = λ a b. default_key_cmp-positive a b ∙ sym (default_key_cmp-negative b a);
  less_trans = λ a b c h k.
      let h' = sym (default_key_cmp-negative a b) ∙ h in
      let k' = sym (default_key_cmp-negative b c) ∙ k in
      default_key_cmp-negative a c ∙ ground arith;
  equal_less = λ a b c h k.
      let h' = sym (default_key_cmp-negative a b) ∙ h in
      let k' = sym (default_key_cmp-negative b a) ∙ k in
      default_key_cmp-negative c b ∙ ground arith ∙ sym (default_key_cmp-negative c a);
}

-- The compare function that the tree gets.
abbrev pub chosen : Option (ℕ → ℕ → ℤ) → ℕ → ℕ → ℤ
chosen none = default_key_cmp
chosen (some f) = f

-- The tree before it has nodes.
abbrev fresh : Memory → ℕ → (ℕ → ℕ → ℤ) → ℕ → ℕ → BtT
fresh m size kcfn vdfn kdfn = record {
  kcfn = kcfn;
  kdfn = kdfn;
  vdfn = vdfn;
  node_list = [];
  free_list = 0;
  num_lists = 0;
  list_size = size;
  tree = 0;
  size = 0;
  memory = m;
}

-- The block size that a capacity asks for.
abbrev block_size : ℕ → ℕ
block_size capacity = if ltb 0 capacity then capacity else 16
