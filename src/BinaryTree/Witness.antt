-- ===== src/BinaryTree/Witness.antt =====
-- The theorems on binary trees at trees of three nodes.
use cutil.Prelude.{
  ℕ, ◌+◌, ◌<◌, ◌≡◌, inl, inr, refl, ◌∙◌, true, false, [], ◌∷◌, if◌then◌else◌, ◌==◌, ◌&&◌, arith, ok,
  Returns, ℤ, pos, negsuc, some,
}
use cutil.BinaryTree.{
  same_side, deref, left, right, Memory, BtT, bt_find, default_key_cmp, is_negative, update,
}
use cutil.BinaryTree.Pool.{bt_get_node}
use cutil.BinaryTree.Edit.{
  bt_add, balance_up, bt_insert_node, find_place, fill_node, link_node, bt_balance_tree,
}
use cutil.BinaryTree.Remove.{bt_remove}
use cutil.BinaryTree.Missing.{bt_remove-missing}
use cutil.BinaryTree.Edit.Balance.{Grown, Settled}
use cutil.BinaryTree.Edit.Balance.Up.{balance_up-Settled}
use cutil.BinaryTree.Insert.Add.{Added, bt_add-Added}
use cutil.BinaryTree.Insert.Retrieve.{bt_add-bt_find}
use cutil.BinaryTree.Reverse.{visit_all_back, visit_all_back-entries}
use cutil.BinaryTree.Iterate.{visit_all, visit_all-entries}
use cutil.BinaryTree.New.{default_key_cmp-IsOrder, default_key_cmp-negative}
use cutil.BinaryTree.Order.{equal_keys}
use cutil.BinaryTree.Rotate.{
  bt_is_left_child, rotate_single, rotate_double, inner_balance, outer_balance,
}
use cutil.BinaryTree.Rotate.Steps.{Rotated}
use cutil.BinaryTree.Rotate.Single.{rotate_single-Rotated}
use cutil.BinaryTree.Rotate.Double.{rotate_double-Rotated}
use cutil.BinaryTree.Shape.{Tree, leaf, node, top, under, Focus}
use cutil.BinaryTree.Valid.{IsValid, entries, lookup, bt_find-lookup}

abbrev even_memory : Memory
even_memory = record {
  allocated = 5;
  key = λ j. j + 40;
  val = λ j. j + 100;
  balance = λ j. pos 0;
  parent = λ j. if j == 2 then 0 else 2;
  child = λ s j. if j == 2 then (elim s [ left ↦ 1 | right ↦ 3 ]) else 0;
  next = λ j. if j == 1 then 2 else if j == 2 then 3 else if j == 4 then 5 else 0;
  prev = λ j. if j == 2 then 1 else if j == 3 then 2 else 0;
}

abbrev even_tree : BtT
even_tree = record {
  kcfn = default_key_cmp;
  kdfn = 0;
  vdfn = 0;
  node_list = some 1 ∷ [];
  free_list = 4;
  num_lists = 1;
  list_size = 5;
  tree = 2;
  size = 3;
  memory = even_memory;
}

abbrev three : Tree
three = node (node leaf 1 leaf) 2 (node leaf 3 leaf)

below_all : (a b : ℕ) → a < b → is_negative (default_key_cmp a b) ≡ true
below_all a b h = default_key_cmp-negative a b ∙ ground arith

even-IsValid : IsValid even_tree three (4 ∷ 5 ∷ [])
even-IsValid = record {
  order = default_key_cmp-IsOrder;
  focus = record {
    here = (
      refl,
      refl,
      refl,
      refl,
      (refl, refl, refl, refl, tt, tt),
      (refl, refl, refl, refl, tt, tt),
    );
    around = tt;
    once = λ j. ground arith;
  };
  balanced = (inl (refl, refl), (inl (refl, refl), tt, tt), (inl (refl, refl), tt, tt));
  tree = refl;
  sorted = (
    λ j h. below_all 41 (j + 40) (ground arith),
    (λ j h. below_all 42 (j + 40) (ground arith), (λ j h. absurd (omega arith), tt)),
  );
  threads = (inl refl, refl, (inr refl, refl, (inr refl, refl, inr refl)));
  size = refl;
  free = (refl, refl, (refl, refl, refl));
  apart = λ j. ground arith;
  block = omega arith;
}

bt_add-Added_example :
    Returns (bt_add true true even_tree 50 7) (Added true true even_tree three (4 ∷ 5 ∷ []) 50 7)
bt_add-Added_example =
    bt_add-Added true true even_tree three (4 ∷ 5 ∷ []) 50 7 even-IsValid (omega arith)
      (omega arith) (omega arith)

bt_find-lookup_example :
    bt_find even_tree 43 ≡ ok (lookup even_tree.kcfn 43 (entries even_tree three))
bt_find-lookup_example = bt_find-lookup even_tree three (4 ∷ 5 ∷ []) 43 even-IsValid (omega arith)

visit_all-entries_example : visit_all even_tree ≡ ok (entries even_tree three)
visit_all-entries_example = visit_all-entries even_tree three (4 ∷ 5 ∷ []) even-IsValid

abbrev empty_memory : Memory
empty_memory = record {
  allocated = 0;
  key = λ j. 0;
  val = λ j. 0;
  balance = λ j. pos 0;
  parent = λ j. 0;
  child = λ s j. 0;
  next = λ j. 0;
  prev = λ j. 0;
}

-- The left child of 3 is 2, and its left child is 1.
abbrev line_memory : ℤ → Memory
line_memory b = record {
  allocated = 3;
  key = λ j. j + 40;
  val = λ j. j + 100;
  balance = λ j. if j == 3 then b else if j == 2 then negsuc 0 else pos 0;
  parent = λ j. if j == 1 then 2 else if j == 2 then 3 else 0;
  child = λ s j. elim s [ left ↦ (if j == 3 then 2 else if j == 2 then 1 else 0) | right ↦ 0 ];
  next = λ j. if j == 1 then 2 else if j == 2 then 3 else 0;
  prev = λ j. if j == 2 then 1 else if j == 3 then 2 else 0;
}

abbrev line : Tree
line = node (node leaf 1 leaf) 2 leaf

abbrev line_tree : BtT
line_tree = record even_tree { memory = line_memory (negsuc 0); tree = 3; free_list = 0 }

line-Focus : (b : ℤ) → Focus (line_memory b) top (node line 3 leaf)
line-Focus b = record {
  here =
      (refl, refl, refl, refl, (refl, refl, refl, refl, (refl, refl, refl, refl, tt, tt), tt), tt);
  around = tt;
  once = λ j. ground arith;
}

line-Grown : Grown line_tree.memory (under left 3 leaf top) line 1
line-Grown = record {
  focus = record {
    here = (refl, refl, refl, refl, (refl, refl, refl, refl, tt, tt), tt);
    around = (refl, refl, refl, refl, tt, tt);
    once = λ j. ground arith;
  };
  balanced = (inr (inl (refl, refl)), (inl (refl, refl), tt, tt), tt);
  around = (inr (inl (refl, refl)), tt, tt);
  high = refl;
  uneven = inr (left, refl);
}

balance_up-Settled_example :
    Returns
      (balance_up 4 line_tree 2 3)
      λ btree'. (T : Tree) × Settled line_tree btree' T (1 ∷ 2 ∷ 3 ∷ [])
balance_up-Settled_example =
    balance_up-Settled 4 line_tree (under left 3 leaf top) line 1 line-Grown refl (omega arith)

rotate_single-Rotated_example : Returns (rotate_single left (line_memory (negsuc 1)) 3) λ r.
    (r.0 ≡ 2)
    × Rotated
        (line_memory (negsuc 1))
        r.1
        top
        (node (node leaf 1 leaf) 2 (node leaf 3 leaf))
        (update (update (line_memory (negsuc 1)).balance 2 (pos 0)) 3 (pos 0))
rotate_single-Rotated_example =
    rotate_single-Rotated left (line_memory (negsuc 1)) top (node leaf 1 leaf) 2 leaf 3 leaf
      (line-Focus (negsuc 1)) refl refl

-- The left child of 3 is 1, and its right child is 2.
abbrev bent_memory : Memory
bent_memory = record (line_memory (negsuc 1)) {
  balance = λ j. if j == 3 then negsuc 1 else if j == 1 then pos 1 else pos 0;
  parent = λ j. if j == 2 then 1 else if j == 1 then 3 else 0;
  child = λ s j. elim s [ left ↦ (if j == 3 then 1 else 0) | right ↦ (if j == 1 then 2 else 0) ];
}

bent-Focus : Focus bent_memory top (node (node leaf 1 (node leaf 2 leaf)) 3 leaf)
bent-Focus = record {
  here =
      (refl, refl, refl, refl, (refl, refl, refl, refl, tt, (refl, refl, refl, refl, tt, tt)), tt);
  around = tt;
  once = λ j. ground arith;
}

rotate_double-Rotated_example : Returns (rotate_double left bent_memory 3) λ r.
    (r.0 ≡ 2)
    × Rotated bent_memory r.1 top (node (node leaf 1 leaf) 2 (node leaf 3 leaf)) (
        update
          (update
            (update bent_memory.balance 1 (inner_balance left (pos 0)))
            3
            (outer_balance left (pos 0)))
          2
          (pos 0))
rotate_double-Rotated_example =
    rotate_double-Rotated left bent_memory top leaf 2 leaf 1 leaf 3 leaf bent-Focus refl refl

-- The tree with the key 50, behind all others.
abbrev even_tree_50 : BtT
even_tree_50 = record even_tree {
  free_list = 5;
  size = 4;
  memory = record even_memory {
    key = update even_memory.key 4 50;
    val = update even_memory.val 4 7;
    balance = update (update (update even_memory.balance 4 (pos 0)) 3 (pos 1)) 2 (pos 1);
    parent = update even_memory.parent 4 3;
    child = λ s j.
        if (3 == j) && same_side right s then 4 else if 4 == j then 0 else even_memory.child s j;
    next = update (update (update even_memory.next 4 0) 4 0) 3 4;
    prev = update even_memory.prev 4 3;
  };
}

add_50 : bt_add true true even_tree 50 7 ≡ ok (true, even_tree_50)
unfolding bt_add bt_insert_node find_place bt_get_node deref fill_node link_node bt_balance_tree
    balance_up bt_is_left_child default_key_cmp
add_50 = refl

bt_add-bt_find_example :
    bt_find even_tree_50 50
    ≡ (if equal_keys default_key_cmp 50 50 then ok 7 else bt_find even_tree 50)
bt_add-bt_find_example =
    bt_add-bt_find true true even_tree even_tree_50 three (4 ∷ 5 ∷ []) 50 7 50 even-IsValid
      (omega arith) (omega arith) (omega arith) (omega arith) add_50

bt_remove-missing_example : bt_remove even_tree 44 ≡ ok (0, even_tree, [])
bt_remove-missing_example =
    bt_remove-missing even_tree three (4 ∷ 5 ∷ []) 44 even-IsValid (λ j h. other j (ground arith))
  where
    other : (j : ℕ) → j < 4 → equal_keys default_key_cmp 44 (j + 40) ≡ false
    other j h =
        let e = default_key_cmp-IsOrder.greater 44 (j + 40) ∙ below_all (j + 40) 44 (omega arith) in
        ground (arith, e)

visit_all_back-entries_example : visit_all_back even_tree ≡ ok (entries even_tree three)
visit_all_back-entries_example = visit_all_back-entries even_tree three (4 ∷ 5 ∷ []) even-IsValid
