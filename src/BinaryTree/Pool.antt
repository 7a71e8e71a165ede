-- ===== src/BinaryTree/Pool.antt =====
-- The memory of the nodes in src/btree.c: blocks of `list_size` nodes, and the list of those that
-- are free, linked by `next`.
use cutil.Prelude.{
  ℕ, zero, suc, ◌+◌, ◌-◌, ◌%◌, ◌^◌, Bool, not, ◌&&◌, Option, none, some, List, [], ◌∷◌, ◌++◌, ltb,
  leb, ◌==◌, if◌then◌else◌, get_elem?, length, replicate, Result, ok, fault, ◌>>=◌, ℤ, pos,
}
use cutil.BinaryTree.{Memory, BtT, deref, update, default_key_cmp}

-- A block of new nodes behind those that there are, with all bytes zero.
unfoldable pub calloc_nodes : ℕ → Memory → Memory
calloc_nodes n m =
    let is_new = λ (j : ℕ). ltb m.allocated j && leb j (m.allocated + n) in
    record {
      allocated = m.allocated + n;
      key = λ j. if is_new j then 0 else m.key j;
      val = λ j. if is_new j then 0 else m.val j;
      balance = λ j. if is_new j then pos 0 else m.balance j;
      parent = λ j. if is_new j then 0 else m.parent j;
      child = λ s j. if is_new j then 0 else m.child s j;
      next = λ j. if is_new j then 0 else m.next j;
      prev = λ j. if is_new j then 0 else m.prev j;
    }

-- The loop that links a block from node `p` on; the first argument counts the rounds left.
unfoldable pub link_nodes : ℕ → ℕ → Memory → Memory
link_nodes zero p m = record m { next = update m.next p 0 }
link_nodes (suc rounds) p m =
    link_nodes rounds (p + 1) (record m { next = update m.next p (p + 1) })

-- `node_list[i] = x`, in an array of `i + 1` entries of which those behind the old ones were never
-- written.
pub add_block : List (Option ℕ) → ℕ → ℕ → List (Option ℕ)
add_block node_list i x = node_list ++ (replicate (i - length node_list) none ++ some x ∷ [])

-- `num_lists` counts the new block also when there is no memory for it.
unfoldable pub bt_add_more_nodes : Bool → Bool → BtT → Result BtT
bt_add_more_nodes alloc_list alloc_block btree =
    if not (btree.free_list == 0)
    then ok btree
    else let i = btree.num_lists in
      if not alloc_list
      then ok (record btree { num_lists = (i + 1) % 2 ^ 64 })
      else if not alloc_block
      then ok
          (record btree { num_lists = (i + 1) % 2 ^ 64; node_list = add_block btree.node_list i 0 })
      else let first = btree.memory.allocated + 1 in
        ok (record btree {
          num_lists = (i + 1) % 2 ^ 64;
          node_list = add_block btree.node_list i first;
          free_list = first;
          memory =
              link_nodes (btree.list_size - 1) first (calloc_nodes btree.list_size btree.memory);
        })

pub bt_put_node : BtT → ℕ → Result BtT
bt_put_node btree node = if node == 0 then ok btree else do
  m ←
      deref btree.memory node
        (record btree.memory { next = update btree.memory.next node btree.free_list })
  ok (record btree { free_list = node; memory = m })

unfoldable pub bt_get_node : BtT → Result (ℕ × BtT)
bt_get_node btree = if btree.free_list == 0 then ok (0, btree) else do
  let p = btree.free_list
  next ← deref btree.memory p (btree.memory.next p)
  let m = record btree.memory { next = update btree.memory.next p 0 }
  ok (p, record btree { free_list = next; memory = m })

-- What the delete functions are called with.
pub data Deletion : Type 0 where
  deleted_key deleted_val : ℕ → Deletion

-- The deletions for one node.
pub delete_node : BtT → ℕ → Result (List Deletion)
delete_node btree p = do
  let m = btree.memory
  k ← deref m p (m.key p)
  let v = m.val p
  let of_key = if not (btree.kdfn == 0) && not (k == 0) then deleted_key k ∷ [] else []
  let of_val = if not (btree.vdfn == 0) && not (v == 0) then deleted_val v ∷ [] else []
  ok (of_key ++ of_val)

-- The inner loop of `bt_deinitialize`, over a block from node `p` on.
pub delete_block : ℕ → BtT → ℕ → Result (List Deletion)
delete_block zero btree p = ok []
delete_block (suc rounds) btree p = do
  here ← delete_node btree p
  more ← delete_block rounds btree (p + 1)
  ok (here ++ more)

-- `node_list[i]`; an entry that was never written, or is NULL, has no nodes behind it.
pub block_at : BtT → ℕ → Result ℕ
block_at btree i = elim (get_elem? btree.node_list i) [
  | none ↦ fault
  | some entry ↦ elim entry [ none ↦ fault | some first ↦ ok first ]
]

-- The outer loop, from block `i` on.
pub delete_blocks : ℕ → BtT → ℕ → Result (List Deletion)
delete_blocks zero btree i = ok []
delete_blocks (suc rounds) btree i = do
  first ← block_at btree i
  here ← (if first == 0 then fault else delete_block btree.list_size btree first)
  more ← delete_blocks rounds btree (i + 1)
  ok (here ++ more)

pub bt_deinitialize : BtT → Result (BtT × List Deletion)
bt_deinitialize btree = do
  deletions ← delete_blocks btree.num_lists btree 0
  ok (record btree { free_list = 0; tree = 0; size = 0; num_lists = 0 }, deletions)

pub bt_delete : BtT → Result (List Deletion)
bt_delete btree = do (_, deletions) ← bt_deinitialize btree; ok deletions

-- `DEFAULT_INITIAL_CAPACITY`
unfoldable pub default_initial_capacity : ℕ
default_initial_capacity = 16

-- Without memory for the nodes the function returns before it sets `tree` and `size`, which CALLOC
-- has made zero. `kcfn` is `none` for NULL.
unfoldable pub bt_initialize : Bool → Bool → Memory → ℕ → Option (ℕ → ℕ → ℤ) → ℕ → ℕ → Result BtT
bt_initialize alloc_list alloc_block m initial_capacity kcfn vdfn kdfn =
    bt_add_more_nodes alloc_list alloc_block (record {
      kcfn = elim kcfn [ none ↦ default_key_cmp | some f ↦ f ];
      kdfn = kdfn;
      vdfn = vdfn;
      node_list = [];
      free_list = 0;
      num_lists = 0;
      list_size = if ltb 0 initial_capacity then initial_capacity else default_initial_capacity;
      tree = 0;
      size = 0;
      memory = m;
    })

unfoldable pub bt_new :
    Bool → Bool → Bool → Memory → ℕ → Option (ℕ → ℕ → ℤ) → ℕ → ℕ → Result (Option BtT)
bt_new alloc_struct alloc_list alloc_block m initial_capacity kcfn vdfn kdfn =
    if not alloc_struct then ok none else do
      btree ← bt_initialize alloc_list alloc_block m initial_capacity kcfn vdfn kdfn
      ok (some btree)
