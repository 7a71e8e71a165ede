-- ===== src/BinaryTree/Remove.antt =====
-- `bt_replace_node` and `bt_remove` of src/btree.c.
use cutil.Prelude.{ℕ, ◌+◌, not, ◌&&◌, List, [], ◌∷◌, ◌==◌, if◌then◌else◌, Result, ok, ◌>>=◌}
use cutil.BinaryTree.{
  left, right, Memory, BtT, deref, update, with_child, with_parent, bt_find_node, bt_find_tree_min,
}
use cutil.BinaryTree.Pool.{Deletion, deleted_key, bt_put_node}

abbrev pub with_next : ℕ → ℕ → Memory → Memory
with_next p x m = record m { next = update m.next p x }

abbrev pub with_prev : ℕ → ℕ → Memory → Memory
with_prev p x m = record m { prev = update m.prev p x }

-- The parent of `p` gets the child `s` in its place.
pub replace_child : Memory → ℕ → ℕ → Result Memory
replace_child m p s = if m.parent p == 0 then ok m else do
  l ← deref m (m.parent p) (m.child left (m.parent p))
  ok (with_child (if l == p then left else right) (m.parent p) s m)

-- The threads when `s` takes the place of `p`.
pub thread_through : Memory → ℕ → ℕ → Result Memory
thread_through m p s = do
  m₁ ←
      (if m.prev p == 0
        then ok m
        else deref m (m.prev p) (with_next (m.prev p) s (with_prev s (m.prev p) m)))
  if m₁.next p == 0
      then ok m₁
      else deref m₁ (m₁.next p) (with_prev (m₁.next p) s (with_next s (m₁.next p) m₁))

-- The threads when nothing takes the place of `p`.
pub thread_past : Memory → ℕ → Result Memory
thread_past m p = do
  m₁ ← (if m.prev p == 0 then ok m else deref m (m.prev p) (with_next (m.prev p) (m.next p) m))
  if m₁.next p == 0 then ok m₁ else deref m₁ (m₁.next p) (with_prev (m₁.next p) (m₁.prev p) m₁)

-- A node without links.
abbrev pub clear_links : ℕ → Memory → Memory
clear_links p m = record m {
  parent = update m.parent p 0;
  child = λ s. update (m.child s) p 0;
  next = update m.next p 0;
  prev = update m.prev p 0;
}

-- Returns `p`, as the code does; NULL for NULL.
pub bt_replace_node : Memory → ℕ → ℕ → Result (ℕ × Memory)
bt_replace_node m p s = if p == 0 then ok (0, m) else do
  _ ← deref m p p
  m₁ ← replace_child m p s
  m₂ ←
      (if not (s == 0)
        then (do m' ← deref m₁ s (with_parent s (m₁.parent p) m₁); thread_through m' p s)
        else thread_past m₁ p)
  ok (p, clear_links p m₂)

-- The three cases of `bt_remove`, by the right child of `p`.
pub unlink_node : ℕ → Memory → ℕ → Result (ℕ × Memory)
unlink_node fuel m p = do
  r ← deref m p (m.child right p)
  if r == 0 then bt_replace_node m p (m.child left p) else do
    rl ← deref m r (m.child left r)
    if rl == 0
        then (do
          let m₁ = with_child left r (m.child left p) m
          let l = m₁.child left p
          m₂ ← deref m₁ l (with_parent l (m₁.child right p) m₁)
          bt_replace_node m₂ p (m₂.child right p))
        else (do
          s ← bt_find_tree_min fuel m r
          sr ← deref m s (m.child right s)
          (s', m₁) ← bt_replace_node m s sr
          bt_replace_node m₁ p s')

-- Returns the value, the tree, and the call of the key delete function, if there is one.
unfoldable pub bt_remove : BtT → ℕ → Result (ℕ × BtT × List Deletion)
bt_remove btree key = if key == 0 then ok (0, btree, []) else do
  p ← bt_find_node btree key
  if p == 0 then ok (0, btree, []) else do
    (p', m) ← unlink_node (btree.size + 1) btree.memory p
    val ← deref m p' (m.val p')
    let k = m.key p'
    let m₁ = record m {
      val = update m.val p' 0;
      next = update m.next p' 0;
      key = update m.key p' 0;
    }
    btree' ← bt_put_node (record btree { memory = m₁ }) p'
    ok (val, btree', if not (btree.kdfn == 0) && not (k == 0) then deleted_key k ∷ [] else [])
