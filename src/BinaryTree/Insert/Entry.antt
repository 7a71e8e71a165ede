-- ===== src/BinaryTree/Insert/Entry.antt =====
-- `bt_insert_node`: what a new entry changes, and what balancing keeps.
use cutil.Prelude.{
  ℕ, ◌+◌, ◌≤◌, ◌<◌, ◌≡◌, refl, sym, ap, ◌∙◌, true, false, List, [], ◌∷◌, ◌++◌, map, length, arith,
  ℤ,
}
use cutil.ListItem.Ring.{count}
use cutil.BinaryTree.{Memory, BtT, is_negative}
use cutil.BinaryTree.Edit.Balance.{Settled}
use cutil.BinaryTree.Order.{IsOrder, Sorted, equal_keys, cells-count}
use cutil.BinaryTree.Shape.{Tree}
use cutil.BinaryTree.Insert.Lists.{FreeNodes-frame}
use cutil.BinaryTree.Valid.{IsValid, FreeNodes, entries, lookup}
use cutil.BinaryTree.Valid.Threads.{Threaded, Threaded-frame}

-- The entries of `btree'` are those of `btree` with one more.
pub record Inserted (btree btree' : BtT) (T T' : Tree) (key value : ℕ) : Type 0 where
  pub low : List (ℕ × ℕ)
  pub high : List (ℕ × ℕ)
  pub old : entries btree T ≡ low ++ high
  pub new : entries btree' T' ≡ low ++ (key, value) ∷ high
  pub below :
      (k : ℕ) (es : List (ℕ × ℕ))
      → equal_keys btree.kcfn k key ≡ true
      → lookup btree.kcfn k (low ++ es) ≡ lookup btree.kcfn k es
  pub kcfn : btree'.kcfn ≡ btree.kcfn

-- Entries below a key are not found by one that is equal to it.
pub lookup-below :
    (cmp : ℕ → ℕ → ℤ) (o : IsOrder cmp) (m : Memory) (key k : ℕ) (xs : List ℕ) (es : List (ℕ × ℕ))
    → ((j : ℕ) → 0 < count j xs → is_negative (cmp (m.key j) key) ≡ true)
    → equal_keys cmp k key ≡ true
    → lookup cmp k (map (λ j. (m.key j, m.val j)) xs ++ es) ≡ lookup cmp k es
lookup-below cmp o m key k [] es low same = refl
lookup-below cmp o m key k (x ∷ xs) es low same =
    let less : is_negative (cmp (m.key x) k) ≡ true =
      sym (o.equal_less k key (m.key x) (ground arith) (sym (o.greater k key) ∙ ground arith))
      ∙ low x (ground arith) in
    let other : equal_keys cmp k (m.key x) ≡ false =
      let e = o.greater k (m.key x) ∙ less in ground (arith, e) in
    rw other (lookup-below cmp o m key k xs es (λ j h. low j (omega arith)) same)

-- What balancing keeps.
pub Settled-IsValid :
    (b b' : BtT) (T : Tree) (fs order : List ℕ)
    → Settled b b' T order
    → IsOrder b.kcfn
    → Sorted b.kcfn b.memory.key order
    → Threaded b.memory 0 order
    → b.size ≡ length order
    → FreeNodes b.memory b.free_list fs
    → ((j : ℕ) → count j order + count j fs ≤ 1)
    → 0 < b.list_size
    → IsValid b' T fs
Settled-IsValid b b' T fs order w o sorted threads size free apart block = record {
  order = rw w.kcfn o;
  focus = w.focus;
  balanced = w.balanced;
  tree = w.tree;
  sorted = rw (w.kcfn, w.key, w.order_kept) sorted;
  threads = rw w.order_kept (
      Threaded-frame b.memory b'.memory 0 order threads (λ j k. ap (λ f. f j) w.next)
        (λ j k. ap (λ f. f j) w.prev));
  size = rw w.order_kept (w.size ∙ size);
  free = rw w.free_list (
      FreeNodes-frame b.memory b'.memory b.free_list fs w.allocated (λ j k l. ap (λ f. f j) w.next)
        free);
  apart = λ j. rw (cells-count j T, w.order_kept) (apart j);
  block = rw w.list_size block;
}
