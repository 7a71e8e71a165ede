-- ===== src/BinaryTree/Iterate.antt =====
-- The iterators of src/btree.c visit the entries in the order of the keys.
use cutil.Prelude.{
  ℕ, zero, suc, ◌+◌, ◌<◌, ◌≡◌, inl, inr, refl, sym, ap, ◌∙◌, true, List, [], ◌∷◌, ◌++◌, map, length,
  if◌then◌else◌, ◌==◌, arith, Result, ok, out_of_fuel, ◌>>=◌,
}
use cutil.ListItem.Ring.{count}
use cutil.BinaryTree.{
  Memory, BtT, is_node, left, far_down, bt_find_tree_min, bt_itr_begin, bt_itr_next, bt_itr_get,
  bt_itr_get_key,
}
use cutil.BinaryTree.Find.{height-le}
use cutil.BinaryTree.Order.{cells-count}
use cutil.BinaryTree.Rotate.Steps.{deref-ok, is_node-not_null}
use cutil.BinaryTree.Shape.{Tree, leaf, node, inorder, height, Repr}
use cutil.BinaryTree.Valid.{IsValid, entries, Repr-inside}
use cutil.BinaryTree.Valid.Threads.{Threaded, first}

-- A caller's loop from the iterator `itr` on.
pub visit : ℕ → BtT → ℕ → Result (List (ℕ × ℕ))
visit zero btree itr = out_of_fuel
visit (suc fuel) btree itr = if itr == 0 then ok [] else do
  k ← bt_itr_get_key btree itr
  x ← bt_itr_get btree itr
  next ← bt_itr_next btree itr
  rest ← visit fuel btree next
  ok ((k, x) ∷ rest)

pub visit_all : BtT → Result (List (ℕ × ℕ))
visit_all btree = do itr ← bt_itr_begin btree; visit (btree.size + 1) btree itr

first-append :
    (xs : List ℕ) (a b : ℕ) (ys zs : List ℕ)
    → first ((xs ++ a ∷ ys) ++ b ∷ zs) ≡ first (xs ++ a ∷ ys)
first-append [] a b ys zs = refl
first-append (x ∷ xs) a b ys zs = refl

far_down-first :
    (m : Memory) (fuel par p : ℕ) (l r : Tree)
    → Repr m par (node l p r)
    → height l < fuel
    → far_down left fuel m p ≡ ok (first (inorder (node l p r)))
unfolding far_down
far_down-first m zero par p l r h deep = absurd (omega arith)
far_down-first m (suc fuel) par p leaf r h deep = rw (deref-ok m p (m.child left p) h.0, h.2) refl
far_down-first m (suc fuel) par p (node a q b) r h deep =
    rw (deref-ok m p (m.child left p) h.0, h.2, is_node-not_null m q h.4.0)
      (far_down-first m fuel p q a b h.4 (omega arith)
        ∙ ap ok (sym (first-append (inorder a) q p (inorder b) (inorder r))))

begin-first :
    (btree : BtT) (T : Tree) (fs : List ℕ)
    → IsValid btree T fs
    → bt_itr_begin btree ≡ ok (first (inorder T))
unfolding bt_itr_begin bt_find_tree_min
begin-first btree leaf fs v = rw v.tree refl
begin-first btree (node l p r) fs v =
    rw (v.tree, is_node-not_null btree.memory p v.focus.here.0)
      (far_down-first btree.memory (btree.size + 1) 0 p l r v.focus.here
        (omega (arith, v.size, height-le (node l p r))))

module _ (btree : BtT) where
  abbrev entry : ℕ → ℕ × ℕ
  entry j = (btree.memory.key j, btree.memory.val j)

  visit-step :
      (fuel x n : ℕ) (es : List (ℕ × ℕ))
      → is_node btree.memory x ≡ true
      → btree.memory.next x ≡ n
      → visit fuel btree n ≡ ok es
      → visit (suc fuel) btree x ≡ ok (entry x ∷ es)
  unfolding visit bt_itr_get_key bt_itr_get bt_itr_next
  visit-step fuel x n es h e run =
      let m = btree.memory in
      rw
        (
          is_node-not_null m x h,
          deref-ok m x (m.key x) h,
          deref-ok m x (m.val x) h,
          deref-ok m x (m.next x) h,
          e,
          run,
        )
        refl

  follow-first :
      (x : ℕ) (xs : List ℕ)
      → is_node btree.memory x ≡ true
      → Threaded btree.memory x xs
      → btree.memory.next x ≡ first xs
  follow-first x [] h (inl e) = absurd (ground arith)
  follow-first x [] h (inr e) = e
  follow-first x (y ∷ ys) h (inl e, _, _) = absurd (ground arith)
  follow-first x (y ∷ ys) h (inr e, _, _) = e

  visit-Threaded :
      (fuel a : ℕ) (xs : List ℕ)
      → Threaded btree.memory a xs
      → ((j : ℕ) → 0 < count j xs → is_node btree.memory j ≡ true)
      → length xs < fuel
      → visit fuel btree (first xs) ≡ ok (map entry xs)
  unfolding visit
  visit-Threaded zero a xs t h deep = absurd (omega arith)
  visit-Threaded (suc fuel) a [] t h deep = refl
  visit-Threaded (suc fuel) a (x ∷ xs) t h deep =
      visit-step fuel x (first xs) (map entry xs) (h x (ground arith))
        (follow-first x xs (h x (ground arith)) t.2)
        (visit-Threaded fuel x xs t.2 (λ j k. h j (omega arith)) (omega arith))

-- In a valid tree, a loop from bt_itr_begin by bt_itr_next until NULL ends, and bt_itr_get_key and
-- bt_itr_get give in it all entries, in the order of the keys.
pub visit_all-entries :
    (btree : BtT) (T : Tree) (fs : List ℕ)
    → IsValid btree T fs
    → visit_all btree ≡ ok (entries btree T)
unfolding visit_all
visit_all-entries btree T fs v = rw (begin-first btree T fs v) (
    visit-Threaded btree (btree.size + 1) 0 (inorder T) v.threads
      (λ j h. Repr-inside btree.memory 0 T j v.focus.here (omega (arith, cells-count j T)))
      (omega (arith, v.size)))
