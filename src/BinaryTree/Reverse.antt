-- ===== src/BinaryTree/Reverse.antt =====
-- The reverse iterators of src/btree.c visit the entries from the greatest key down.
use cutil.Prelude.{
  ℕ, zero, suc, ◌+◌, ◌<◌, ◌≡◌, inl, inr, refl, sym, ap, ◌∙◌, subst, true, List, [], ◌∷◌, ◌++◌, map,
  map-append, append_assoc, append-nil, length, length-append, if◌then◌else◌, ◌==◌, arith, Result,
  ok, out_of_fuel, ◌>>=◌,
}
use cutil.ListItem.Ring.{count, count-append, last, last-append}
use cutil.LinkedList.Iterate.Walk.{Snoc-cases}
use cutil.BinaryTree.{
  Memory, BtT, is_node, right, far_down, bt_find_tree_max, bt_itr_rbegin, bt_itr_rnext, bt_itr_get,
  bt_itr_get_key,
}
use cutil.BinaryTree.Find.{height-le}
use cutil.BinaryTree.Order.{cells-count}
use cutil.BinaryTree.Rotate.Steps.{deref-ok, is_node-not_null}
use cutil.BinaryTree.Shape.{Tree, leaf, node, inorder, height, Repr}
use cutil.BinaryTree.Valid.{IsValid, entries, Repr-inside}
use cutil.BinaryTree.Valid.Threads.{Threaded}

-- A caller's loop from the iterator `itr` on; `later` has the entries that it has seen, each in
-- front of those before it.
pub visit_back : ℕ → BtT → ℕ → List (ℕ × ℕ) → Result (List (ℕ × ℕ))
visit_back zero btree itr later = out_of_fuel
visit_back (suc fuel) btree itr later = if itr == 0 then ok later else do
  k ← bt_itr_get_key btree itr
  x ← bt_itr_get btree itr
  previous ← bt_itr_rnext btree itr
  visit_back fuel btree previous ((k, x) ∷ later)

pub visit_all_back : BtT → Result (List (ℕ × ℕ))
visit_all_back btree = do itr ← bt_itr_rbegin btree; visit_back (btree.size + 1) btree itr []

last-join : (a b : ℕ) (xs ys : List ℕ) → last a (xs ++ b ∷ ys) ≡ last b ys
last-join a b [] ys = refl
last-join a b (x ∷ xs) ys = last-join x b xs ys

far_down-last :
    (m : Memory) (fuel par p : ℕ) (l r : Tree)
    → Repr m par (node l p r)
    → height r < fuel
    → far_down right fuel m p ≡ ok (last 0 (inorder (node l p r)))
unfolding far_down
far_down-last m zero par p l r h deep = absurd (omega arith)
far_down-last m (suc fuel) par p l leaf h deep =
    rw (deref-ok m p (m.child right p) h.0, h.3) (ap ok (sym (last-join 0 p (inorder l) [])))
far_down-last m (suc fuel) par p l (node a q b) h deep =
    rw (deref-ok m p (m.child right p) h.0, h.3, is_node-not_null m q h.5.0)
      (far_down-last m fuel p q a b h.5 (omega arith)
        ∙ ap ok (
            last-join 0 q (inorder a) (inorder b)
            ∙ sym (last-join p q (inorder a) (inorder b))
            ∙ sym (last-join 0 p (inorder l) (inorder a ++ q ∷ inorder b))))

rbegin-last :
    (btree : BtT) (T : Tree) (fs : List ℕ)
    → IsValid btree T fs
    → bt_itr_rbegin btree ≡ ok (last 0 (inorder T))
unfolding bt_itr_rbegin bt_find_tree_max
rbegin-last btree leaf fs v = rw v.tree refl
rbegin-last btree (node l p r) fs v =
    rw (v.tree, is_node-not_null btree.memory p v.focus.here.0)
      (far_down-last btree.memory (btree.size + 1) 0 p l r v.focus.here
        (omega (arith, v.size, height-le (node l p r))))

Threaded-prev :
    (m : Memory) (a : ℕ) (xs : List ℕ) (y : ℕ) (ys : List ℕ)
    → Threaded m a (xs ++ y ∷ ys)
    → m.prev y ≡ last a xs
Threaded-prev m a [] y ys t = t.1
Threaded-prev m a (x ∷ xs) y ys t = Threaded-prev m x xs y ys t.2

module _ (btree : BtT) where
  abbrev entry : ℕ → ℕ × ℕ
  entry j = (btree.memory.key j, btree.memory.val j)

  back-step :
      (fuel x n : ℕ) (later : List (ℕ × ℕ))
      → is_node btree.memory x ≡ true
      → btree.memory.prev x ≡ n
      → visit_back (suc fuel) btree x later ≡ visit_back fuel btree n (entry x ∷ later)
  unfolding visit_back bt_itr_get_key bt_itr_get bt_itr_rnext
  back-step fuel x n later h e =
      let m = btree.memory in
      rw
        (
          is_node-not_null m x h,
          deref-ok m x (m.key x) h,
          deref-ok m x (m.val x) h,
          deref-ok m x (m.prev x) h,
          e,
        )
        refl

  visit_back-Threaded :
      (fuel : ℕ) (xs ys : List ℕ) (later : List (ℕ × ℕ))
      → Threaded btree.memory 0 (xs ++ ys)
      → ((j : ℕ) → 0 < count j xs → is_node btree.memory j ≡ true)
      → length xs < fuel
      → visit_back fuel btree (last 0 xs) later ≡ ok (map entry xs ++ later)
  unfolding visit_back
  visit_back-Threaded zero xs ys later t h few = absurd (omega arith)
  visit_back-Threaded (suc fuel) xs ys later t h few = elim (Snoc-cases xs) [
    | inl e ↦ rw e refl
    | inr (ws, y, e) ↦
        let t' : Threaded btree.memory 0 (ws ++ y ∷ ys) =
          subst (Threaded btree.memory 0) (ap (λ zs. zs ++ ys) e ∙ append_assoc ws (y ∷ []) ys) t in
        let c = λ (j : ℕ). count-append j ws (y ∷ []) in
        let held = λ (j : ℕ). ap (count j) e in
        ap (λ p. visit_back (suc fuel) btree p later) (ap (last 0) e ∙ last-append 0 ws y)
        ∙ back-step fuel y (last 0 ws) later (h y (ground (arith, c y, held y)))
            (Threaded-prev btree.memory 0 ws y ys t')
        ∙ visit_back-Threaded fuel ws (y ∷ ys) (entry y ∷ later) t'
            (λ j k. h j (omega (arith, c j, held j)))
            (omega (arith, length-append ws (y ∷ []), ap length e))
        ∙ ap ok (
            sym (append_assoc (map entry ws) (entry y ∷ []) later)
            ∙ ap (λ es. es ++ later) (sym (map-append entry ws (y ∷ [])) ∙ ap (map entry) (sym e)))
  ]

-- In a valid tree, a loop from bt_itr_rbegin by bt_itr_rnext until NULL ends, and the entries that
-- bt_itr_get_key and bt_itr_get give in it, each put in front of those before it, are all entries
-- in the order of the keys.
pub visit_all_back-entries :
    (btree : BtT) (T : Tree) (fs : List ℕ)
    → IsValid btree T fs
    → visit_all_back btree ≡ ok (entries btree T)
unfolding visit_all_back
visit_all_back-entries btree T fs v = rw (rbegin-last btree T fs v) (
    visit_back-Threaded btree (btree.size + 1) (inorder T) [] []
      (subst (Threaded btree.memory 0) (sym (append-nil (inorder T))) v.threads)
      (λ j h. Repr-inside btree.memory 0 T j v.focus.here (omega (arith, cells-count j T)))
      (omega (arith, v.size))
    ∙ ap ok (append-nil (entries btree T)))
