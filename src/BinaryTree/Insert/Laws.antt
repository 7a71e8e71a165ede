-- ===== src/BinaryTree/Insert/Laws.antt =====
-- `bt_insert_node` of src/btree.c: a duplicate, or a new entry in an AVL tree.
use cutil.Prelude.{
  ℕ, subst, ◌+◌, ◌≤◌, ◌<◌, ◌≡◌, ◌⊎◌, inl, inr, refl, sym, ap, ◌∙◌, true, false, List, ◌∷◌, ◌++◌,
  map, map-append, length, length-append, if◌then◌else◌, ◌==◌, ==_refl, ◌^◌, arith, ok, some,
}
use cutil.ListItem.Ring.{count, count-append}
use cutil.BinaryTree.{BtT, is_node}
use cutil.BinaryTree.Edit.{bt_insert_node, find_place, fill_node}
use cutil.BinaryTree.Edit.Balance.{Settled, depth}
use cutil.BinaryTree.Edit.Balance.Up.{balance_up-Settled}
use cutil.BinaryTree.Find.{height-le}
use cutil.BinaryTree.Order.{Sorted, equal_keys, cells-count}
use cutil.BinaryTree.Rotate.Steps.{up-IsPointer, IsPointer}
use cutil.BinaryTree.Shape.{
  Tree, leaf, node, root, Ctx, top, up, inorder, cells, plug, Repr-positive, other_node,
}
use cutil.BinaryTree.Insert.{
  before, after, successor, predecessor, place_of, Looking, inorder-around,
}
use cutil.BinaryTree.Insert.Grow.{
  Linked-Grown, Sorted-insert, root-placed, depth-le, successor-IsPointer, predecessor-IsPointer,
}
use cutil.BinaryTree.Insert.Link.{Placed, filled, link_node-Placed}
use cutil.BinaryTree.Insert.Lists.{Linked-Threaded, Linked-FreeNodes, Linked-entries}
use cutil.BinaryTree.Insert.Search.{Found, find_place-Found}
use cutil.BinaryTree.Valid.{IsValid}
use cutil.BinaryTree.Valid.Threads.{Threaded}
use cutil.BinaryTree.Insert.Entry.{Inserted, lookup-below, Settled-IsValid}
use cutil.BinaryTree.Insert.Steps.{
  popped, bt_get_node-popped, no_place, insert-steps, duplicate-steps, bt_balance_tree-steps,
}

module _ (btree : BtT) (T : Tree) (f : ℕ) (fs : List ℕ) (v : IsValid btree T (f ∷ fs))
    (key value : ℕ) where
  abbrev n : ℕ
  n = btree.free_list

  free_node : is_node btree.memory n ≡ true
  free_node = rw v.free.0 v.free.1

  some_n : 0 < n
  some_n = ground (arith, free_node)

  module _ (c : Ctx) (k : Looking btree key c leaf) (whole : plug c leaf ≡ T) where
    sequence : inorder T ≡ before c ++ after c
    sequence = ap inorder (sym whole) ∙ inorder-around c leaf

    occurs : (j : ℕ) → cells j T ≡ count j (before c) + count j (after c)
    occurs j = cells-count j T ∙ ap (count j) sequence ∙ count-append j (before c) (after c)

    apart : (j : ℕ) → count j (before c) + count j (after c) + count j (n ∷ fs) ≤ 1
    apart j = let a = v.apart j in let e = occurs j in rw v.free.0 (omega arith)

    positive : (j : ℕ) → 0 < count j (before c) + count j (after c) → 0 < j
    positive j h = Repr-positive btree.memory 0 T j v.focus.here (omega (arith, occurs j))

    new_node : (j : ℕ) → cells j (plug c leaf) + (if n == j then 1 else 0) ≤ 1
    new_node j = rw whole (omega (arith, apart j, occurs j))

    abbrev all_nodes : List ℕ
    all_nodes = before c ++ n ∷ after c

    pointers :
        (p : ℕ)
        → IsPointer btree.memory p
        → IsPointer (filled n (place_of c) key value btree.memory) p
    unfolding fill_node
    pointers p h = h

    module _ (b : BtT)
        (w : Placed (popped btree) n (place_of c) (filled n (place_of c) key value btree.memory) b)
        (small : btree.size + 1 < 2 ^ 64) where
      key_n : b.memory.key n ≡ key
      unfolding fill_node
      key_n = ap (λ g. g n) w.links.key ∙ rw (==_refl n) refl

      key_other :
          (j : ℕ) → 0 < count j (before c) + count j (after c) → b.memory.key j ≡ btree.memory.key j
      unfolding fill_node
      key_other j h =
          let e : (n == j) ≡ false = other_node n j (omega (arith, apart j)) in
          ap (λ g. g j) w.links.key ∙ rw e refl

      linked_tree : b.tree ≡ root (plug c (node leaf n leaf))
      linked_tree =
          w.tree
          ∙ ap (λ x. if up c == 0 then n else x) (v.tree ∙ ap root (sym whole))
          ∙ root-placed btree.memory c n k.focus.around

      linked_size : b.size ≡ btree.size + 1
      linked_size = w.size ∙ omega (arith, small)

      linked_deep : depth c < b.size + 1
      linked_deep = omega (
        arith,
        linked_size,
        v.size,
        depth-le c leaf,
        height-le (plug c leaf),
        ap (λ t. length (inorder t)) whole,
      )

      linked_sorted : Sorted b.kcfn b.memory.key all_nodes
      linked_sorted = rw w.kcfn (
          Sorted-insert btree.kcfn btree.memory.key b.memory.key (before c) n (after c) v.order
            (subst (Sorted btree.kcfn btree.memory.key) sequence v.sorted) key_other
            (λ j h. rw key_n (k.low j h)) (λ j h. rw key_n (k.high j h)))

      linked_IsValid : (b' : BtT) (T' : Tree) → Settled b b' T' all_nodes → IsValid b' T' fs
      linked_IsValid b' T' s =
          let m = btree.memory in
          Settled-IsValid b b' T' fs all_nodes s (rw w.kcfn v.order) linked_sorted
            (Linked-Threaded m b.memory key value c n w.links fs some_n apart positive
              (subst (Threaded m 0) sequence v.threads))
            (omega (
              arith,
              linked_size,
              v.size,
              ap length sequence,
              length-append (before c) (after c),
              length-append (before c) (n ∷ after c),
            ))
            (rw w.free_list (
              Linked-FreeNodes m b.memory key value c n w.links fs some_n apart positive
                (rw v.free.0 v.free.2)))
            (λ j. omega (arith, apart j, count-append j (before c) (n ∷ after c)))
            (rw w.list_size v.block)

      linked_Inserted :
          (b' : BtT) (T' : Tree) → Settled b b' T' all_nodes → Inserted btree b' T T' key value
      linked_Inserted b' T' s =
          let m = btree.memory in
          record {
            low = map (λ j. (m.key j, m.val j)) (before c);
            high = map (λ j. (m.key j, m.val j)) (after c);
            old =
                ap (map (λ j. (m.key j, m.val j))) sequence
                ∙ map-append (λ j. (m.key j, m.val j)) (before c) (after c);
            new =
                rw (s.key, s.val, s.order_kept)
                  (Linked-entries m b.memory key value c n w.links fs some_n apart positive);
            below = λ k' es. lookup-below btree.kcfn v.order m key k' (before c) es k.low;
            kcfn = s.kcfn ∙ w.kcfn;
          }

    insert_at_place :
        0 < key
        → 0 < value
        → btree.size + 1 < 2 ^ 64
        → find_place (btree.size + 1) btree key btree.tree no_place ≡ ok (some (place_of c))
        → (btree' : BtT) × (bt_insert_node btree key value ≡ ok (true, btree'))
          × (T' : Tree) × IsValid btree' T' fs
          × Inserted btree btree' T T' key value
    insert_at_place hk hv small run =
        let m = btree.memory in
        let around = k.focus.around in
        let (b, run₂, w) =
          link_node-Placed (popped btree) n (place_of c) (filled n (place_of c) key value m)
            (pointers (up c) (up-IsPointer m c 0 around))
            (pointers (successor c) (successor-IsPointer m c 0 around))
            (pointers (predecessor c) (predecessor-IsPointer m c 0 around)) in
        let g = Linked-Grown m b.memory key value c n w.links free_node new_node around k.around in
        let (b', run₃, (T', s)) =
          balance_up-Settled (b.size + 1) b c (node leaf n leaf) 0 g (linked_tree b w small)
            (linked_deep b w small) in
        let s' = subst (λ o. Settled b b' T' o) (inorder-around c (node leaf n leaf)) s in
        (
          b',
          insert-steps btree b b' key value n (place_of c) (popped btree) hk hv run
              (bt_get_node-popped btree free_node) some_n run₂
              (bt_balance_tree-steps b b' n (up c) g.focus.here.0 g.focus.here.1 run₃),
          T',
          linked_IsValid b w small b' T' s',
          linked_Inserted b w small b' T' s',
        )

  -- The search begins at the root.
  looking : Looking btree key top T
  looking = record {
    focus = v.focus;
    balanced = v.balanced;
    around = tt;
    sorted = v.sorted;
    low = λ j h. absurd (omega arith);
    high = λ j h. absurd (omega arith);
  }

  search-Found : Found btree key top T (find_place (btree.size + 1) btree key btree.tree no_place)
  search-Found =
      subst (λ r. Found btree key top T (find_place (btree.size + 1) btree key r no_place))
        (sym v.tree)
        (find_place-Found btree v.order key (btree.size + 1) top T looking
          (omega (arith, v.size, height-le T)))

-- insert
pub bt_insert_node-Inserted :
    (btree : BtT) (T : Tree) (f : ℕ) (fs : List ℕ) (key value : ℕ)
    → IsValid btree T (f ∷ fs)
    → 0 < key
    → 0 < value
    → btree.size + 1 < 2 ^ 64
    → ((bt_insert_node btree key value ≡ ok (false, btree))
        × (p : ℕ) × (0 < cells p T)
        × (equal_keys btree.kcfn key (btree.memory.key p) ≡ true))
      ⊎ ((btree' : BtT) × (bt_insert_node btree key value ≡ ok (true, btree'))
          × (T' : Tree) × IsValid btree' T' fs
          × Inserted btree btree' T T' key value)
unfolding Found
bt_insert_node-Inserted btree T f fs key value v hk hv small =
    elim (search-Found btree T f fs v key value) [
      | inl (run, p, i, same) ↦ inl (duplicate-steps btree key value hk hv run, p, i, same)
      | inr (c, run, k, whole) ↦
          inr (insert_at_place btree T f fs v key value c k whole hk hv small run)
    ]
