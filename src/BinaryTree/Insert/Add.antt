-- ===== src/BinaryTree/Insert/Add.antt =====
-- `bt_add` of src/btree.c: every outcome, and what `bt_find` finds then.
use cutil.Prelude.{
  ℕ, subst, ◌+◌, ◌<◌, ◌≡◌, ◌⊎◌, inl, inr, refl, sym, ◌∙◌, Bool, true, false, ◌&&◌, List, [], ◌∷◌,
  ◌++◌, ◌==◌, ◌%◌, ◌^◌, arith, ok, Returns, Option,
}
use cutil.BinaryTree.{BtT}
use cutil.BinaryTree.Pool.{bt_add_more_nodes, add_block}
use cutil.BinaryTree.Edit.{bt_insert_node, bt_add}
use cutil.BinaryTree.Order.{equal_keys}
use cutil.BinaryTree.Rotate.Steps.{is_node-not_null}
use cutil.BinaryTree.Shape.{Tree, cells}
use cutil.BinaryTree.Insert.Entry.{Inserted}
use cutil.BinaryTree.Insert.Laws.{bt_insert_node-Inserted}
use cutil.BinaryTree.Insert.More.{Ready, bt_add_more_nodes-Ready}
use cutil.BinaryTree.Valid.{IsValid, entries, lookup}

-- A node of the tree has a key that is equal.
abbrev pub Duplicate : BtT → Tree → ℕ → Type 0
Duplicate btree T key =
    (p : ℕ) × (0 < cells p T) × (equal_keys btree.kcfn key (btree.memory.key p) ≡ true)

-- Either the entry is new, or nothing has changed: for a duplicate, or without memory.
abbrev pub Added : Bool → Bool → BtT → Tree → List ℕ → ℕ → ℕ → Bool × BtT → Type 0
Added alloc_list alloc_block btree T fs key value r =
    (T' : Tree) × (fs' : List ℕ) × IsValid r.1 T' fs'
    × (((r.0 ≡ true) × Inserted btree r.1 T T' key value)
        ⊎ ((r.0 ≡ false)
            × (entries r.1 T' ≡ entries btree T)
            × (Duplicate btree T key ⊎ ((fs ≡ []) × ((alloc_list && alloc_block) ≡ false)))))

module _ (alloc_list alloc_block : Bool) (btree : BtT) (key value : ℕ) (hk : 0 < key)
    (hv : 0 < value) where
  nk : (key == 0) ≡ false
  nk = ground arith

  nv : (value == 0) ≡ false
  nv = ground arith

  add-steps :
      (btree.free_list == 0) ≡ false
      → bt_add alloc_list alloc_block btree key value ≡ bt_insert_node btree key value
  unfolding bt_add
  add-steps e = rw (nk, nv, e) (rw e refl)

  grow-steps :
      (b : BtT)
      → (btree.free_list == 0) ≡ true
      → bt_add_more_nodes alloc_list alloc_block btree ≡ ok b
      → (b.free_list == 0) ≡ false
      → bt_add alloc_list alloc_block btree key value ≡ bt_insert_node b key value
  unfolding bt_add
  grow-steps b e run f = rw (nk, nv, e, run, f) refl

  fail-steps :
      (b : BtT)
      → (btree.free_list == 0) ≡ true
      → bt_add_more_nodes alloc_list alloc_block btree ≡ ok b
      → (b.free_list == 0) ≡ true
      → bt_add alloc_list alloc_block btree key value ≡ ok (false, b)
  unfolding bt_add
  fail-steps b e run f = rw (nk, nv, e, run, f) refl

  module _ (T : Tree) (small : btree.size + 1 < 2 ^ 64) where
    -- With free nodes: those of `btree`, or of a new block.
    add-Ready :
        (b : BtT) (f : ℕ) (fs fs₀ : List ℕ)
        → Ready btree b T (f ∷ fs)
        → bt_add alloc_list alloc_block btree key value ≡ bt_insert_node b key value
        → Returns
            (bt_add alloc_list alloc_block btree key value)
            (Added alloc_list alloc_block btree T fs₀ key value)
    add-Ready b f fs fs₀ k same =
        elim (bt_insert_node-Inserted b T f fs key value k.valid hk hv (rw k.size small)) [
          | inl (run, p, i, equal) ↦ (
            (false, b),
            same ∙ run,
            (
              T,
              f ∷ fs,
              k.valid,
              inr (
                refl,
                k.entries_kept,
                inl (
                  p,
                  i,
                  subst (λ x. equal_keys btree.kcfn key x ≡ true) (k.key p i)
                      (subst (λ g. equal_keys g key (b.memory.key p) ≡ true) k.kcfn equal),
                ),
              ),
            ),
          )
          | inr (b', run, T', v', w) ↦ (
            (true, b'),
            same ∙ run,
            (
              T',
              fs,
              v',
              inl (
                refl,
                record {
                  low = w.low;
                  high = w.high;
                  old = sym k.entries_kept ∙ w.old;
                  new = w.new;
                  below =
                      subst
                        (λ g.
                          (x : ℕ) (es : List (ℕ × ℕ))
                          → equal_keys g x key ≡ true
                          → lookup g x (w.low ++ es) ≡ lookup g x es)
                        k.kcfn w.below;
                  kcfn = w.kcfn ∙ k.kcfn;
                },
              ),
            ),
          )
        ]

    itself : (fs : List ℕ) → IsValid btree T fs → Ready btree btree T fs
    itself fs v = record {
      valid = v;
      size = refl;
      kcfn = refl;
      key = λ j h. refl;
      entries_kept = refl;
    }

    some_free : (b : BtT) (f : ℕ) (fs : List ℕ) → IsValid b T (f ∷ fs) → (b.free_list == 0) ≡ false
    some_free b f fs v = rw v.free.0 (is_node-not_null b.memory f v.free.1)

    no_free : IsValid btree T [] → (btree.free_list == 0) ≡ true
    no_free v = rw v.free refl

    -- Without memory the tree stays as it is.
    add_failed :
        (b : BtT)
        → IsValid btree T []
        → IsValid b T []
        → entries b T ≡ entries btree T
        → bt_add_more_nodes alloc_list alloc_block btree ≡ ok b
        → (alloc_list && alloc_block) ≡ false
        → Returns
            (bt_add alloc_list alloc_block btree key value)
            (Added alloc_list alloc_block btree T [] key value)
    add_failed b v v' same run failed = (
      (false, b),
      fail-steps b (no_free v) run (rw v'.free refl),
      (T, [], v', inr (refl, same, inr (refl, failed))),
    )

-- Only the blocks are counted in other numbers.
counted :
    (btree : BtT) (T : Tree) (x : ℕ) (y : List (Option ℕ))
    → IsValid btree T []
    → IsValid (record btree { num_lists = x; node_list = y }) T []
counted btree T x y v = record {
  order = v.order;
  focus = v.focus;
  balanced = v.balanced;
  tree = v.tree;
  sorted = v.sorted;
  threads = v.threads;
  size = v.size;
  free = v.free;
  apart = v.apart;
  block = v.block;
}

-- In a valid tree (an AVL tree in the order of the keys, threaded in this order, with its free
-- nodes apart) of fewer than 2^64 - 1 nodes, bt_add of a key and a value that are not NULL
-- returns, whether or not there is memory for more nodes, and leaves a valid tree. Either it
-- returns TRUE, and the entries are the old ones with the new one in between; or it returns FALSE,
-- the entries are the old ones, and a node has an equal key, or there was no free node and an
-- allocation failed.
pub bt_add-Added :
    (alloc_list alloc_block : Bool) (btree : BtT) (T : Tree) (fs : List ℕ) (key value : ℕ)
    → IsValid btree T fs
    → 0 < key
    → 0 < value
    → btree.size + 1 < 2 ^ 64
    → Returns
        (bt_add alloc_list alloc_block btree key value)
        (Added alloc_list alloc_block btree T fs key value)
unfolding bt_add_more_nodes
bt_add-Added alloc_list alloc_block btree T (f ∷ fs) key value v hk hv small =
    add-Ready alloc_list alloc_block btree key value hk hv T small btree f fs (f ∷ fs)
      (itself alloc_list alloc_block btree key value hk hv T small (f ∷ fs) v)
      (add-steps alloc_list alloc_block btree key value hk hv
        (some_free alloc_list alloc_block btree key value hk hv T small btree f fs v))
bt_add-Added true true btree T [] key value v hk hv small =
    let (b, run, (f, fs, k)) = bt_add_more_nodes-Ready btree T v in
    add-Ready true true btree key value hk hv T small b f fs [] k (
      grow-steps true true btree key value hk hv b
        (no_free true true btree key value hk hv T small v) run
        (some_free true true btree key value hk hv T small b f fs k.valid))
bt_add-Added true false btree T [] key value v hk hv small =
    let x = (btree.num_lists + 1) % 2 ^ 64 in
    let y = add_block btree.node_list btree.num_lists 0 in
    add_failed true false btree key value hk hv T small
      (record btree { num_lists = x; node_list = y }) v (counted btree T x y v) refl
      (rw v.free refl) refl
bt_add-Added false alloc_block btree T [] key value v hk hv small =
    let x = (btree.num_lists + 1) % 2 ^ 64 in
    add_failed false alloc_block btree key value hk hv T small (record btree { num_lists = x }) v
      (counted btree T x btree.node_list v) refl (rw v.free refl) refl
