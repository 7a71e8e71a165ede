-- ===== src/BinaryTree/Valid.antt =====
-- The well-formedness of a tree of src/btree.c, and the entries that it holds.
pub mod Threads
use cutil.Prelude.{
  ℕ, suc, ◌+◌, ◌≤◌, ◌<◌, ◌≡◌, ◌⊎◌, inl, inr, refl, sym, ap, ◌∙◌, Bool, true, false, not, subst,
  List, [], ◌∷◌, ◌++◌, map, if◌then◌else◌, ◌==◌, Bool-cases, length, arith, Result, ok, ◌>>=◌, ℤ,
}
use cutil.ListItem.Ring.{count}
use cutil.BinaryTree.{Memory, BtT, is_node, deref, find_down, bt_find_node, bt_find}
use cutil.BinaryTree.Find.{find_down-first, height-le}
use cutil.BinaryTree.Order.{IsOrder, equal_keys, Sorted, first_equal, cells-count}
use cutil.BinaryTree.Rotate.Steps.{deref-ok, is_node-not_null}
use cutil.BinaryTree.Shape.{Tree, leaf, node, root, inorder, cells, top, Focus, Repr}
use cutil.BinaryTree.Shape.Balance.{Balanced}
use cutil.BinaryTree.Valid.Threads.{Threaded}

-- The free nodes from `p` on.
abbrev pub FreeNodes : Memory → ℕ → List ℕ → Type 0
FreeNodes m p [] = p ≡ 0
FreeNodes m p (f ∷ fs) = (p ≡ f) × (is_node m f ≡ true) × FreeNodes m (m.next f) fs

-- `btree` is the AVL tree `t`, ordered by the keys, with the free nodes `fs`.
pub record IsValid (btree : BtT) (t : Tree) (fs : List ℕ) : Type 0 where
  pub order : IsOrder btree.kcfn
  pub focus : Focus btree.memory top t
  pub balanced : Balanced btree.memory t
  pub tree : btree.tree ≡ root t
  pub sorted : Sorted btree.kcfn btree.memory.key (inorder t)
  pub threads : Threaded btree.memory 0 (inorder t)
  pub size : btree.size ≡ length (inorder t)
  pub free : FreeNodes btree.memory btree.free_list fs
  pub apart : (j : ℕ) → cells j t + count j fs ≤ 1
  pub block : 0 < btree.list_size

-- The keys and values, in the order of the keys.
abbrev pub entries : BtT → Tree → List (ℕ × ℕ)
entries btree t = map (λ j. (btree.memory.key j, btree.memory.val j)) (inorder t)

-- The value of the first equal key; 0, which is NULL, without one.
abbrev pub lookup : (ℕ → ℕ → ℤ) → ℕ → List (ℕ × ℕ) → ℕ
lookup cmp k [] = 0
lookup cmp k (e ∷ es) = if equal_keys cmp k e.0 then e.1 else lookup cmp k es

cell-cases :
    (l : Tree) (p : ℕ) (r : Tree) (j : ℕ)
    → 0 < cells j (node l p r)
    → (0 < cells j l) ⊎ ((p ≡ j) ⊎ (0 < cells j r))
cell-cases l p r j h = ground arith

pub Repr-inside :
    (m : Memory) (par : ℕ) (t : Tree) (j : ℕ) → Repr m par t → 0 < cells j t → is_node m j ≡ true
Repr-inside m par leaf j h k = absurd (omega arith)
Repr-inside m par (node l p r) j h k = elim (cell-cases l p r j k) [
  | inl i ↦ Repr-inside m p l j h.4 i
  | inr (inl e) ↦ subst (λ i. is_node m i ≡ true) e h.0
  | inr (inr i) ↦ Repr-inside m p r j h.5 i
]

module _ (btree : BtT) (k : ℕ) where
  abbrev read : ℕ → Result ℕ
  read p = if not (p == 0) then deref btree.memory p (btree.memory.val p) else ok 0

  read-first :
      (xs : List ℕ)
      → ((j : ℕ) → 0 < count j xs → is_node btree.memory j ≡ true)
      → read (first_equal btree.kcfn btree.memory.key k xs)
        ≡ ok (lookup btree.kcfn k (map (λ j. (btree.memory.key j, btree.memory.val j)) xs))
  read-first [] inside = refl
  read-first (x ∷ xs) inside = elim (Bool-cases (equal_keys btree.kcfn k (btree.memory.key x))) [
    | inl e ↦
        let here = inside x (ground arith) in
        rw
          (
            e,
            is_node-not_null btree.memory x here,
            deref-ok btree.memory x (btree.memory.val x) here,
          )
          refl
    | inr e ↦ rw e (read-first xs (λ j h. inside j (omega arith)))
  ]

-- In a valid tree, bt_find of a key that is not NULL ends, and gives what a search of the list of
-- entries from its beginning gives: the value of the first entry with an equal key, and NULL
-- without one.
pub bt_find-lookup :
    (btree : BtT) (t : Tree) (fs : List ℕ) (key : ℕ)
    → IsValid btree t fs
    → 0 < key
    → bt_find btree key ≡ ok (lookup btree.kcfn key (entries btree t))
unfolding bt_find bt_find_node
bt_find-lookup btree t fs key v some_key =
    let nn : (key == 0) ≡ false = ground arith in
    rw
      (
        nn,
        ap (find_down (btree.size + 1) btree key) v.tree
            ∙ find_down-first btree v.order key (btree.size + 1) 0 t v.focus.here v.sorted
                (omega (arith, v.size, height-le t)),
      )
      (read-first btree key (inorder t)
        (λ j h. Repr-inside btree.memory 0 t j v.focus.here (omega (arith, cells-count j t))))
