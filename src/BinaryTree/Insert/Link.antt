-- ===== src/BinaryTree/Insert/Link.antt =====
-- `bt_insert_node`: the new node is filled in, made a child, and threaded.
use cutil.Prelude.{
  ℕ, ◌+◌, ◌<◌, ◌≡◌, inl, inr, refl, ap, ◌∙◌, false, ◌&&◌, if◌then◌else◌, ◌==◌, ◌%◌, ◌^◌, arith, ok,
  Returns,
}
use cutil.BinaryTree.{Side, same_side, Memory, BtT, deref, update, with_child}
use cutil.BinaryTree.Edit.{Place, fill_node, link_node}
use cutil.BinaryTree.Rotate.Steps.{deref-ok, is_node-not_null, IsPointer}

-- `m'` has other links than `m`, given by maps that tell the truth at nodes.
pub record Linked (m m' : Memory) (child' : Side → ℕ → ℕ) (next' prev' : ℕ → ℕ) : Type 0 where
  pub allocated : m'.allocated ≡ m.allocated
  pub key : m'.key ≡ m.key
  pub val : m'.val ≡ m.val
  pub balance : m'.balance ≡ m.balance
  pub parent : m'.parent ≡ m.parent
  pub child : (s : Side) (j : ℕ) → 0 < j → m'.child s j ≡ child' s j
  pub next : (j : ℕ) → 0 < j → m'.next j ≡ next' j
  pub prev : (j : ℕ) → 0 < j → m'.prev j ≡ prev' j

module _ (m : Memory) (p n : ℕ) where
  not_null : (j : ℕ) → p ≡ 0 → 0 < j → (p == j) ≡ false
  not_null j e h = ground arith

  child-Linked :
      (s : Side)
      → IsPointer m p
      → Returns (if p == 0 then ok m else deref m p (with_child s p n m)) λ m'.
        Linked m m' (λ s' j. if (p == j) && same_side s s' then n else m.child s' j) m.next m.prev
  child-Linked s (inl e) = (
    m,
    rw e refl,
    record {
      allocated = refl;
      key = refl;
      val = refl;
      balance = refl;
      parent = refl;
      child = λ s' j h. rw (not_null j e h) refl;
      next = λ j h. refl;
      prev = λ j h. refl;
    },
  )
  child-Linked s (inr e) = (
    with_child s p n m,
    rw (is_node-not_null m p e, deref-ok m p (with_child s p n m) e) refl,
    record {
      allocated = refl;
      key = refl;
      val = refl;
      balance = refl;
      parent = refl;
      child = λ s' j h. refl;
      next = λ j h. refl;
      prev = λ j h. refl;
    },
  )

  prev-Linked :
      IsPointer m p
      → Returns
          (if p == 0 then ok m else deref m p (record m { prev = update m.prev p n }))
          λ m'. Linked m m' m.child m.next (update m.prev p n)
  prev-Linked (inl e) = (
    m,
    rw e refl,
    record {
      allocated = refl;
      key = refl;
      val = refl;
      balance = refl;
      parent = refl;
      child = λ s' j h. refl;
      next = λ j h. refl;
      prev = λ j h. rw (not_null j e h) refl;
    },
  )
  prev-Linked (inr e) = (
    record m { prev = update m.prev p n },
    rw (is_node-not_null m p e, deref-ok m p (record m { prev = update m.prev p n }) e) refl,
    record {
      allocated = refl;
      key = refl;
      val = refl;
      balance = refl;
      parent = refl;
      child = λ s' j h. refl;
      next = λ j h. refl;
      prev = λ j h. refl;
    },
  )

  next-Linked :
      IsPointer m p
      → Returns
          (if p == 0 then ok m else deref m p (record m { next = update m.next p n }))
          λ m'. Linked m m' m.child (update m.next p n) m.prev
  next-Linked (inl e) = (
    m,
    rw e refl,
    record {
      allocated = refl;
      key = refl;
      val = refl;
      balance = refl;
      parent = refl;
      child = λ s' j h. refl;
      next = λ j h. rw (not_null j e h) refl;
      prev = λ j h. refl;
    },
  )
  next-Linked (inr e) = (
    record m { next = update m.next p n },
    rw (is_node-not_null m p e, deref-ok m p (record m { next = update m.next p n }) e) refl,
    record {
      allocated = refl;
      key = refl;
      val = refl;
      balance = refl;
      parent = refl;
      child = λ s' j h. refl;
      next = λ j h. refl;
      prev = λ j h. refl;
    },
  )

pub IsPointer-same :
    (m m' : Memory) (p : ℕ) → m'.allocated ≡ m.allocated → IsPointer m p → IsPointer m' p
IsPointer-same m m' p e (inl h) = inl h
IsPointer-same m m' p e (inr h) = inr (ground (arith, e))

-- `m'` is `m` with links to the node `n` at `place`.
abbrev pub LinkedAt : ℕ → Place → Memory → Memory → Type 0
LinkedAt n place m m' =
    Linked m m' (λ s j. if (place.parent == j) && same_side place.side s then n else m.child s j)
      (update m.next place.inorder_predecessor n) (update m.prev place.inorder_successor n)

-- The tree with the new node.
pub record Placed (btree : BtT) (n : ℕ) (place : Place) (m : Memory) (btree' : BtT) : Type 0 where
  pub links : LinkedAt n place m btree'.memory
  pub size : btree'.size ≡ (btree.size + 1) % 2 ^ 64
  pub tree : btree'.tree ≡ (if place.parent == 0 then n else btree.tree)
  pub free_list : btree'.free_list ≡ btree.free_list
  pub list_size : btree'.list_size ≡ btree.list_size
  pub kcfn : btree'.kcfn ≡ btree.kcfn

link_node-steps :
    (btree : BtT) (n : ℕ) (place : Place) (m m₁ m₂ m₃ : Memory)
    → (if place.parent == 0
        then ok m
        else deref m place.parent (with_child place.side place.parent n m))
      ≡ ok m₁
    → (if place.inorder_successor == 0
        then ok m₁
        else deref m₁ place.inorder_successor
            (record m₁ { prev = update m₁.prev place.inorder_successor n }))
      ≡ ok m₂
    → (if place.inorder_predecessor == 0
        then ok m₂
        else deref m₂ place.inorder_predecessor
            (record m₂ { next = update m₂.next place.inorder_predecessor n }))
      ≡ ok m₃
    → link_node btree n place m
      ≡ ok (record btree {
        size = (btree.size + 1) % 2 ^ 64;
        tree = if place.parent == 0 then n else btree.tree;
        memory = m₃;
      })
unfolding link_node
link_node-steps btree n place m m₁ m₂ m₃ e₁ e₂ e₃ = rw (e₁, e₂, e₃) refl

pub link_node-Placed :
    (btree : BtT) (n : ℕ) (place : Place) (m : Memory)
    → IsPointer m place.parent
    → IsPointer m place.inorder_successor
    → IsPointer m place.inorder_predecessor
    → Returns (link_node btree n place m) λ btree'. Placed btree n place m btree'
link_node-Placed btree n place m hp hs hr =
    let (m₁, run₁, w₁) = child-Linked m place.parent n place.side hp in
    let (m₂, run₂, w₂) =
      prev-Linked m₁ place.inorder_successor n
        (IsPointer-same m m₁ place.inorder_successor w₁.allocated hs) in
    let same₂ = w₂.allocated ∙ w₁.allocated in
    let (m₃, run₃, w₃) =
      next-Linked m₂ place.inorder_predecessor n
        (IsPointer-same m m₂ place.inorder_predecessor same₂ hr) in
    (
      record btree {
        size = (btree.size + 1) % 2 ^ 64;
        tree = if place.parent == 0 then n else btree.tree;
        memory = m₃;
      },
      link_node-steps btree n place m m₁ m₂ m₃ run₁ run₂ run₃,
      record {
        links = record {
          allocated = w₃.allocated ∙ same₂;
          key = w₃.key ∙ w₂.key ∙ w₁.key;
          val = w₃.val ∙ w₂.val ∙ w₁.val;
          balance = w₃.balance ∙ w₂.balance ∙ w₁.balance;
          parent = w₃.parent ∙ w₂.parent ∙ w₁.parent;
          child = λ s j h. w₃.child s j h ∙ w₂.child s j h ∙ w₁.child s j h;
          next = λ j h.
              w₃.next j h
              ∙ ap (λ x. if place.inorder_predecessor == j then n else x)
                  (w₂.next j h ∙ w₁.next j h);
          prev = λ j h.
              w₃.prev j h
              ∙ w₂.prev j h
              ∙ ap (λ x. if place.inorder_successor == j then n else x) (w₁.prev j h);
        };
        size = refl;
        tree = refl;
        free_list = refl;
        list_size = refl;
        kcfn = refl;
      },
    )

-- The memory with the fields of a node that was free.
abbrev pub filled : ℕ → Place → ℕ → ℕ → Memory → Memory
filled n place key value m = fill_node n place key value (record m { next = update m.next n 0 })
