-- ===== src/BinaryTree/Insert/More.antt =====
-- `bt_add_more_nodes`: a new block of nodes, all of them free, changes nothing else.
use cutil.Prelude.{
  ℕ, zero, suc, subst, ◌+◌, ◌-◌, ◌≤◌, ◌<◌, ◌≡◌, ◌⊎◌, inl, inr, refl, ap, ap₂, ◌∙◌, true, false,
  ◌&&◌, List, [], ◌∷◌, ◌==◌, ==_refl, ltb, leb, ◌%◌, ◌^◌, arith, Returns,
}
use cutil.ListItem.Ring.{count, map-congr}
use cutil.BinaryTree.{Side, left, right, Memory, BtT, is_node, update}
use cutil.BinaryTree.Pool.{calloc_nodes, link_nodes, bt_add_more_nodes, add_block}
use cutil.BinaryTree.Order.{cells-count}
use cutil.BinaryTree.Shape.{Tree, leaf, node, inorder, cells, Repr, Focus, top}
use cutil.BinaryTree.Shape.Balance.{Balanced-frame}
use cutil.BinaryTree.Insert.Grow.{Sorted-frame}
use cutil.BinaryTree.Valid.{IsValid, FreeNodes, entries, Repr-inside}
use cutil.BinaryTree.Valid.Threads.{Threaded}

-- The addresses from `p` to `p + k`.
abbrev count_up : ℕ → ℕ → List ℕ
count_up p zero = p ∷ []
count_up p (suc k) = p ∷ count_up (p + 1) k

count_up-first : (p k : ℕ) → (fs : List ℕ) × (count_up p k ≡ p ∷ fs)
count_up-first p zero = ([], refl)
count_up-first p (suc k) = (count_up (p + 1) k, refl)

count-count_up : (j p k : ℕ) → count j (count_up p k) ≤ 1 × (0 < count j (count_up p k) → p ≤ j)
count-count_up j p zero = (ground arith, λ h. ground arith)
count-count_up j p (suc k) =
    let (once, above) = count-count_up j (p + 1) k in (ground arith, λ h. ground arith)

-- Only `next` changes.
link_nodes-same :
    (k p : ℕ) (m : Memory) → link_nodes k p m ≡ record m { next = (link_nodes k p m).next }
unfolding link_nodes
link_nodes-same zero p m = refl
link_nodes-same (suc k) p m =
    link_nodes-same k (p + 1) (record m { next = update m.next p (p + 1) })

link_nodes-below : (k p : ℕ) (m : Memory) (j : ℕ) → j < p → (link_nodes k p m).next j ≡ m.next j
unfolding link_nodes
link_nodes-below zero p m j h = let e : (p == j) ≡ false = ground arith in rw e refl
link_nodes-below (suc k) p m j h =
    let e : (p == j) ≡ false = ground arith in
    link_nodes-below k (p + 1) (record m { next = update m.next p (p + 1) }) j (omega arith)
    ∙ rw e refl

link_nodes-FreeNodes :
    (k p : ℕ) (m : Memory)
    → 0 < p
    → p + k ≤ m.allocated
    → FreeNodes (link_nodes k p m) p (count_up p k)
unfolding link_nodes
link_nodes-FreeNodes zero p m h fits = (refl, ground arith, rw (==_refl p) refl)
link_nodes-FreeNodes (suc k) p m h fits =
    let m₁ = record m { next = update m.next p (p + 1) } in
    let at_p : (link_nodes k (p + 1) m₁).next p ≡ p + 1 =
      link_nodes-below k (p + 1) m₁ p (omega arith) ∙ rw (==_refl p) refl in
    let size : (link_nodes k (p + 1) m₁).allocated ≡ m.allocated =
      ap (λ x. x.allocated) (link_nodes-same k (p + 1) m₁) in
    (refl, ground arith, rw at_p (link_nodes-FreeNodes k (p + 1) m₁ (omega arith) (omega arith)))

-- The nodes of `m` are in `m'`, and hold what they did.
record Kept (m m' : Memory) : Type 0 where
  more : m.allocated ≤ m'.allocated
  key : (j : ℕ) → is_node m j ≡ true → m'.key j ≡ m.key j
  val : (j : ℕ) → is_node m j ≡ true → m'.val j ≡ m.val j
  balance : (j : ℕ) → is_node m j ≡ true → m'.balance j ≡ m.balance j
  parent : (j : ℕ) → is_node m j ≡ true → m'.parent j ≡ m.parent j
  child : (s : Side) (j : ℕ) → is_node m j ≡ true → m'.child s j ≡ m.child s j
  next : (j : ℕ) → is_node m j ≡ true → m'.next j ≡ m.next j
  prev : (j : ℕ) → is_node m j ≡ true → m'.prev j ≡ m.prev j

Repr-kept : (m m' : Memory) → Kept m m' → (par : ℕ) (t : Tree) → Repr m par t → Repr m' par t
Repr-kept m m' k par leaf h = tt
Repr-kept m m' k par (node l p r) h = (
  ground (arith, k.more, h.0),
  k.parent p h.0 ∙ h.1,
  k.child left p h.0 ∙ h.2,
  k.child right p h.0 ∙ h.3,
  Repr-kept m m' k p l h.4,
  Repr-kept m m' k p r h.5,
)

-- The new nodes begin behind the old ones.
not_new :
    (n : ℕ) (m : Memory) (j : ℕ)
    → is_node m j ≡ true
    → (ltb m.allocated j && leb j (m.allocated + n)) ≡ false
not_new n m j h = ground arith

new_block-Kept : (k n : ℕ) (m : Memory) → Kept m (link_nodes k (m.allocated + 1) (calloc_nodes n m))
unfolding calloc_nodes
new_block-Kept k n m =
    let same = link_nodes-same k (m.allocated + 1) (calloc_nodes n m) in
    record {
      more = omega (arith, ap (λ x. x.allocated) same);
      key = λ j h. ap (λ x. x.key j) same ∙ rw (not_new n m j h) refl;
      val = λ j h. ap (λ x. x.val j) same ∙ rw (not_new n m j h) refl;
      balance = λ j h. ap (λ x. x.balance j) same ∙ rw (not_new n m j h) refl;
      parent = λ j h. ap (λ x. x.parent j) same ∙ rw (not_new n m j h) refl;
      child = λ s j h. ap (λ x. x.child s j) same ∙ rw (not_new n m j h) refl;
      next = λ j h.
          link_nodes-below k (m.allocated + 1) (calloc_nodes n m) j (ground arith)
          ∙ rw (not_new n m j h) refl;
      prev = λ j h. ap (λ x. x.prev j) same ∙ rw (not_new n m j h) refl;
    }

not_above : (m : Memory) (j : ℕ) → is_node m j ≡ true → j ≤ m.allocated
not_above m j h = ground arith

one_of : (a j x y : ℕ) → x ≤ 1 → y ≤ 1 → (0 < x → j ≤ a) → (0 < y → a < j) → x + y ≤ 1
one_of a j x y hx hy f g = ground (arith, f, g)

-- What `bt_add` finds: the same tree and entries, with the free nodes `fs`.
pub record Ready (btree b : BtT) (T : Tree) (fs : List ℕ) : Type 0 where
  pub valid : IsValid b T fs
  pub size : b.size ≡ btree.size
  pub kcfn : b.kcfn ≡ btree.kcfn
  pub key : (j : ℕ) → 0 < cells j T → b.memory.key j ≡ btree.memory.key j
  pub entries_kept : entries b T ≡ entries btree T

module _ (btree : BtT) (T : Tree) (v : IsValid btree T []) where
  -- The same tree in a memory with more nodes.
  module _ (b : BtT) (k : Kept btree.memory b.memory) (tree : b.tree ≡ btree.tree)
      (size : b.size ≡ btree.size) (kcfn : b.kcfn ≡ btree.kcfn)
      (block : b.list_size ≡ btree.list_size) (fs : List ℕ)
      (free : FreeNodes b.memory b.free_list fs)
      (apart : (j : ℕ) → (count j fs ≤ 1) × (0 < count j fs → btree.memory.allocated < j)) where
    inside : (j : ℕ) → 0 < cells j T → is_node btree.memory j ≡ true
    inside j h = Repr-inside btree.memory 0 T j v.focus.here h

    member : (j : ℕ) → 0 < count j (inorder T) → is_node btree.memory j ≡ true
    member j h = inside j (omega (arith, cells-count j T))

    kept-Focus : Focus b.memory top T
    kept-Focus = record {
      here = Repr-kept btree.memory b.memory k 0 T v.focus.here;
      around = tt;
      once = v.focus.once;
    }

    -- NULL before the first node is no node.
    kept_threads :
        (a : ℕ) (xs : List ℕ)
        → (a ≡ 0) ⊎ (is_node btree.memory a ≡ true)
        → ((j : ℕ) → 0 < count j xs → is_node btree.memory j ≡ true)
        → Threaded btree.memory a xs
        → Threaded b.memory a xs
    kept_threads a [] (inl e) h t = inl e
    kept_threads a [] (inr e) h (inl t) = inl t
    kept_threads a [] (inr e) h (inr t) = inr (k.next a e ∙ t)
    kept_threads a (x ∷ xs) p h t =
        let here = h x (ground arith) in
        (
          follow p t.0,
          k.prev x here ∙ t.1,
          kept_threads x xs (inr here) (λ j i. h j (omega arith)) t.2,
        )
      where
        follow :
            (a ≡ 0) ⊎ (is_node btree.memory a ≡ true)
            → (a ≡ 0) ⊎ (btree.memory.next a ≡ x)
            → (a ≡ 0) ⊎ (b.memory.next a ≡ x)
        follow (inl e) t = inl e
        follow (inr e) (inl t) = inl t
        follow (inr e) (inr t) = inr (k.next a e ∙ t)

    kept_Ready : Ready btree b T fs
    kept_Ready = record {
      valid = record {
        order = rw kcfn v.order;
        focus = kept-Focus;
        balanced =
            Balanced-frame btree.memory b.memory T v.balanced (λ j h. k.balance j (inside j h));
        tree = tree ∙ v.tree;
        sorted = rw kcfn (
            Sorted-frame btree.kcfn btree.memory.key b.memory.key (inorder T) v.sorted
              (λ j h. k.key j (member j h)));
        threads = kept_threads 0 (inorder T) (inl refl) member v.threads;
        size = size ∙ v.size;
        free = free;
        apart = λ j.
            one_of btree.memory.allocated j (cells j T) (count j fs) (omega (arith, v.focus.once j))
              (apart j).0 (λ h. not_above btree.memory j (inside j h)) (apart j).1;
        block = rw block v.block;
      };
      size = size;
      kcfn = kcfn;
      key = λ j h. k.key j (inside j h);
      entries_kept =
          map-congr (λ j. (b.memory.key j, b.memory.val j))
            (λ j. (btree.memory.key j, btree.memory.val j)) (inorder T)
            (λ j h. ap₂ (λ x y. (x, y)) (k.key j (member j h)) (k.val j (member j h)));
    }

  pub bt_add_more_nodes-Ready :
      Returns
        (bt_add_more_nodes true true btree)
        λ b. (f : ℕ) × (fs : List ℕ) × Ready btree b T (f ∷ fs)
  unfolding bt_add_more_nodes calloc_nodes
  bt_add_more_nodes-Ready =
      let some_size = v.block in
      let first = btree.memory.allocated + 1 in
      let m = btree.memory in
      let rounds = btree.list_size - 1 in
      let b = record btree {
        num_lists = (btree.num_lists + 1) % 2 ^ 64;
        node_list = add_block btree.node_list btree.num_lists first;
        free_list = first;
        memory = link_nodes rounds first (calloc_nodes btree.list_size m);
      } in
      let free =
        link_nodes-FreeNodes rounds first (calloc_nodes btree.list_size m) (omega arith)
          (omega arith) in
      let (fs, e) = count_up-first first rounds in
      (
        b,
        rw v.free refl,
        (
          first,
          fs,
          subst (Ready btree b T) e (
              kept_Ready b (new_block-Kept rounds btree.list_size m) refl refl refl refl
                (count_up first rounds) free
                (λ j.
                  let (once, above) = count-count_up j first rounds in
                  (once, λ h. omega (arith, above h)))),
        ),
      )
