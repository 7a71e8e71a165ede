-- ===== src/BinaryTree/Insert/Grow.antt =====
-- `bt_insert_node`: the tree with the new node before it is balanced.
use cutil.Prelude.{
  ℕ, ◌+◌, ◌≤◌, ◌<◌, ◌≡◌, inl, inr, refl, ap, ◌∙◌, true, false, List, [], ◌∷◌, ◌++◌, if◌then◌else◌,
  ◌==◌, ==_refl, arith, ℤ,
}
use cutil.ListItem.Ring.{count, count-append}
use cutil.BinaryTree.{left, right, Memory, is_node, is_negative}
use cutil.BinaryTree.Edit.{fill_node}
use cutil.BinaryTree.Edit.Balance.{Grown, depth, root-plug}
use cutil.BinaryTree.Order.{IsOrder, Sorted, Sorted-join}
use cutil.BinaryTree.Rotate.Steps.{IsPointer, is_node-not_null}
use cutil.BinaryTree.Shape.{
  Tree, leaf, node, root, height, cells, join, plug, Ctx, top, under, up, side_of, cells_around,
  cells-join, ReprAround, ReprAround-positive, other_node, other_up,
}
use cutil.BinaryTree.Shape.Balance.{BalancedAround, BalancedAround-frame, height-join}
use cutil.BinaryTree.Shape.Frame.{ReprAround-frame}
use cutil.BinaryTree.Insert.{predecessor, successor, place_side, place_of}
use cutil.BinaryTree.Insert.Link.{LinkedAt, filled}

pub cells-plug : (j : ℕ) (c : Ctx) (t : Tree) → cells j (plug c t) ≡ cells j t + cells_around j c
cells-plug j top t = omega arith
cells-plug j (under s p y c) t = omega (arith, cells-plug j c (join s t p y), cells-join s j t p y)

pub depth-le : (c : Ctx) (t : Tree) → depth c + height t ≤ height (plug c t)
depth-le top t = omega arith
depth-le (under s p y c) t = omega (arith, depth-le c (join s t p y), height-join s t p y)

-- A hole below a node is on one side of it.
place_side-side_of : (c : Ctx) (j : ℕ) → 0 < cells_around j c → place_side c ≡ side_of c
place_side-side_of top j h = absurd (omega arith)
place_side-side_of (under s p y c) j h = refl

pub successor-IsPointer :
    (m : Memory) (c : Ctx) (a : ℕ) → ReprAround m c a → IsPointer m (successor c)
successor-IsPointer m top a h = inl refl
successor-IsPointer m (under left p y c) a h = inr h.0
successor-IsPointer m (under right p y c) a h = successor-IsPointer m c p h.5

pub predecessor-IsPointer :
    (m : Memory) (c : Ctx) (a : ℕ) → ReprAround m c a → IsPointer m (predecessor c)
predecessor-IsPointer m top a h = inl refl
predecessor-IsPointer m (under right p y c) a h = inr h.0
predecessor-IsPointer m (under left p y c) a h = predecessor-IsPointer m c p h.5

-- The root after a new node `n` in the hole.
pub root-placed :
    (m : Memory) (c : Ctx) (n : ℕ)
    → ReprAround m c 0
    → (if up c == 0 then n else root (plug c leaf)) ≡ root (plug c (node leaf n leaf))
root-placed m top n h = refl
root-placed m (under s p y c) n h =
    rw (is_node-not_null m p h.0) (root-plug s p y c leaf (node leaf n leaf))

-- The sequence before and behind a new node.
module _ (cmp : ℕ → ℕ → ℤ) (key key' : ℕ → ℕ) where
  pub Sorted-frame :
      (xs : List ℕ)
      → Sorted cmp key xs
      → ((j : ℕ) → 0 < count j xs → key' j ≡ key j)
      → Sorted cmp key' xs
  Sorted-frame [] s same = tt
  Sorted-frame (x ∷ xs) s same = (
    λ j h. rw (same x (ground arith), same j (omega arith)) (s.0 j h),
    Sorted-frame xs s.1 (λ j h. same j (omega arith)),
  )

  pub Sorted-halves :
      (xs ys : List ℕ) → Sorted cmp key (xs ++ ys) → Sorted cmp key xs × Sorted cmp key ys
  Sorted-halves [] ys s = (tt, s)
  Sorted-halves (x ∷ xs) ys s =
      let (hx, hy) = Sorted-halves xs ys s.1 in
      ((λ j h. s.0 j (omega (arith, count-append j xs ys)), hx), hy)

  pub Sorted-insert :
      (xs : List ℕ) (n : ℕ) (ys : List ℕ)
      → IsOrder cmp
      → Sorted cmp key (xs ++ ys)
      → ((j : ℕ) → 0 < count j xs + count j ys → key' j ≡ key j)
      → ((j : ℕ) → 0 < count j xs → is_negative (cmp (key j) (key' n)) ≡ true)
      → ((j : ℕ) → 0 < count j ys → is_negative (cmp (key' n) (key j)) ≡ true)
      → Sorted cmp key' (xs ++ n ∷ ys)
  Sorted-insert xs n ys o s same low high =
      let (hx, hy) = Sorted-halves xs ys s in
      Sorted-join cmp key' o xs n ys (record {
        before = Sorted-frame xs hx (λ j h. same j (omega arith));
        after = Sorted-frame ys hy (λ j h. same j (omega arith));
        below = λ j h. rw (same j (omega arith)) (low j h);
        above = λ j h. rw (same j (omega arith)) (high j h);
      })

-- The new node `n` in the hole of `c`: `m` is the memory before, and `m'` the one with the links.
module _ (m m' : Memory) (key value : ℕ) (c : Ctx) (n : ℕ)
    (w : LinkedAt n (place_of c) (filled n (place_of c) key value m) m') (here : is_node m n ≡ true)
    (new : (j : ℕ) → cells j (plug c leaf) + (if n == j then 1 else 0) ≤ 1) where
  some_n : 0 < n
  some_n = ground (arith, here)

  other : (j : ℕ) → 0 < cells_around j c → (n == j) ≡ false
  other j h = other_node n j (omega (arith, new j, cells-plug j c leaf))

  not_up : (up c == n) ≡ false
  not_up = let e = ==_refl n in other_up c n some_n (ground (arith, new n, cells-plug n c leaf))

  frame_around : ReprAround m c 0 → ReprAround m' c n
  unfolding fill_node
  frame_around h =
      ReprAround-frame m m' w.allocated c 0 n h (λ j. omega (arith, new j, cells-plug j c leaf))
        (λ s j k.
          w.child s j (ReprAround-positive m c 0 j h k)
          ∙ rw (other j k, place_side-side_of c j k) refl)
        (λ j k. ap (λ f. f j) w.parent ∙ rw (other j k) refl)

  pub Linked-Grown : ReprAround m c 0 → BalancedAround m c 0 → Grown m' c (node leaf n leaf) 0
  unfolding fill_node
  Linked-Grown h b = record {
    focus = record {
      here = (
        ground (arith, here, w.allocated),
        ap (λ f. f n) w.parent ∙ rw (==_refl n) refl,
        w.child left n some_n ∙ rw (not_up, ==_refl n) refl,
        w.child right n some_n ∙ rw (not_up, ==_refl n) refl,
        tt,
        tt,
      );
      around = frame_around h;
      once = λ j. omega (arith, new j, cells-plug j c leaf);
    };
    balanced = (inl (ap (λ f. f n) w.balance ∙ rw (==_refl n) refl, refl), tt, tt);
    around = BalancedAround-frame m m' c 0 b (λ j k. ap (λ f. f j) w.balance ∙ rw (other j k) refl);
    high = refl;
    uneven = inl refl;
  }
