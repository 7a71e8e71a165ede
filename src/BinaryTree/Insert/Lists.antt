-- ===== src/BinaryTree/Insert/Lists.antt =====
-- `bt_insert_node`: the threads, the free nodes and the entries with the new node.
use cutil.Prelude.{
  ℕ, ◌+◌, ◌≤◌, ◌<◌, ◌≡◌, refl, ap₂, ◌∙◌, false, List, [], ◌∷◌, ◌++◌, map, map-append, if◌then◌else◌,
  ◌==◌, ==_refl, arith,
}
use cutil.ListItem.Ring.{count, last, count-last, map-congr}
use cutil.BinaryTree.{Memory}
use cutil.BinaryTree.Edit.{fill_node}
use cutil.BinaryTree.Shape.{Ctx, other_node}
use cutil.BinaryTree.Insert.{before, after, place_of, predecessor-last, successor-first}
use cutil.BinaryTree.Insert.Link.{LinkedAt, filled}
use cutil.BinaryTree.Valid.{FreeNodes}
use cutil.BinaryTree.Valid.Threads.{Threaded, Threaded-insert, first, first-count}

pub FreeNodes-frame :
    (m m' : Memory) (p : ℕ) (fs : List ℕ)
    → m'.allocated ≡ m.allocated
    → ((j : ℕ) → 0 < j → 0 < count j fs → m'.next j ≡ m.next j)
    → FreeNodes m p fs
    → FreeNodes m' p fs
FreeNodes-frame m m' p [] a same h = h
FreeNodes-frame m m' p (f ∷ fs) a same h = (
  h.0,
  ground (arith, a, h.1),
  rw (same f (ground (arith, h.1)) (ground arith))
      (FreeNodes-frame m m' (m.next f) fs a (λ j k l. same j k (omega arith)) h.2),
)

-- The new node `n` in the hole of `c`, and the free nodes `fs`.
module _ (m m' : Memory) (key value : ℕ) (c : Ctx) (n : ℕ)
    (w : LinkedAt n (place_of c) (filled n (place_of c) key value m) m') (fs : List ℕ)
    (some_n : 0 < n) (new : (j : ℕ) → count j (before c) + count j (after c) + count j (n ∷ fs) ≤ 1)
    (positive : (j : ℕ) → 0 < count j (before c) + count j (after c) → 0 < j) where
  other : (j : ℕ) → (0 < count j (before c) + count j (after c)) → (n == j) ≡ false
  other j h = other_node n j (omega (arith, new j))

  not_last : (last 0 (before c) == n) ≡ false
  not_last = let e = ==_refl n in ground (arith, new n, count-last 0 (before c))

  not_first : (first (after c) == n) ≡ false
  not_first = let e = ==_refl n in ground (arith, new n, first-count (after c) n)

  next_at :
      (j : ℕ)
      → 0 < j
      → (n == j) ≡ false
      → m'.next j ≡ (if last 0 (before c) == j then n else m.next j)
  unfolding fill_node
  next_at j h e = w.next j h ∙ rw (predecessor-last c, e) refl

  prev_at :
      (j : ℕ)
      → 0 < j
      → (n == j) ≡ false
      → m'.prev j ≡ (if first (after c) == j then n else m.prev j)
  unfolding fill_node
  prev_at j h e = w.prev j h ∙ rw (successor-first c, e) refl

  next_n : m'.next n ≡ first (after c)
  unfolding fill_node
  next_n = w.next n some_n ∙ rw (predecessor-last c, not_last, ==_refl n, successor-first c) refl

  prev_n : m'.prev n ≡ last 0 (before c)
  unfolding fill_node
  prev_n = w.prev n some_n ∙ rw (successor-first c, not_first, ==_refl n, predecessor-last c) refl

  pub Linked-Threaded : Threaded m 0 (before c ++ after c) → Threaded m' 0 (before c ++ n ∷ after c)
  Linked-Threaded h =
      Threaded-insert m m' n (omega arith) 0 (before c) (after c) h
        (λ j. ground (arith, new j, positive j))
        (λ j k e. next_at j (omega arith) (ground (arith, other j)))
        (λ j k. (let p = positive j k in omega arith, prev_at j (positive j k) (other j k))) next_n
        prev_n

  pub Linked-FreeNodes : FreeNodes m (m.next n) fs → FreeNodes m' (m.next n) fs
  unfolding fill_node
  Linked-FreeNodes h =
      FreeNodes-frame m m' (m.next n) fs w.allocated
        (λ j k l.
          let e : (n == j) ≡ false = ground (arith, new j) in
          let f : (last 0 (before c) == j) ≡ false =
            ground (arith, new j, count-last 0 (before c)) in
          next_at j k e ∙ rw f refl)
        h

  abbrev entry : Memory → ℕ → ℕ × ℕ
  entry m j = (m.key j, m.val j)

  entry-same : (j : ℕ) → 0 < count j (before c) + count j (after c) → entry m' j ≡ entry m j
  unfolding fill_node
  entry-same j h = ap₂ (λ f g. (f j, g j)) w.key w.val ∙ rw (other j h) refl

  pub Linked-entries :
      map (entry m') (before c ++ n ∷ after c)
      ≡ map (entry m) (before c) ++ (key, value) ∷ map (entry m) (after c)
  unfolding fill_node
  Linked-entries =
      map-append (entry m') (before c) (n ∷ after c)
      ∙ ap₂ ◌++◌ (map-congr (entry m') (entry m) (before c) (λ j h. entry-same j (omega arith))) (
          ap₂ ◌∷◌ (ap₂ (λ f g. (f n, g n)) w.key w.val ∙ rw (==_refl n) refl)
            (map-congr (entry m') (entry m) (after c) (λ j h. entry-same j (omega arith))))
