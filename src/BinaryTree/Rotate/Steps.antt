-- ===== src/BinaryTree/Rotate/Steps.antt =====
-- The pieces of a rotation.
use cutil.Prelude.{
  ℕ, ◌+◌, ◌<◌, ◌≡◌, ◌⊎◌, inl, inr, refl, Bool, true, false, if◌then◌else◌, ◌==◌, ◌&&◌, arith, ok,
  Returns, ==_refl, ℤ,
}
use cutil.BinaryTree.{
  Side, left, right, opposite, same_side, Memory, is_node, deref, update, with_child, with_parent,
}
use cutil.BinaryTree.Shape.{
  Tree, leaf, node, root, cells-root, Repr, Ctx, top, under, up, side_of, cells_around, ReprAround,
  Focus,
}
use cutil.BinaryTree.Rotate.{bt_is_left_child, set_parent, attach}

pub deref-ok {ℓ} :
    {A : Type ℓ} (m : Memory) (p : ℕ) (x : A) → is_node m p ≡ true → deref m p x ≡ ok x
unfolding deref
deref-ok m p x h = rw h refl

pub is_node-not_null : (m : Memory) (p : ℕ) → is_node m p ≡ true → (p == 0) ≡ false
is_node-not_null m p h = ground arith

-- NULL or a node.
abbrev pub IsPointer : Memory → ℕ → Type 0
IsPointer m p = (p ≡ 0) ⊎ (is_node m p ≡ true)

pub root-IsPointer : (m : Memory) (par : ℕ) (t : Tree) → Repr m par t → IsPointer m (root t)
root-IsPointer m par leaf h = inl refl
root-IsPointer m par (node l p r) h = inr h.0

pub up-IsPointer : (m : Memory) (c : Ctx) (a : ℕ) → ReprAround m c a → IsPointer m (up c)
up-IsPointer m top a h = inl refl
up-IsPointer m (under s p y c) a h = inr h.0

-- `m'` has other parents and children than `m`, given by maps that tell the truth at nodes.
pub record Moved (m m' : Memory) (parent' : ℕ → ℕ) (child' : Side → ℕ → ℕ) : Type 0 where
  pub allocated : m'.allocated ≡ m.allocated
  pub key : m'.key ≡ m.key
  pub val : m'.val ≡ m.val
  pub next : m'.next ≡ m.next
  pub prev : m'.prev ≡ m.prev
  pub balance : m'.balance ≡ m.balance
  pub parent : (j : ℕ) → 0 < j → m'.parent j ≡ parent' j
  pub child : (s : Side) (j : ℕ) → 0 < j → m'.child s j ≡ child' s j

pub set_parent-Moved :
    (m : Memory) (b p : ℕ)
    → IsPointer m b
    → Returns (set_parent m b p) λ m'. Moved m m' (update m.parent b p) m.child
unfolding set_parent
set_parent-Moved m b p (inl e) = (
  m,
  rw e refl,
  record {
    allocated = refl;
    key = refl;
    val = refl;
    next = refl;
    prev = refl;
    balance = refl;
    parent = λ j h. ground arith;
    child = λ s j h. refl;
  },
)
set_parent-Moved m b p (inr e) = (
  with_parent b p m,
  rw (is_node-not_null m b e, deref-ok m b (with_parent b p m) e) refl,
  record {
    allocated = refl;
    key = refl;
    val = refl;
    next = refl;
    prev = refl;
    balance = refl;
    parent = λ j h. refl;
    child = λ s j h. refl;
  },
)

abbrev pub side : Bool → Side
side is_left = if is_left then left else right

pub attach-Moved :
    (m : Memory) (R : ℕ) (is_left : Bool) (n : ℕ)
    → IsPointer m R
    → is_node m n ≡ true
    → Returns (attach m R is_left n) λ m'.
      Moved m m'
        (update m.parent n R)
        λ s j. if (R == j) && same_side (side is_left) s then n else m.child s j
unfolding attach
attach-Moved m R is_left n (inl e) h = (
  with_parent n 0 m,
  rw (e, deref-ok m n (with_parent n 0 m) h) refl,
  record {
    allocated = refl;
    key = refl;
    val = refl;
    next = refl;
    prev = refl;
    balance = refl;
    parent = λ j k. ground arith;
    child = λ s j k. ground arith;
  },
)
attach-Moved m R is_left n (inr e) h = (
  with_parent n R (with_child (side is_left) R n m),
  rw
      (
        is_node-not_null m R e,
        deref-ok m R (with_child (side is_left) R n m) e,
        deref-ok (with_child (side is_left) R n m) n
            (with_parent n R (with_child (side is_left) R n m)) h,
      )
      refl,
  record {
    allocated = refl;
    key = refl;
    val = refl;
    next = refl;
    prev = refl;
    balance = refl;
    parent = λ j k. refl;
    child = λ s j k. refl;
  },
)

-- Which child of its parent the hole is; a root counts as a right child.
abbrev pub is_left_of : Ctx → Bool
is_left_of c = same_side left (side_of c)

pub side-is_left_of : (c : Ctx) → side (is_left_of c) ≡ side_of c
side-is_left_of top = refl
side-is_left_of (under left p y c) = refl
side-is_left_of (under right p y c) = refl

pub bt_is_left_child-ok :
    (m : Memory) (c : Ctx) (p : ℕ)
    → ReprAround m c p
    → 0 < p
    → cells_around p c ≡ 0
    → bt_is_left_child m (up c) p ≡ ok (is_left_of c)
unfolding bt_is_left_child
bt_is_left_child-ok m top p h some_node apart = refl
bt_is_left_child-ok m (under left q y c) p h some_node apart =
    let e : (p == 0) ≡ false = ground arith in
    rw (is_node-not_null m q h.0, e, deref-ok m q (m.child left q == p) h.0, h.2, ==_refl p) refl
bt_is_left_child-ok m (under right q y c) p h some_node apart =
    let e : (p == 0) ≡ false = ground arith in
    let ne : (root y == p) ≡ false = ground (arith, cells-root y p) in
    rw (is_node-not_null m q h.0, e, deref-ok m q (m.child left q == p) h.0, h.3, ne) refl

pub IsPointer-same :
    (m m' : Memory) (p : ℕ) → m'.allocated ≡ m.allocated → IsPointer m p → IsPointer m' p
IsPointer-same m m' p e h = ground (arith, e, h)

pub same_side_self : (s : Side) → same_side s s ≡ true
same_side_self left = refl
same_side_self right = refl

pub same_side-opposite :
    (s : Side) → (same_side (opposite s) s ≡ false) × (same_side s (opposite s) ≡ false)
same_side-opposite left = (refl, refl)
same_side-opposite right = (refl, refl)

-- `m'` has the tree `t` in the context, the balance factors given, and the data and threads of `m`.
pub record Rotated (m m' : Memory) (c : Ctx) (t : Tree) (balance' : ℕ → ℤ) : Type 0 where
  pub focus : Focus m' c t
  pub allocated : m'.allocated ≡ m.allocated
  pub key : m'.key ≡ m.key
  pub val : m'.val ≡ m.val
  pub next : m'.next ≡ m.next
  pub prev : m'.prev ≡ m.prev
  pub balance : (j : ℕ) → m'.balance j ≡ balance' j

pub one_here : (x : ℕ) → (if x == x then 1 else 0) + 0 ≡ 1
one_here x = rw (==_refl x) refl
