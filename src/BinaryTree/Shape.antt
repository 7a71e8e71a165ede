-- ===== src/BinaryTree/Shape.antt =====
-- What the links of the nodes mean: a tree of addresses, in a context.
pub mod Frame
pub mod Balance
use cutil.Prelude.{
  ℕ, ◌+◌, ◌≤◌, ◌<◌, ◌≡◌, refl, sym, ap, ◌∙◌, Bool, true, false, List, [], ◌∷◌, ◌++◌, append_assoc,
  if◌then◌else◌, ◌==◌, ltb, leb, max, arith,
}
use cutil.BinaryTree.{Side, left, right, opposite, Memory, is_node}

pub data Tree : Type 0 where
  leaf : Tree
  node : Tree → ℕ → Tree → Tree

abbrev pub root : Tree → ℕ
root leaf = 0
root (node l p r) = p

abbrev pub inorder : Tree → List ℕ
inorder leaf = []
inorder (node l p r) = inorder l ++ p ∷ inorder r

abbrev pub height : Tree → ℕ
height leaf = 0
height (node l p r) = max (height l) (height r) + 1

-- How often an address occurs.
abbrev pub cells : ℕ → Tree → ℕ
cells j leaf = 0
cells j (node l p r) = cells j l + (if p == j then 1 else 0) + cells j r

-- The node `p` with `x` on side `s`.
abbrev pub join : Side → Tree → ℕ → Tree → Tree
join left x p y = node x p y
join right x p y = node y p x

-- The links below `par`, which is the parent of the root.
abbrev pub Repr : Memory → ℕ → Tree → Type 0
Repr m par leaf = Unit
Repr m par (node l p r) =
    (is_node m p ≡ true)
    × (m.parent p ≡ par)
    × (m.child left p ≡ root l)
    × (m.child right p ≡ root r)
    × Repr m p l
    × Repr m p r

-- A tree with a hole: the hole is the child on side `s` of `p`, whose other child is `y`.
pub data Ctx : Type 0 where
  top : Ctx
  under : Side → ℕ → Tree → Ctx → Ctx

-- The parent of the hole.
abbrev pub up : Ctx → ℕ
up top = 0
up (under s p y c) = p

abbrev pub side_of : Ctx → Side
side_of top = right
side_of (under s p y c) = s

abbrev pub plug : Ctx → Tree → Tree
plug top t = t
plug (under s p y c) t = plug c (join s t p y)

abbrev pub cells_around : ℕ → Ctx → ℕ
cells_around j top = 0
cells_around j (under s p y c) = (if p == j then 1 else 0) + cells j y + cells_around j c

-- The links around a hole in which the node `a` stands.
abbrev pub ReprAround : Memory → Ctx → ℕ → Type 0
ReprAround m top a = Unit
ReprAround m (under s p y c) a =
    (is_node m p ≡ true)
    × (m.parent p ≡ up c)
    × (m.child s p ≡ a)
    × (m.child (opposite s) p ≡ root y)
    × Repr m p y
    × ReprAround m c p

-- The tree `t` in its context.
pub record Focus (m : Memory) (c : Ctx) (t : Tree) : Type 0 where
  pub here : Repr m (up c) t
  pub around : ReprAround m c (root t)
  pub once : (j : ℕ) → cells j t + cells_around j c ≤ 1

pub cells-join :
    (s : Side) (j : ℕ) (x : Tree) (p : ℕ) (y : Tree)
    → cells j (join s x p y) ≡ cells j x + (if p == j then 1 else 0) + cells j y
cells-join left j x p y = refl
cells-join right j x p y = omega arith

-- The links of a node and its subtrees.
pub record Joined (m : Memory) (par : ℕ) (s : Side) (x : Tree) (p : ℕ) (y : Tree) : Type 0 where
  pub inside : is_node m p ≡ true
  pub parent : m.parent p ≡ par
  pub near : m.child s p ≡ root x
  pub far : m.child (opposite s) p ≡ root y
  pub near_tree : Repr m p x
  pub far_tree : Repr m p y

pub split :
    (m : Memory) (par : ℕ) (s : Side) (x : Tree) (p : ℕ) (y : Tree)
    → Repr m par (join s x p y)
    → Joined m par s x p y
split m par left x p y h = record {
  inside = h.0;
  parent = h.1;
  near = h.2;
  far = h.3;
  near_tree = h.4;
  far_tree = h.5;
}
split m par right x p y h = record {
  inside = h.0;
  parent = h.1;
  near = h.3;
  far = h.2;
  near_tree = h.5;
  far_tree = h.4;
}

pub joined :
    (m : Memory) (par : ℕ) (s : Side) (x : Tree) (p : ℕ) (y : Tree)
    → Joined m par s x p y
    → Repr m par (join s x p y)
joined m par left x p y h = (h.inside, h.parent, h.near, h.far, h.near_tree, h.far_tree)
joined m par right x p y h = (h.inside, h.parent, h.far, h.near, h.far_tree, h.near_tree)

pub root-join : (s : Side) (x : Tree) (p : ℕ) (y : Tree) → root (join s x p y) ≡ p
root-join left x p y = refl
root-join right x p y = refl

pub cells-root : (t : Tree) (j : ℕ) → 0 < j → root t ≡ j → 0 < cells j t
cells-root leaf j h e = absurd (omega arith)
cells-root (node l p r) j h e = ground arith

pub cells_around-up : (c : Ctx) (j : ℕ) → 0 < j → up c ≡ j → 0 < cells_around j c
cells_around-up top j h e = absurd (omega arith)
cells_around-up (under s p y c) j h e = ground arith

pub Repr-positive : (m : Memory) (par : ℕ) (t : Tree) (j : ℕ) → Repr m par t → 0 < cells j t → 0 < j
Repr-positive m par leaf j h k = absurd (omega arith)
Repr-positive m par (node l p r) j h k =
    ground (arith, Repr-positive m p l j h.4, Repr-positive m p r j h.5, h.0)

-- The parent of the root.
pub Repr-parent :
    (m : Memory) (par : ℕ) (t : Tree) (j : ℕ)
    → Repr m par t
    → 0 < cells j t
    → root t ≡ j
    → m.parent j ≡ par
Repr-parent m par leaf j h k e = absurd (omega arith)
Repr-parent m par (node l p r) j h k e = ap m.parent (sym e) ∙ h.1

pub parent-root :
    (m : Memory) (par : ℕ) (t : Tree) (j : ℕ)
    → Repr m par t
    → 0 < cells j t
    → m.parent j ≡ (if root t == j then par else m.parent j)
parent-root m par t j h k = ground (arith, Repr-parent m par t j h k)

-- Addresses that occur elsewhere are others.
pub other_node : (x j : ℕ) → (if x == j then 1 else 0) < 1 → (x == j) ≡ false
other_node x j h = ground arith

pub other_root : (t : Tree) (j : ℕ) → 0 < j → cells j t ≡ 0 → (root t == j) ≡ false
other_root t j h k = ground (arith, cells-root t j h)

pub other_up : (c : Ctx) (j : ℕ) → 0 < j → cells_around j c ≡ 0 → (up c == j) ≡ false
other_up c j h k = ground (arith, cells_around-up c j h)

pub ReprAround-positive :
    (m : Memory) (c : Ctx) (a j : ℕ) → ReprAround m c a → 0 < cells_around j c → 0 < j
ReprAround-positive m top a j h k = absurd (omega arith)
ReprAround-positive m (under s p y c) a j h k =
    ground (arith, Repr-positive m p y j h.4, ReprAround-positive m c p j h.5, h.0)
