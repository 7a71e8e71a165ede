-- ===== src/BinaryTree/Shape/Balance.antt =====
-- The AVL property: the balance factors of a tree say which subtree of a node is higher, by one.
use cutil.Prelude.{
  ℕ, ◌+◌, ◌<◌, ◌≡◌, ◌⊎◌, inl, inr, refl, sym, ap, ◌∷◌, ◌++◌, append_assoc, max, arith, ℤ, pos,
}
use cutil.BinaryTree.{Side, left, right, opposite, Memory, with_balance}
use cutil.BinaryTree.Rotate.{tipped}
use cutil.BinaryTree.Shape.{
  Tree, leaf, node, root, inorder, height, cells, join, plug, Ctx, top, under, up, cells_around,
  Repr, ReprAround, Focus, joined, cells-join, root-join,
}

-- The factor `b` fits a node whose subtree on side `s` has height `x`, and the other one `y`.
abbrev pub Tilt : ℤ → Side → ℕ → ℕ → Type 0
Tilt b s x y =
    ((b ≡ pos 0) × (x ≡ y))
    ⊎ (((b ≡ tipped s) × (x ≡ y + 1)) ⊎ ((b ≡ tipped (opposite s)) × (y ≡ x + 1)))

abbrev pub Balanced : Memory → Tree → Type 0
Balanced m leaf = Unit
Balanced m (node l p r) =
    Tilt (m.balance p) left (height l) (height r) × Balanced m l × Balanced m r

-- The balance around a hole for a tree of height `h`.
abbrev pub BalancedAround : Memory → Ctx → ℕ → Type 0
BalancedAround m top h = Unit
BalancedAround m (under s p y c) h =
    Tilt (m.balance p) s h (height y) × Balanced m y × BalancedAround m c (max h (height y) + 1)

pub height-join :
    (s : Side) (x : Tree) (p : ℕ) (y : Tree) → height (join s x p y) ≡ max (height x) (height y) + 1
height-join left x p y = refl
height-join right x p y = omega arith

pub Balanced-split :
    (m : Memory) (s : Side) (x : Tree) (p : ℕ) (y : Tree)
    → Balanced m (join s x p y)
    → Tilt (m.balance p) s (height x) (height y) × Balanced m x × Balanced m y
Balanced-split m left x p y h = h
Balanced-split m right x p y (inl e, hy, hx) = (inl (e.0, sym e.1), hx, hy)
Balanced-split m right x p y (inr (inl e), hy, hx) = (inr (inr e), hx, hy)
Balanced-split m right x p y (inr (inr e), hy, hx) = (inr (inl e), hx, hy)

pub Balanced-join :
    (m : Memory) (s : Side) (x : Tree) (p : ℕ) (y : Tree)
    → Tilt (m.balance p) s (height x) (height y)
    → Balanced m x
    → Balanced m y
    → Balanced m (join s x p y)
Balanced-join m left x p y t hx hy = (t, hx, hy)
Balanced-join m right x p y (inl e) hx hy = (inl (e.0, sym e.1), hy, hx)
Balanced-join m right x p y (inr (inl e)) hx hy = (inr (inr e), hy, hx)
Balanced-join m right x p y (inr (inr e)) hx hy = (inr (inl e), hy, hx)

module _ (m m' : Memory) where
  pub Balanced-frame :
      (t : Tree)
      → Balanced m t
      → ((j : ℕ) → 0 < cells j t → m'.balance j ≡ m.balance j)
      → Balanced m' t
  Balanced-frame leaf h same = tt
  Balanced-frame (node l p r) h same = (
    rw (same p (ground arith)) h.0,
    Balanced-frame l h.1 (λ j k. same j (omega arith)),
    Balanced-frame r h.2 (λ j k. same j (omega arith)),
  )

  pub BalancedAround-frame :
      (c : Ctx) (h : ℕ)
      → BalancedAround m c h
      → ((j : ℕ) → 0 < cells_around j c → m'.balance j ≡ m.balance j)
      → BalancedAround m' c h
  BalancedAround-frame top h b same = tt
  BalancedAround-frame (under s p y c) h b same = (
    rw (same p (ground arith)) b.0,
    Balanced-frame y b.1 (λ j k. same j (omega arith)),
    BalancedAround-frame c (max h (height y) + 1) b.2 (λ j k. same j (omega arith)),
  )

-- A whole tree from a tree in its context.
pub Focus-under :
    (m : Memory) (s : Side) (p : ℕ) (y : Tree) (c : Ctx) (t : Tree)
    → Focus m (under s p y c) t
    → Focus m c (join s t p y)
Focus-under m s p y c t f = record {
  here = joined m (up c) s t p y (record {
    inside = f.around.0;
    parent = f.around.1;
    near = f.around.2;
    far = f.around.3;
    near_tree = f.here;
    far_tree = f.around.4;
  });
  around = rw (root-join s t p y) f.around.5;
  once = λ j. omega (arith, f.once j, cells-join s j t p y);
}

pub Focus-plug : (m : Memory) (c : Ctx) (t : Tree) → Focus m c t → Focus m top (plug c t)
Focus-plug m top t f = f
Focus-plug m (under s p y c) t f = Focus-plug m c (join s t p y) (Focus-under m s p y c t f)

pub Balanced-plug :
    (m : Memory) (c : Ctx) (t : Tree)
    → Balanced m t
    → BalancedAround m c (height t)
    → Balanced m (plug c t)
Balanced-plug m top t b a = b
Balanced-plug m (under s p y c) t b a =
    Balanced-plug m c (join s t p y) (Balanced-join m s t p y a.0 b a.1)
      (rw (height-join s t p y) a.2)

pub inorder-join :
    (s : Side) (x x' : Tree) (p : ℕ) (y : Tree)
    → inorder x ≡ inorder x'
    → inorder (join s x p y) ≡ inorder (join s x' p y)
inorder-join left x x' p y e = ap (λ xs. xs ++ p ∷ inorder y) e
inorder-join right x x' p y e = ap (λ xs. inorder y ++ p ∷ xs) e

pub inorder-plug :
    (c : Ctx) (t t' : Tree) → inorder t ≡ inorder t' → inorder (plug c t) ≡ inorder (plug c t')
inorder-plug top t t' e = e
inorder-plug (under s p y c) t t' e =
    inorder-plug c (join s t p y) (join s t' p y) (inorder-join s t t' p y e)

pub inorder-single :
    (s : Side) (a : Tree) (n : ℕ) (b : Tree) (p : ℕ) (d : Tree)
    → inorder (join s a n (join s b p d)) ≡ inorder (join s (join s a n b) p d)
inorder-single left a n b p d = sym (append_assoc (inorder a) (n ∷ inorder b) (p ∷ inorder d))
inorder-single right a n b p d = append_assoc (inorder d) (p ∷ inorder b) (n ∷ inorder a)

pub inorder-double :
    (s : Side) (b : Tree) (g : ℕ) (e : Tree) (n : ℕ) (a : Tree) (p : ℕ) (d : Tree)
    → inorder (join s (join (opposite s) b n a) g (join s e p d))
      ≡ inorder (join s (join (opposite s) (join s b g e) n a) p d)
inorder-double left b g e n a p d = simp append_assoc
inorder-double right b g e n a p d = simp append_assoc

-- A change of balance factors.
pub Focus-balance :
    (m : Memory) (q : ℕ) (x : ℤ) (c : Ctx) (t : Tree) → Focus m c t → Focus (with_balance q x m) c t
Focus-balance m q x c t f = record {
  here = repr (up c) t f.here;
  around = around c (root t) f.around;
  once = f.once;
}
  where
    repr : (par : ℕ) (t : Tree) → Repr m par t → Repr (with_balance q x m) par t
    repr par leaf h = tt
    repr par (node l p r) h = (h.0, h.1, h.2, h.3, repr p l h.4, repr p r h.5)

    around : (c : Ctx) (a : ℕ) → ReprAround m c a → ReprAround (with_balance q x m) c a
    around top a h = tt
    around (under s p y c) a h = (h.0, h.1, h.2, h.3, repr p y h.4, around c p h.5)
