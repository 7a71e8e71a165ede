-- ===== src/BinaryTree/Edit/Balance/Rotation.antt =====
-- `bt_balance_tree`: the rotation for a node whose higher subtree has grown.
use cutil.Prelude.{
  ℕ, subst, ◌+◌, ◌<◌, ◌≡◌, ◌⊎◌, inl, inr, refl, sym, ap, ◌∙◌, false, if◌then◌else◌, ◌==◌, ==_refl,
  arith, ok, Returns, ℤ,
}
use cutil.BinaryTree.{Side, left, right, opposite, Memory, BtT, with_balance}
use cutil.BinaryTree.Rotate.{rotate_single, rotate_double, tipped, overweight}
use cutil.BinaryTree.Rotate.Steps.{one_here}
use cutil.BinaryTree.Rotate.Fix.{Fixed, fix_single, fix_double}
use cutil.BinaryTree.Shape.{
  Tree, leaf, node, root, height, cells-join, join, Ctx, under, Focus, root-join, other_node,
}
use cutil.BinaryTree.Shape.Balance.{
  Tilt, Balanced, BalancedAround, height-join, Balanced-split, Balanced-frame, BalancedAround-frame,
  Focus-under, Focus-balance,
}
use cutil.BinaryTree.Edit.{rotate, rebalance}
use cutil.BinaryTree.Edit.Balance.{Grown}

rotate-same :
    (s : Side) (m : Memory) (p : ℕ) → rotate m p (overweight s) (tipped s) ≡ rotate_single s m p
unfolding rotate
rotate-same left m p = refl
rotate-same right m p = refl

rotate-opposite :
    (s : Side) (m : Memory) (p : ℕ)
    → rotate m p (overweight s) (tipped (opposite s)) ≡ rotate_double s m p
unfolding rotate
rotate-opposite left m p = refl
rotate-opposite right m p = refl

pub side-cases : (s s' : Side) → (s' ≡ s) ⊎ (s' ≡ opposite s)
side-cases left left = inl refl
side-cases left right = inr refl
side-cases right left = inr refl
side-cases right right = inl refl

pub as_join :
    (s : Side) (t : Tree) → 0 < height t → (a : Tree) × (n : ℕ) × (b : Tree) × (t ≡ join s a n b)
as_join s leaf h = absurd (omega arith)
as_join left (node l p r) h = (l, p, r, refl)
as_join right (node l p r) h = (r, p, l, refl)

Tilt-tipped : (b : ℤ) (s : Side) (x y : ℕ) → b ≡ tipped s → Tilt b s x y → x ≡ y + 1
Tilt-tipped b left x y e (inl t) = absurd (ground arith)
Tilt-tipped b right x y e (inl t) = absurd (ground arith)
Tilt-tipped b s x y e (inr (inl t)) = t.1
Tilt-tipped b left x y e (inr (inr t)) = absurd (ground arith)
Tilt-tipped b right x y e (inr (inr t)) = absurd (ground arith)

pub rebalance-steps :
    (btree : BtT) (n p : ℕ) (s s' : Side) (r : ℕ × Memory)
    → (p == n) ≡ false
    → btree.memory.balance n ≡ tipped s'
    → rotate (with_balance p (overweight s) btree.memory) p (overweight s) (tipped s') ≡ ok r
    → rebalance btree n p (overweight s)
      ≡ ok (record btree {
        memory = r.1;
        tree = if btree.memory.parent p == 0 then r.0 else btree.tree;
      })
unfolding rebalance
rebalance-steps btree n p left left r ne e run = rw (ne, e, run) refl
rebalance-steps btree n p left right r ne e run = rw (ne, e, run) refl
rebalance-steps btree n p right left r ne e run = rw (ne, e, run) refl
rebalance-steps btree n p right right r ne e run = rw (ne, e, run) refl

-- The higher subtree `t` of `p` has grown to height `k` + 2, the other one has height `k`.
module _ (s : Side) (m₀ : Memory) (c : Ctx) (p : ℕ) (y : Tree) (k : ℕ) (low : height y ≡ k) where
  abbrev m : Memory
  m = with_balance p (overweight s) m₀

  at_p : m.balance p ≡ overweight s
  at_p = rw (==_refl p) refl

  unfoldable pub Rotates : Tree → ℤ → Type 0
  Rotates t bn =
      Returns (rotate m p (overweight s) bn)
        λ r. (t' : Tree) × (r.0 ≡ root t') × Fixed m r.1 c (join s t p y) t' (k + 2)

  module _ (t : Tree) (g : Grown m₀ (under s p y c) t (k + 1)) where
    -- The new factor of `p` matters to no other node.
    same : (j : ℕ) → (if p == j then 1 else 0) < 1 → m.balance j ≡ m₀.balance j
    same j h = rw (other_node p j h) refl

    focus : Focus m c (join s t p y)
    focus = Focus-balance m₀ p (overweight s) c (join s t p y) (Focus-under m₀ s p y c t g.focus)

    subtree : Balanced m t
    subtree = Balanced-frame m₀ m t g.balanced (λ j h. same j (omega (arith, g.focus.once j)))

    sibling : Balanced m y
    sibling = Balanced-frame m₀ m y g.around.1 (λ j h. same j (omega (arith, g.focus.once j)))

    context : BalancedAround m c (k + 2)
    context =
        BalancedAround-frame m₀ m c (k + 2)
          (subst (λ h. BalancedAround m₀ c h) (omega (arith, low)) g.around.2)
          (λ j h. same j (omega (arith, g.focus.once j)))

  single_case :
      (a : Tree) (n : ℕ) (b : Tree)
      → Grown m₀ (under s p y c) (join s a n b) (k + 1)
      → m.balance n ≡ tipped s
      → Rotates (join s a n b) (tipped s)
  unfolding Rotates
  single_case a n b g tip =
      let (tilt, ba, bb) = Balanced-split m s a n b (subtree (join s a n b) g) in
      let ha = Tilt-tipped (m.balance n) s (height a) (height b) tip tilt in
      let h = height-join s a n b in
      let hb : height b ≡ k = omega (arith, g.high) in
      let run =
        fix_single s m c a n b p y (focus (join s a n b) g) k at_p tip ba bb
          (sibling (join s a n b) g) (context (join s a n b) g) (omega arith) hb low in
      rw (rotate-same s m p) run

  double_at :
      (b : Tree) (g : ℕ) (e : Tree) (n : ℕ) (a : Tree)
      → Grown m₀ (under s p y c) (join (opposite s) (join s b g e) n a) (k + 1)
      → m.balance n ≡ tipped (opposite s)
      → Rotates (join (opposite s) (join s b g e) n a) (tipped (opposite s))
  unfolding Rotates
  double_at b g e n a gr tip =
      let t = join (opposite s) (join s b g e) n a in
      let (tilt, bx, ba) = Balanced-split m (opposite s) (join s b g e) n a (subtree t gr) in
      let (inner, bb, be) = Balanced-split m s b g e bx in
      let hx = Tilt-tipped (m.balance n) (opposite s) (height (join s b g e)) (height a) tip tilt in
      let h = height-join (opposite s) (join s b g e) n a in
      let hg = height-join s b g e in
      let run =
        fix_double s m c b g e n a p y (focus t gr) k at_p tip inner bb be ba (sibling t gr)
          (context t gr) (omega (arith, gr.high)) (omega (arith, gr.high)) low in
      rw (rotate-opposite s m p) run

  double_case :
      (x : Tree) (n : ℕ) (a : Tree)
      → Grown m₀ (under s p y c) (join (opposite s) x n a) (k + 1)
      → m.balance n ≡ tipped (opposite s)
      → Rotates (join (opposite s) x n a) (tipped (opposite s))
  double_case x n a gr tip =
      let (tilt, bx, ba) =
        Balanced-split m (opposite s) x n a (subtree (join (opposite s) x n a) gr) in
      let hx = Tilt-tipped (m.balance n) (opposite s) (height x) (height a) tip tilt in
      let h = height-join (opposite s) x n a in
      let (b, g, e, whole) = as_join s x (omega (arith, gr.high)) in
      subst
        (λ x.
          Grown m₀ (under s p y c) (join (opposite s) x n a) (k + 1)
          → Rotates (join (opposite s) x n a) (tipped (opposite s)))
        (sym whole) (λ gr. double_at b g e n a gr tip) gr

  -- The factor of the root of `t`, which the change of `p` leaves alone.
  at_root :
      (s' : Side) (a : Tree) (n : ℕ) (b : Tree)
      → Grown m₀ (under s p y c) (join s' a n b) (k + 1)
      → m₀.balance (root (join s' a n b)) ≡ tipped s'
      → ((p == n) ≡ false) × (m₀.balance n ≡ tipped s') × (m.balance n ≡ tipped s')
  at_root s' a n b g e =
      let apart : (p == n) ≡ false =
        other_node p n (omega (arith, g.focus.once n, cells-join s' n a n b, one_here n)) in
      let e' = ap m₀.balance (sym (root-join s' a n b)) ∙ e in (apart, e', rw apart e')

  Rotates-split :
      (s' : Side)
      → (s' ≡ s) ⊎ (s' ≡ opposite s)
      → (a : Tree) (n : ℕ) (b : Tree) → Grown m₀ (under s p y c) (join s' a n b) (k + 1)
      → m.balance n ≡ tipped s'
      → Rotates (join s' a n b) (tipped s')
  Rotates-split s' (inl f) a n b =
      subst
        (λ s'.
          Grown m₀ (under s p y c) (join s' a n b) (k + 1)
          → m.balance n ≡ tipped s'
          → Rotates (join s' a n b) (tipped s'))
        (sym f) (single_case a n b)
  Rotates-split s' (inr f) a n b =
      subst
        (λ s'.
          Grown m₀ (under s p y c) (join s' a n b) (k + 1)
          → m.balance n ≡ tipped s'
          → Rotates (join s' a n b) (tipped s'))
        (sym f) (double_case a n b)

  -- Whichever way the subtree leans, there is a rotation for it.
  pub rotation :
      (t : Tree)
      → Grown m₀ (under s p y c) t (k + 1)
      → (s' : Side) × ((p == root t) ≡ false)
        × (m₀.balance (root t) ≡ tipped s')
        × Rotates t (tipped s')
  rotation t g = elim g.uneven [
    | inl e ↦ absurd (omega arith)
    | inr (s', e) ↦
        let (a, n, b, whole) = as_join s' t (omega (arith, g.high)) in
        let g' = subst (λ t. Grown m₀ (under s p y c) t (k + 1)) whole g in
        let (apart, tip₀, tip) =
          at_root s' a n b g' (ap (λ t. m₀.balance (root t)) (sym whole) ∙ e) in
        (
          s',
          rw (whole, root-join s' a n b) apart,
          e,
          subst (λ t. Rotates t (tipped s')) (sym whole)
              (Rotates-split s' (side-cases s s') a n b g' tip),
        )
  ]
