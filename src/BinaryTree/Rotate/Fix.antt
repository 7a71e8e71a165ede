-- ===== src/BinaryTree/Rotate/Fix.antt =====
-- A rotation repairs the balance, and keeps the order of the nodes.
use cutil.Prelude.{
  ℕ, ◌+◌, ◌<◌, ◌≡◌, inl, inr, refl, sym, ◌∙◌, if◌then◌else◌, ◌==◌, ==_refl, max, arith, Returns, ℤ,
  pos,
}
use cutil.BinaryTree.{Side, left, right, opposite, Memory}
use cutil.BinaryTree.Rotate.{
  rotate_single, rotate_double, tipped, overweight, inner_balance, outer_balance,
}
use cutil.BinaryTree.Rotate.Single
use cutil.BinaryTree.Rotate.Double
use cutil.BinaryTree.Rotate.Single.{rotate_single-Rotated}
use cutil.BinaryTree.Rotate.Double.{rotate_double-Rotated}
use cutil.BinaryTree.Shape.{
  Tree, root, inorder, height, cells, join, Ctx, Focus, root-join, other_node,
}
use cutil.BinaryTree.Shape.Balance.{
  Tilt, Balanced, BalancedAround, height-join, Balanced-join, Balanced-frame, BalancedAround-frame,
  inorder-single, inorder-double,
}

-- `m'` has the tree `t'` of height `h`, which is balanced, in place of `t`.
pub record Fixed (m m' : Memory) (c : Ctx) (t t' : Tree) (h : ℕ) : Type 0 where
  pub focus : Focus m' c t'
  pub balanced : Balanced m' t'
  pub around : BalancedAround m' c h
  pub high : height t' ≡ h
  pub order : inorder t' ≡ inorder t
  pub allocated : m'.allocated ≡ m.allocated
  pub key : m'.key ≡ m.key
  pub val : m'.val ≡ m.val
  pub next : m'.next ≡ m.next
  pub prev : m'.prev ≡ m.prev

module _ (s : Side) (m : Memory) (c : Ctx) (a : Tree) (n : ℕ) (b : Tree) (p : ℕ) (d : Tree)
    (f : Focus m c (join s (join s a n b) p d)) (h : ℕ) where
  pub fix_single :
      m.balance p ≡ overweight s
      → m.balance n ≡ tipped s
      → Balanced m a
      → Balanced m b
      → Balanced m d
      → BalancedAround m c (h + 2)
      → height a ≡ h + 1
      → height b ≡ h
      → height d ≡ h
      → Returns
          (rotate_single s m p)
          λ r. (t' : Tree) × (r.0 ≡ root t') × Fixed m r.1 c (join s (join s a n b) p d) t' (h + 2)
  fix_single heavy tip ba bb bd bc ha hb hd =
      let (r, run, (e, w)) = rotate_single-Rotated s m c a n b p d f heavy tip in
      let apart = Single.apart s m c a n b p d f in
      let same : (j : ℕ)
          → (if n == j then 1 else 0) < 1
          → (if p == j then 1 else 0) < 1
          → r.1.balance j ≡ m.balance j =
        λ j k₁ k₂. w.balance j ∙ rw (other_node p j k₂, other_node n j k₁) refl in
      let at_p : r.1.balance p ≡ pos 0 = w.balance p ∙ rw (==_refl p) refl in
      let at_n : r.1.balance n ≡ pos 0 =
        w.balance n ∙ rw (Single.p_ne_n s m c a n b p d f, ==_refl n) refl in
      let low = height-join s b p d in
      (
        r,
        run,
        (
          join s a n (join s b p d),
          e ∙ sym (root-join s a n (join s b p d)),
          record {
            focus = w.focus;
            balanced =
                Balanced-join r.1 s a n (join s b p d) (inl (at_n, omega arith))
                  (Balanced-frame m r.1 a ba
                    (λ j k. same j (omega (arith, apart j)) (omega (arith, apart j))))
                  (Balanced-join r.1 s b p d (inl (at_p, omega arith))
                    (Balanced-frame m r.1 b bb
                      (λ j k. same j (omega (arith, apart j)) (omega (arith, apart j))))
                    (Balanced-frame m r.1 d bd
                      (λ j k. same j (omega (arith, apart j)) (omega (arith, apart j)))));
            around =
                BalancedAround-frame m r.1 c (h + 2) bc
                  (λ j k. same j (omega (arith, apart j)) (omega (arith, apart j)));
            high = omega (arith, height-join s a n (join s b p d));
            order = inorder-single s a n b p d;
            allocated = w.allocated;
            key = w.key;
            val = w.val;
            next = w.next;
            prev = w.prev;
          },
        ),
      )

-- The factors after a double rotation fit.
double_tilts :
    (s : Side) (g : ℤ) (x y h : ℕ)
    → Tilt g s x y
    → max x y ≡ h
    → Tilt (inner_balance s g) (opposite s) x h × Tilt (outer_balance s g) s y h
unfolding inner_balance outer_balance
double_tilts left g x y h (inl t) high =
    (inl (rw t.0 refl, omega (arith, t.1)), inl (rw t.0 refl, omega (arith, t.1)))
double_tilts right g x y h (inl t) high =
    (inl (rw t.0 refl, omega (arith, t.1)), inl (rw t.0 refl, omega (arith, t.1)))
double_tilts left g x y h (inr (inl t)) high =
    (inl (rw t.0 refl, omega (arith, t.1)), inr (inr (rw t.0 refl, omega (arith, t.1))))
double_tilts right g x y h (inr (inl t)) high =
    (inl (rw t.0 refl, omega (arith, t.1)), inr (inr (rw t.0 refl, omega (arith, t.1))))
double_tilts left g x y h (inr (inr t)) high =
    (inr (inr (rw t.0 refl, omega (arith, t.1))), inl (rw t.0 refl, omega (arith, t.1)))
double_tilts right g x y h (inr (inr t)) high =
    (inr (inr (rw t.0 refl, omega (arith, t.1))), inl (rw t.0 refl, omega (arith, t.1)))

module _ (s : Side) (m : Memory) (c : Ctx) (b : Tree) (g : ℕ) (e : Tree) (n : ℕ) (a : Tree) (p : ℕ)
    (d : Tree) (f : Focus m c (join s (join (opposite s) (join s b g e) n a) p d)) (h : ℕ) where
  pub fix_double :
      m.balance p ≡ overweight s
      → m.balance n ≡ tipped (opposite s)
      → Tilt (m.balance g) s (height b) (height e)
      → Balanced m b
      → Balanced m e
      → Balanced m a
      → Balanced m d
      → BalancedAround m c (h + 2)
      → max (height b) (height e) ≡ h
      → height a ≡ h
      → height d ≡ h
      → Returns (rotate_double s m p) λ r.
        (t' : Tree) × (r.0 ≡ root t')
        × Fixed m r.1 c (join s (join (opposite s) (join s b g e) n a) p d) t' (h + 2)
  fix_double heavy tip tg bb be ba bd bc hg ha hd =
      let (r, run, (eq, w)) = rotate_double-Rotated s m c b g e n a p d f heavy tip in
      let apart = Double.apart s m c b g e n a p d f in
      let o = opposite s in
      let same : (j : ℕ)
          → (if g == j then 1 else 0) + (if n == j then 1 else 0) + (if p == j then 1 else 0) < 1
          → r.1.balance j ≡ m.balance j =
        λ j k.
          w.balance j
          ∙ rw
              (
                other_node g j (omega arith),
                other_node p j (omega arith),
                other_node n j (omega arith),
              )
              refl in
      let kept : (t : Tree)
          → Balanced m t
          → ((j : ℕ)
              → 0 < cells j t
              → (if g == j then 1 else 0) + (if n == j then 1 else 0) + (if p == j then 1 else 0)
                < 1)
          → Balanced r.1 t =
        λ t bt k. Balanced-frame m r.1 t bt (λ j i. same j (k j i)) in
      let at_g : r.1.balance g ≡ pos 0 = w.balance g ∙ rw (==_refl g) refl in
      let at_p : r.1.balance p ≡ outer_balance s (m.balance g) =
        w.balance p ∙ rw (Double.g_ne_p s m c b g e n a p d f, ==_refl p) refl in
      let at_n : r.1.balance n ≡ inner_balance s (m.balance g) =
        w.balance n
        ∙ rw (Double.g_ne_n s m c b g e n a p d f, Double.p_ne_n s m c b g e n a p d f, ==_refl n)
            refl in
      let (inner, outer) = double_tilts s (m.balance g) (height b) (height e) h tg hg in
      let hi = height-join o b n a in
      let ho = height-join s e p d in
      (
        r,
        run,
        (
          join s (join o b n a) g (join s e p d),
          eq ∙ sym (root-join s (join o b n a) g (join s e p d)),
          record {
            focus = w.focus;
            balanced =
                Balanced-join r.1 s (join o b n a) g (join s e p d) (inl (at_g, omega arith))
                  (Balanced-join r.1 o b n a (rw (at_n, ha) inner)
                    (kept b bb (λ j k. omega (arith, apart j)))
                    (kept a ba (λ j k. omega (arith, apart j))))
                  (Balanced-join r.1 s e p d (rw (at_p, hd) outer)
                    (kept e be (λ j k. omega (arith, apart j)))
                    (kept d bd (λ j k. omega (arith, apart j))));
            around =
                BalancedAround-frame m r.1 c (h + 2) bc (λ j k. same j (omega (arith, apart j)));
            high = omega (arith, height-join s (join o b n a) g (join s e p d));
            order = inorder-double s b g e n a p d;
            allocated = w.allocated;
            key = w.key;
            val = w.val;
            next = w.next;
            prev = w.prev;
          },
        ),
      )
