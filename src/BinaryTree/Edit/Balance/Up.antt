-- ===== src/BinaryTree/Edit/Balance/Up.antt =====
-- `bt_balance_tree` makes an AVL tree of one in which a subtree has grown by one level.
use cutil.Prelude.{
  ℕ, zero, suc, subst, ◌+◌, ◌<◌, ◌≡◌, inl, inr, refl, sym, ap, ◌∙◌, if◌then◌else◌, ◌==◌, ==_refl,
  max, arith, Returns, ℤ, pos,
}
use cutil.BinaryTree.{Side, Memory, BtT, with_balance}
use cutil.BinaryTree.Rotate.{tipped}
use cutil.BinaryTree.Shape.{
  Tree, root, inorder, height, join, plug, Ctx, top, under, up, Focus, root-join, other_node,
}
use cutil.BinaryTree.Shape.Balance.{
  Tilt, Balanced, BalancedAround, height-join, Balanced-join, Balanced-frame, BalancedAround-frame,
  Focus-under, Focus-plug, Balanced-plug, Focus-balance,
}
use cutil.BinaryTree.Edit.{balance_up}
use cutil.BinaryTree.Edit.Balance.{Grown, Settled, depth}
use cutil.BinaryTree.Edit.Balance.Step.{rebalance-Settled, step_even, step_lighter, step_heavier}

-- The tree around `p`, once `p` has a new factor and the subtree has grown.
module _ (btree : BtT) (s : Side) (c : Ctx) (p : ℕ) (y : Tree) (h : ℕ) (t : Tree)
    (g : Grown btree.memory (under s p y c) t h) (b : ℤ) where
  abbrev m₁ : Memory
  m₁ = with_balance p b btree.memory

  same₁ : (j : ℕ) → (if p == j then 1 else 0) < 1 → m₁.balance j ≡ btree.memory.balance j
  same₁ j k = rw (other_node p j k) refl

  focus₁ : Focus m₁ c (join s t p y)
  focus₁ =
      Focus-balance btree.memory p b c (join s t p y) (Focus-under btree.memory s p y c t g.focus)

  balanced₁ : Tilt b s (height t) (height y) → Balanced m₁ (join s t p y)
  balanced₁ tilt =
      Balanced-join m₁ s t p y (rw (==_refl p) tilt)
        (Balanced-frame btree.memory m₁ t g.balanced
          (λ j k. same₁ j (omega (arith, g.focus.once j))))
        (Balanced-frame btree.memory m₁ y g.around.1
          (λ j k. same₁ j (omega (arith, g.focus.once j))))

  around₁ : BalancedAround m₁ c (max h (height y) + 1)
  around₁ =
      BalancedAround-frame btree.memory m₁ c (max h (height y) + 1) g.around.2
        (λ j k. same₁ j (omega (arith, g.focus.once j)))

-- Where a subtree of an AVL tree has grown by one level, and its root is tipped to a side or is
-- the new node, the loop of bt_balance_tree ends within as many rounds as the subtree is deep and
-- one more, and fails no ASSERT; it leaves an AVL tree of the same nodes in the same order, the
-- root pointer included, with the same keys, values and threads.
pub balance_up-Settled :
    (fuel : ℕ) (btree : BtT) (c : Ctx) (t : Tree) (h : ℕ)
    → Grown btree.memory c t h
    → btree.tree ≡ root (plug c t)
    → depth c < fuel
    → Returns
        (balance_up fuel btree (root t) (up c))
        λ btree'. (T : Tree) × Settled btree btree' T (inorder (plug c t))
unfolding balance_up
balance_up-Settled zero btree c t h g at_top deep = absurd (omega arith)
balance_up-Settled (suc fuel) btree top t h g at_top deep = (
  btree,
  refl,
  (
    t,
    record {
      focus = g.focus;
      balanced = g.balanced;
      tree = at_top;
      order_kept = refl;
      key = refl;
      val = refl;
      next = refl;
      prev = refl;
      allocated = refl;
      size = refl;
      free_list = refl;
      list_size = refl;
      kcfn = refl;
    },
  ),
)
balance_up-Settled (suc fuel) btree (under s p y c) t h g at_top deep = elim g.around.0 [
  | inl (e, eq) ↦
      let btree₁ = record btree { memory = with_balance p (tipped s) btree.memory } in
      let g₁ : Grown btree₁.memory c (join s t p y) (h + 1) = record {
        focus = focus₁ btree s c p y h t g (tipped s);
        balanced =
            balanced₁ btree s c p y h t g (tipped s) (inr (inl (refl, omega (arith, g.high))));
        around =
            subst (λ k. BalancedAround btree₁.memory c k) (omega (arith, eq))
              (around₁ btree s c p y h t g (tipped s));
        high = omega (arith, height-join s t p y, g.high, eq);
        uneven = inr (s, rw (root-join s t p y, ==_refl p) refl);
      } in
      let (btree', run, (T, w)) =
        balance_up-Settled fuel btree₁ c (join s t p y) (h + 1) g₁ at_top (omega arith) in
      (
        btree',
        step_even btree s c p y h t g fuel e
            ∙ ap (λ n. balance_up fuel btree₁ n (up c)) (sym (root-join s t p y))
            ∙ run,
        (
          T,
          record {
            focus = w.focus;
            balanced = w.balanced;
            tree = w.tree;
            order_kept = w.order_kept;
            key = w.key;
            val = w.val;
            next = w.next;
            prev = w.prev;
            allocated = w.allocated;
            size = w.size;
            free_list = w.free_list;
            list_size = w.list_size;
            kcfn = w.kcfn;
          },
        ),
      )
  | inr (inr (e, eq)) ↦ (
    record btree { memory = with_balance p (pos 0) btree.memory },
    step_lighter btree s c p y h t g fuel e,
    (
      plug c (join s t p y),
      record {
        focus =
            Focus-plug (with_balance p (pos 0) btree.memory) c (join s t p y)
              (focus₁ btree s c p y h t g (pos 0));
        balanced =
            Balanced-plug (with_balance p (pos 0) btree.memory) c (join s t p y)
              (balanced₁ btree s c p y h t g (pos 0) (inl (refl, omega (arith, g.high, eq))))
              (subst (λ k. BalancedAround (with_balance p (pos 0) btree.memory) c k)
                (omega (arith, height-join s t p y, g.high, eq))
                (around₁ btree s c p y h t g (pos 0)));
        tree = at_top;
        order_kept = refl;
        key = refl;
        val = refl;
        next = refl;
        prev = refl;
        allocated = refl;
        size = refl;
        free_list = refl;
        list_size = refl;
        kcfn = refl;
      },
    ),
  )
  | inr (inl (e, eq)) ↦
      let (btree', run, w) =
        rebalance-Settled btree s c p y (height y) t refl
          (subst (λ k. Grown btree.memory (under s p y c) t k) eq g) at_top in
      (btree', step_heavier btree s c p y h t g fuel e ∙ run, w)
]
