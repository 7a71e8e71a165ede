-- ===== src/BinaryTree/Edit/Balance/Step.antt =====
-- `bt_balance_tree`: a round of the loop.
use cutil.Prelude.{
  ℕ, suc, subst, ◌+◌, ◌<◌, ◌≡◌, refl, sym, ◌∙◌, Bool, true, false, not, ◌&&◌, ◌||◌, if◌then◌else◌,
  ◌==◌, arith, ok, Returns, ℤ, pos, negsuc, ◌==ℤ◌,
}
use cutil.BinaryTree.{
  Side, left, right, opposite, same_side, Memory, BtT, with_balance, is_negative, is_positive,
}
use cutil.BinaryTree.Rotate.{tipped, overweight, bt_is_left_child}
use cutil.BinaryTree.Rotate.Steps.{deref-ok, is_node-not_null, bt_is_left_child-ok}
use cutil.BinaryTree.Shape.{
  Tree, root, inorder, height, join, plug, Ctx, top, under, up, ReprAround, Focus, cells-root,
}
use cutil.BinaryTree.Shape.Balance.{Focus-plug, Balanced-plug, inorder-plug}
use cutil.BinaryTree.Edit.{rebalance, balance_up, lower, raise}
use cutil.BinaryTree.Edit.Balance.{Grown, Settled, root-plug}
use cutil.BinaryTree.Edit.Balance.Rotation.{Rotates, Rotates, rebalance-steps, rotation, as_join}

-- The root after a rotation below.
new_top :
    (m : Memory) (c : Ctx) (p : ℕ) (t' t : Tree) (n tree : ℕ)
    → m.parent p ≡ up c
    → ReprAround m c p
    → n ≡ root t'
    → tree ≡ root (plug c t)
    → (if m.parent p == 0 then n else tree) ≡ root (plug c t')
new_top m top p t' t n tree e h n' at_top = rw e n'
new_top m (under s q y c) p t' t n tree e h n' at_top =
    rw (e, is_node-not_null m q h.0) (at_top ∙ root-plug s q y c t t')

-- The result of the third case.
pub rebalance-Settled :
    (btree : BtT) (s : Side) (c : Ctx) (p : ℕ) (y : Tree) (k : ℕ) (t : Tree)
    → height y ≡ k
    → Grown btree.memory (under s p y c) t (k + 1)
    → btree.tree ≡ root (plug (under s p y c) t)
    → Returns
        (rebalance btree (root t) p (overweight s))
        λ btree'. (T : Tree) × Settled btree btree' T (inorder (plug (under s p y c) t))
unfolding Rotates
rebalance-Settled btree s c p y k t low g at_top =
    let (s', apart, tip, (r, run, (t', e, w))) = rotation s btree.memory c p y k low t g in
    let btree' = record btree {
      memory = r.1;
      tree = if btree.memory.parent p == 0 then r.0 else btree.tree;
    } in
    (
      btree',
      rebalance-steps btree (root t) p s s' r apart tip run,
      (
        plug c t',
        record {
          focus = Focus-plug r.1 c t' w.focus;
          balanced = Balanced-plug r.1 c t' w.balanced (rw w.high w.around);
          tree =
              new_top btree.memory c p t' (join s t p y) r.0 btree.tree g.focus.around.1
                g.focus.around.5 e at_top;
          order_kept = inorder-plug c t' (join s t p y) w.order;
          key = w.key;
          val = w.val;
          next = w.next;
          prev = w.prev;
          allocated = w.allocated;
          size = refl;
          free_list = refl;
          list_size = refl;
          kcfn = refl;
        },
      ),
    )

-- The tests of the loop, by the side `s` of the node in its parent.
abbrev pub lighter : ℤ → Bool → Bool
lighter b left_child = (is_negative b && not left_child) || (is_positive b && left_child)

pub shifted : ℤ → Side → ℤ
shifted b s = if same_side left s then lower b else raise b

pub even_step : (s : Side) → (if same_side left s then negsuc 0 else pos 1) ≡ tipped s
even_step left = refl
even_step right = refl

pub lighter_step :
    (s : Side)
    → ((tipped (opposite s) ==ℤ pos 0) ≡ false)
      × (lighter (tipped (opposite s)) (same_side left s) ≡ true)
      × (shifted (tipped (opposite s)) s ≡ pos 0)
unfolding shifted
lighter_step left = (refl, refl, refl)
lighter_step right = (refl, refl, refl)

pub heavier_step :
    (s : Side)
    → ((tipped s ==ℤ pos 0) ≡ false)
      × (lighter (tipped s) (same_side left s) ≡ false)
      × (shifted (tipped s) s ≡ overweight s)
unfolding shifted
heavier_step left = (refl, refl, refl)
heavier_step right = (refl, refl, refl)

module _ (btree : BtT) (s : Side) (c : Ctx) (p : ℕ) (y : Tree) (h : ℕ) (t : Tree)
    (g : Grown btree.memory (under s p y c) t h) (fuel : ℕ) where
  pub some_root : 0 < root t
  some_root =
      let (a, n, b, whole) = as_join left t (omega (arith, g.high)) in
      let f = subst (λ t. Focus btree.memory (under s p y c) t) whole g.focus in
      subst (λ t. 0 < root t) (sym whole) (ground (arith, f.here.0))

  pub is_left : bt_is_left_child btree.memory p (root t) ≡ ok (same_side left s)
  is_left =
      bt_is_left_child-ok btree.memory (under s p y c) (root t) g.focus.around some_root
        (omega (arith, g.focus.once (root t), cells-root t (root t) some_root refl))

  pub not_null : (p == 0) ≡ false
  not_null = is_node-not_null btree.memory p g.focus.around.0

  pub step_even :
      btree.memory.balance p ≡ pos 0
      → balance_up (suc fuel) btree (root t) p
        ≡ balance_up fuel
            (record btree { memory = with_balance p (tipped s) btree.memory })
            p
            (up c)
  unfolding balance_up
  step_even e =
      rw
        (
          not_null,
          is_left,
          deref-ok btree.memory p (btree.memory.balance p) g.focus.around.0,
          e,
          even_step s,
          g.focus.around.1,
        )
        refl

  pub step_lighter :
      btree.memory.balance p ≡ tipped (opposite s)
      → balance_up (suc fuel) btree (root t) p
        ≡ ok (record btree { memory = with_balance p (pos 0) btree.memory })
  unfolding balance_up shifted
  step_lighter e =
      let (a, b, d) = lighter_step s in
      rw
        (
          not_null,
          is_left,
          deref-ok btree.memory p (btree.memory.balance p) g.focus.around.0,
          e,
          a,
          b,
          d,
        )
        refl

  pub step_heavier :
      btree.memory.balance p ≡ tipped s
      → balance_up (suc fuel) btree (root t) p ≡ rebalance btree (root t) p (overweight s)
  unfolding balance_up shifted
  step_heavier e =
      let (a, b, d) = heavier_step s in
      rw
        (
          not_null,
          is_left,
          deref-ok btree.memory p (btree.memory.balance p) g.focus.around.0,
          e,
          a,
          b,
          d,
        )
        refl
