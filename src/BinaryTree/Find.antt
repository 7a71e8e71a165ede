-- ===== src/BinaryTree/Find.antt =====
-- `bt_find` finds the first node, in order, whose key is equal.
use cutil.Prelude.{
  ℕ, subst, ==_iff, zero, suc, ◌≤◌, ◌<◌, ◌≡◌, refl, sym, ap, ◌∙◌, true, false, ◌∷◌, ◌==◌,
  Bool-cases, inl, inr, length, length-append, arith, ok, ℤ,
}
use cutil.BinaryTree.{BtT, is_negative, is_positive, find_down}
use cutil.BinaryTree.Order.{
  IsOrder, equal_keys, Sorted, first_equal, first_equal-append, first_equal-none, around,
}
use cutil.BinaryTree.Rotate.Steps.{deref-ok, is_node-not_null}
use cutil.BinaryTree.Shape.{Tree, leaf, node, root, inorder, height, Repr}

pub height-le : (t : Tree) → height t ≤ length (inorder t)
height-le leaf = omega arith
height-le (node l p r) =
    omega (arith, height-le l, height-le r, length-append (inorder l) (p ∷ inorder r))

module _ (cmp : ℕ → ℕ → ℤ) (o : IsOrder cmp) where
  -- A key below another is not equal to those above that.
  pub less-not_equal :
      (a b c : ℕ)
      → is_negative (cmp a b) ≡ true
      → is_negative (cmp b c) ≡ true
      → equal_keys cmp a c ≡ false
  less-not_equal a b c h k = rw (o.less_trans a b c h k) refl

  pub greater-not_equal :
      (a b c : ℕ)
      → is_negative (cmp c b) ≡ true
      → is_negative (cmp b a) ≡ true
      → equal_keys cmp a c ≡ false
  greater-not_equal a b c h k = let e = o.greater a c ∙ o.less_trans c b a h k in ground (arith, e)

  pub equal-not_equal :
      (a b c : ℕ)
      → is_negative (cmp a b) ≡ false
      → is_negative (cmp b a) ≡ false
      → is_negative (cmp c b) ≡ true
      → equal_keys cmp a c ≡ false
  equal-not_equal a b c h k l =
      let e = o.greater a c ∙ sym (o.equal_less a b c h k) ∙ l in ground (arith, e)

module _ (btree : BtT) (o : IsOrder btree.kcfn) (key : ℕ) where
  pub find_down-first :
      (fuel : ℕ) (par : ℕ) (t : Tree)
      → Repr btree.memory par t
      → Sorted btree.kcfn btree.memory.key (inorder t)
      → height t < fuel
      → find_down fuel btree key (root t)
        ≡ ok (first_equal btree.kcfn btree.memory.key key (inorder t))
  unfolding find_down
  find_down-first zero par t h s deep = absurd (omega arith)
  find_down-first (suc fuel) par leaf h s deep = refl
  find_down-first (suc fuel) par (node l p r) h s deep =
      let cmp = btree.kcfn in
      let kp = btree.memory.key p in
      let a = around cmp btree.memory.key (inorder l) p (inorder r) s in
      let mk = btree.memory.key in
      let il = inorder l in
      let ir = inorder r in
      elim (Bool-cases (is_negative (cmp key kp))) [
        | inl e ↦
            rw (is_node-not_null btree.memory p h.0, deref-ok btree.memory p kp h.0, e, h.2)
              (find_down-first fuel p l h.4 a.before (omega arith)
                ∙ ap ok (
                    sym (
                      first_equal-none cmp mk key il (p ∷ ir) (λ j k. elim (Bool-cases (p == j)) [
                        | inl f ↦
                            subst (λ i. equal_keys cmp key (mk i) ≡ false) ((==_iff p j).0 f)
                              (rw e refl)
                        | inr f ↦ less-not_equal cmp o key kp (mk j) e (a.above j (ground arith))
                      ]))))
        | inr e ↦ elim (Bool-cases (is_positive (cmp key kp))) [
          | inl f ↦
              let less : is_negative (cmp kp key) ≡ true = sym (o.greater key kp) ∙ f in
              rw (is_node-not_null btree.memory p h.0, deref-ok btree.memory p kp h.0, e, f, h.3)
                (find_down-first fuel p r h.5 a.after (omega arith)
                  ∙ ap ok (
                      sym (
                        first_equal-append cmp mk key il (p ∷ ir)
                          (λ j k. greater-not_equal cmp o key kp (mk j) (a.below j k) less)
                        ∙ rw (e, f) refl)))
          | inr f ↦
              let more : is_negative (cmp kp key) ≡ false = sym (o.greater key kp) ∙ f in
              rw (is_node-not_null btree.memory p h.0, deref-ok btree.memory p kp h.0, e, f)
                (ap ok (
                  sym (
                    first_equal-append cmp mk key il (p ∷ ir)
                      (λ j k. equal-not_equal cmp o key kp (mk j) e more (a.below j k))
                    ∙ rw (e, f) refl)))
        ]
      ]
