-- ===== src/BinaryTree/Insert/Search.antt =====
-- The loop of `bt_insert_node` finds a duplicate, or the place of a new key.
use cutil.Prelude.{
  ℕ, zero, suc, subst, ◌<◌, ◌≡◌, ◌⊎◌, inl, inr, refl, sym, ◌∙◌, true, Option, none, some, List, [],
  ◌∷◌, ◌++◌, Bool-cases, arith, Result, ok,
}
use cutil.ListItem.Ring.{count, count-append}
use cutil.BinaryTree.{left, right, BtT, is_negative, is_positive}
use cutil.BinaryTree.Edit.{find_place, Place}
use cutil.BinaryTree.Order.{IsOrder, equal_keys, around}
use cutil.BinaryTree.Rotate.Steps.{deref-ok, is_node-not_null}
use cutil.BinaryTree.Shape.{Tree, leaf, node, root, inorder, height, cells, plug, Ctx, under}
use cutil.BinaryTree.Shape.Balance.{BalancedAround, Balanced-split}
use cutil.BinaryTree.Insert.{before, after, place_of, Looking, Focus-down}

-- The search ends at a node with an equal key, or at a hole of the same tree.
unfoldable pub Found : BtT → ℕ → Ctx → Tree → Result (Option Place) → Type 0
Found btree key c t result =
    ((result ≡ ok none)
      × (p : ℕ) × (0 < cells p t)
      × (equal_keys btree.kcfn key (btree.memory.key p) ≡ true))
    ⊎ ((c' : Ctx) × (result ≡ ok (some (place_of c')))
        × Looking btree key c' leaf
        × (plug c' leaf ≡ plug c t))

behind-cases :
    (j p : ℕ) (xs ys : List ℕ)
    → 0 < count j (p ∷ (xs ++ ys))
    → (p ≡ j) ⊎ ((0 < count j xs) ⊎ (0 < count j ys))
behind-cases j p xs ys h = ground (arith, count-append j xs ys)

front-cases :
    (j p : ℕ) (xs ys : List ℕ)
    → 0 < count j (xs ++ (ys ++ p ∷ []))
    → (p ≡ j) ⊎ ((0 < count j ys) ⊎ (0 < count j xs))
front-cases j p xs ys h =
    ground (arith, count-append j xs (ys ++ p ∷ []), count-append j ys (p ∷ []))

module _ (btree : BtT) (o : IsOrder btree.kcfn) (key : ℕ) where
  module _ (c : Ctx) (l : Tree) (p : ℕ) (r : Tree) (k : Looking btree key c (node l p r)) where
    abbrev kp : ℕ
    kp = btree.memory.key p

    go_left : is_negative (btree.kcfn key kp) ≡ true → Looking btree key (under left p r c) l
    go_left e =
        let a = around btree.kcfn btree.memory.key (inorder l) p (inorder r) k.sorted in
        record {
          focus = Focus-down btree.memory left c l p r k.focus;
          balanced = k.balanced.1;
          around = (k.balanced.0, k.balanced.2, k.around);
          sorted = a.before;
          low = k.low;
          high = λ j h. elim (behind-cases j p (inorder r) (after c) h) [
            | inl i ↦ subst (λ q. is_negative (btree.kcfn key (btree.memory.key q)) ≡ true) i e
            | inr (inl i) ↦ o.less_trans key kp (btree.memory.key j) e (a.above j i)
            | inr (inr i) ↦ k.high j i
          ];
        }

    go_right : is_negative (btree.kcfn kp key) ≡ true → Looking btree key (under right p l c) r
    go_right e =
        let a = around btree.kcfn btree.memory.key (inorder l) p (inorder r) k.sorted in
        let (tilt, br, bl) = Balanced-split btree.memory right r p l k.balanced in
        record {
          focus = Focus-down btree.memory right c r p l k.focus;
          balanced = br;
          around = (tilt, bl, subst (λ h. BalancedAround btree.memory c h) (omega arith) k.around);
          sorted = a.after;
          low = λ j h. elim (front-cases j p (before c) (inorder l) h) [
            | inl i ↦ subst (λ q. is_negative (btree.kcfn (btree.memory.key q) key) ≡ true) i e
            | inr (inl i) ↦ o.less_trans (btree.memory.key j) kp key (a.below j i) e
            | inr (inr i) ↦ k.low j i
          ];
          high = k.high;
        }

  pub find_place-Found :
      (fuel : ℕ) (c : Ctx) (t : Tree)
      → Looking btree key c t
      → height t < fuel
      → Found btree key c t (find_place fuel btree key (root t) (place_of c))
  unfolding Found find_place
  find_place-Found zero c t k deep = absurd (omega arith)
  find_place-Found (suc fuel) c leaf k deep = inr (c, refl, k, refl)
  find_place-Found (suc fuel) c (node l p r) k deep =
      let inside = k.focus.here.0 in
      let k_p = btree.memory.key p in
      let nn = is_node-not_null btree.memory p inside in
      let dr = deref-ok btree.memory p k_p inside in
      elim (Bool-cases (is_negative (btree.kcfn key k_p))) [
        | inl e ↦
            elim (find_place-Found fuel (under left p r c) l (go_left c l p r k e) (omega arith)) [
              | inl (run, q, i, same) ↦
                  inl (rw (nn, dr, e, k.focus.here.2) run, q, omega arith, same)
              | inr (c', run, k', whole) ↦ inr (c', rw (nn, dr, e, k.focus.here.2) run, k', whole)
            ]
        | inr e ↦ elim (Bool-cases (is_positive (btree.kcfn key k_p))) [
          | inl f ↦
              let less = sym (o.greater key k_p) ∙ f in
              elim (find_place-Found fuel (under right p l c) r (go_right c l p r k less)
                (omega arith)) [
                  | inl (run, q, i, same) ↦
                      inl (rw (nn, dr, e, f, k.focus.here.3) run, q, omega arith, same)
                  | inr (c', run, k', whole) ↦
                      inr (c', rw (nn, dr, e, f, k.focus.here.3) run, k', whole)
                ]
          | inr f ↦ inl (rw (nn, dr, e, f) refl, p, ground arith, rw (e, f) refl)
        ]
      ]
