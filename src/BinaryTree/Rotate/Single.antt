-- ===== src/BinaryTree/Rotate/Single.antt =====
-- A single rotation turns the links of a tree, and nothing else.
use cutil.Prelude.{
  ℕ, subst, ==_refl, ◌+◌, ◌≤◌, ◌<◌, ◌≡◌, refl, sym, ◌∙◌, false, if◌then◌else◌, ◌==◌, ◌&&◌, arith,
  ok, Returns, pos, ==ℤ_refl,
}
use cutil.BinaryTree.{
  Side, opposite, same_side, Memory, update, with_child, with_parent, with_balance,
}
use cutil.BinaryTree.Shape.{
  Tree, root, join, cells, cells-join, Ctx, up, side_of, cells_around, Focus, Joined, split, joined,
  root-join, Repr, Repr-positive,
}
use cutil.BinaryTree.Shape.{
  other_node, other_root, other_up, parent-root, ReprAround, ReprAround-positive,
}
use cutil.BinaryTree.Shape.Frame.{Repr-frame, ReprAround-frame}
use cutil.BinaryTree.Rotate.{rotate_single, tipped, overweight, set_parent, attach}
use cutil.BinaryTree.Rotate.Steps.{
  Rotated, one_here, deref-ok, is_node-not_null, root-IsPointer, up-IsPointer, IsPointer-same,
  set_parent-Moved, attach-Moved, is_left_of, side-is_left_of, bt_is_left_child-ok, same_side_self,
  same_side-opposite,
}

module _ (s : Side) (m : Memory) (c : Ctx) (a : Tree) (n : ℕ) (b : Tree) (p : ℕ) (d : Tree)
    (f : Focus m c (join s (join s a n b) p d)) where
  pub apart :
      (j : ℕ)
      → cells j a
          + (if n == j then 1 else 0)
          + cells j b
          + (if p == j then 1 else 0)
          + cells j d
          + cells_around j c
        ≤ 1
  apart j = omega (arith, f.once j, cells-join s j (join s a n b) p d, cells-join s j a n b)

  at_p : Joined m (up c) s (join s a n b) p d
  at_p = split m (up c) s (join s a n b) p d f.here

  at_n : Joined m p s a n b
  at_n = split m p s a n b at_p.near_tree

  f_around : ReprAround m c p
  f_around = subst (λ r. ReprAround m c r) (root-join s (join s a n b) p d) f.around

  -- The links after the rotation, at nodes.
  record Links (m' : Memory) : Type 0 where
    allocated : m'.allocated ≡ m.allocated
    parent :
        (j : ℕ)
        → 0 < j
        → m'.parent j
          ≡ (if n == j then up c else if p == j then n else if root b == j then p else m.parent j)
    child :
        (s' : Side) (j : ℕ)
        → 0 < j
        → m'.child s' j ≡ (
            if (up c == j) && same_side (side_of c) s'
            then n
            else if (n == j) && same_side (opposite s) s'
            then p
            else if (p == j) && same_side s s'
            then root b
            else m.child s' j)

  some_n : 0 < n
  some_n = ground (arith, at_n.inside)

  some_p : 0 < p
  some_p = ground (arith, at_p.inside)

  pub p_ne_n : (p == n) ≡ false
  p_ne_n = other_node p n (omega (arith, apart n, one_here n))

  n_ne_p : (n == p) ≡ false
  n_ne_p = other_node n p (omega (arith, apart p, one_here p))

  up_ne_n : (up c == n) ≡ false
  up_ne_n = other_up c n some_n (omega (arith, apart n, one_here n))

  up_ne_p : (up c == p) ≡ false
  up_ne_p = other_up c p some_p (omega (arith, apart p, one_here p))

  module _ (m' : Memory) (l : Links m') where
    child-elsewhere :
        (s' : Side) (j : ℕ)
        → 0 < j
        → (up c == j) ≡ false
        → (n == j) ≡ false
        → (p == j) ≡ false
        → m'.child s' j ≡ m.child s' j
    child-elsewhere s' j h e₁ e₂ e₃ = l.child s' j h ∙ rw (e₁, e₂, e₃) refl

    parent-elsewhere :
        (j : ℕ)
        → 0 < j
        → (n == j) ≡ false
        → (p == j) ≡ false
        → m'.parent j ≡ (if root b == j then p else m.parent j)
    parent-elsewhere j h e₁ e₂ = l.parent j h ∙ rw (e₁, e₂) refl

    -- A subtree whose nodes are elsewhere.
    kept :
        (t : Tree) (par par' : ℕ)
        → Repr m par t
        → ((j : ℕ)
            → cells j t + (if n == j then 1 else 0) + (if p == j then 1 else 0) + cells_around j c
              ≤ 1)
        → ((j : ℕ)
            → 0 < j
            → 0 < cells j t
            → (if root b == j then p else m.parent j) ≡ (if root t == j then par' else m.parent j))
        → Repr m' par' t
    kept t par par' h once parent =
        Repr-frame m m' l.allocated t par par' h (λ j. omega (arith, once j))
          (λ s' j k.
            let some_j = Repr-positive m par t j h k in
            child-elsewhere s' j some_j (other_up c j some_j (omega (arith, once j)))
              (other_node n j (omega (arith, once j))) (other_node p j (omega (arith, once j))))
          (λ j k.
            let some_j = Repr-positive m par t j h k in
            parent-elsewhere j some_j (other_node n j (omega (arith, once j)))
              (other_node p j (omega (arith, once j)))
            ∙ parent j some_j k)

    turned : Focus m' c (join s a n (join s b p d))
    turned =
        let (other, other') = same_side-opposite s in
        record {
          here = joined m' (up c) s a n (join s b p d) (record {
            inside = rw l.allocated at_n.inside;
            parent = l.parent n some_n ∙ rw (==_refl n) refl;
            near = l.child s n some_n ∙ rw (up_ne_n, ==_refl n, other, p_ne_n) at_n.near;
            far =
                l.child (opposite s) n some_n
                ∙ rw (up_ne_n, ==_refl n, same_side_self (opposite s)) (sym (root-join s b p d));
            near_tree =
                kept a n n at_n.near_tree (λ j. omega (arith, apart j))
                  (λ j h k.
                    rw (other_root b j h (omega (arith, apart j)))
                      (parent-root m n a j at_n.near_tree k));
            far_tree = joined m' n s b p d (record {
              inside = rw l.allocated at_p.inside;
              parent = l.parent p some_p ∙ rw (n_ne_p, ==_refl p) refl;
              near = l.child s p some_p ∙ rw (up_ne_p, n_ne_p, ==_refl p, same_side_self s) refl;
              far =
                  l.child (opposite s) p some_p ∙ rw (up_ne_p, n_ne_p, ==_refl p, other') at_p.far;
              near_tree = kept b n p at_n.far_tree (λ j. omega (arith, apart j)) (λ j h k. refl);
              far_tree =
                  kept d p p at_p.far_tree (λ j. omega (arith, apart j))
                    (λ j h k.
                      rw (other_root b j h (omega (arith, apart j)))
                        (parent-root m p d j at_p.far_tree k));
            });
          });
          around =
              ReprAround-frame m m' l.allocated c p (root (join s a n (join s b p d))) f_around
                (λ j. omega (arith, apart j))
                (λ s' j k.
                  let some_j = ReprAround-positive m c p j f_around k in
                  l.child s' j some_j
                  ∙ rw
                      (
                        root-join s a n (join s b p d),
                        other_node n j (omega (arith, apart j)),
                        other_node p j (omega (arith, apart j)),
                      )
                      refl)
                (λ j k.
                  let some_j = ReprAround-positive m c p j f_around k in
                  parent-elsewhere j some_j (other_node n j (omega (arith, apart j)))
                    (other_node p j (omega (arith, apart j)))
                  ∙ rw (other_root b j some_j (omega (arith, apart j))) refl);
          once =
              λ j. omega (arith, apart j, cells-join s j a n (join s b p d), cells-join s j b p d);
        }

  -- The code computes such links.
  rotate_single-steps :
      (m₂ m₃ : Memory)
      → m.balance p ≡ overweight s
      → m.balance n ≡ tipped s
      → set_parent (with_child s p (root b) m) (root b) p ≡ ok m₂
      → attach (with_parent p n (with_child (opposite s) n p m₂)) (up c) (is_left_of c) n ≡ ok m₃
      → rotate_single s m p ≡ ok (n, with_balance p (pos 0) (with_balance n (pos 0) m₃))
  unfolding rotate_single
  rotate_single-steps m₂ m₃ heavy tip run₂ run₃ =
      rw
        (
          deref-ok m p (m.parent p) at_p.inside,
          at_p.parent,
          at_p.near ∙ root-join s a n b,
          is_node-not_null m n at_n.inside,
          heavy,
          ==ℤ_refl (overweight s),
          deref-ok m n (m.balance n) at_n.inside,
          tip,
          ==ℤ_refl (tipped s),
          bt_is_left_child-ok m c p f_around some_p (omega (arith, apart p, one_here p)),
          at_n.far,
          run₂,
          run₃,
        )
        refl

  -- On a subtree anywhere in a tree, whose root p has factor two to a side and whose child n on
  -- that side has factor one to the same side, the single rotation returns n as the new root of
  -- the subtree, with p as its child and the three subtrees below in the same order, all parent
  -- and child links included; the factors of n and p are 0, and nothing else changes.
  pub rotate_single-Rotated :
      m.balance p ≡ overweight s
      → m.balance n ≡ tipped s
      → Returns (rotate_single s m p) λ r.
        (r.0 ≡ n)
        × Rotated m r.1 c
            (join s a n (join s b p d))
            (update (update m.balance n (pos 0)) p (pos 0))
  rotate_single-Rotated heavy tip =
      let (m₂, run₂, M₂) =
        set_parent-Moved (with_child s p (root b) m) (root b) p
          (root-IsPointer m n b at_n.far_tree) in
      let m₂' = with_parent p n (with_child (opposite s) n p m₂) in
      let (m₃, run₃, M₃) =
        attach-Moved m₂' (up c) (is_left_of c) n
          (IsPointer-same m m₂' (up c) M₂.allocated (up-IsPointer m c p f_around))
          (rw M₂.allocated at_n.inside) in
      let m' = with_balance p (pos 0) (with_balance n (pos 0) m₃) in
      let links : Links m' = record {
        allocated = M₃.allocated ∙ M₂.allocated;
        parent = λ j h. M₃.parent j h ∙ rw (M₂.parent j h) refl;
        child = λ s' j h. M₃.child s' j h ∙ rw (side-is_left_of c, M₂.child s' j h) refl;
      } in
      (
        (n, m'),
        rotate_single-steps m₂ m₃ heavy tip run₂ run₃,
        (
          refl,
          record {
            focus = turned m' links;
            allocated = links.allocated;
            key = M₃.key ∙ M₂.key;
            val = M₃.val ∙ M₂.val;
            next = M₃.next ∙ M₂.next;
            prev = M₃.prev ∙ M₂.prev;
            balance = λ j. rw (M₃.balance, M₂.balance) refl;
          },
        ),
      )
