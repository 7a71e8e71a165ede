-- ===== src/BinaryTree/Rotate/Double.antt =====
-- A double rotation turns the links of a tree, and nothing else.
use cutil.Prelude.{
  ℕ, subst, ==_refl, ◌+◌, ◌≤◌, ◌<◌, ◌≡◌, refl, sym, ap, ◌∙◌, false, if◌then◌else◌, ◌==◌, ◌&&◌,
  arith, ok, Returns, pos, ==ℤ_refl,
}
use cutil.BinaryTree.{
  Side, opposite, same_side, Memory, update, with_child, with_parent, with_balance,
}
use cutil.BinaryTree.Shape.{
  Tree, root, join, cells, cells-join, Ctx, up, side_of, cells_around, Focus, Joined, split, joined,
  root-join, Repr, Repr-positive, other_node, other_root, other_up, parent-root, ReprAround,
  ReprAround-positive,
}
use cutil.BinaryTree.Shape.Frame.{Repr-frame, ReprAround-frame}
use cutil.BinaryTree.Rotate.{
  rotate_double, tipped, overweight, set_parent, attach, inner_balance, outer_balance,
}
use cutil.BinaryTree.Rotate.Steps.{
  Rotated, one_here, deref-ok, is_node-not_null, root-IsPointer, up-IsPointer, IsPointer-same,
  set_parent-Moved, attach-Moved, is_left_of, side-is_left_of, bt_is_left_child-ok, same_side_self,
  same_side-opposite,
}

module _ (s : Side) (m : Memory) (c : Ctx) (b : Tree) (g : ℕ) (e : Tree) (n : ℕ) (a : Tree) (p : ℕ)
    (d : Tree) (f : Focus m c (join s (join (opposite s) (join s b g e) n a) p d)) where
  abbrev o : Side
  o = opposite s

  -- The tree after the rotation.
  abbrev risen : Tree
  risen = join s (join o b n a) g (join s e p d)

  pub apart :
      (j : ℕ)
      → cells j b
          + (if g == j then 1 else 0)
          + cells j e
          + (if n == j then 1 else 0)
          + cells j a
          + (if p == j then 1 else 0)
          + cells j d
          + cells_around j c
        ≤ 1
  apart j = omega (
    arith,
    f.once j,
    cells-join s j (join o (join s b g e) n a) p d,
    cells-join o j (join s b g e) n a,
    cells-join s j b g e,
  )

  at_p : Joined m (up c) s (join o (join s b g e) n a) p d
  at_p = split m (up c) s (join o (join s b g e) n a) p d f.here

  at_n : Joined m p o (join s b g e) n a
  at_n = split m p o (join s b g e) n a at_p.near_tree

  at_g : Joined m n s b g e
  at_g = split m n s b g e at_n.near_tree

  f_around : ReprAround m c p
  f_around = subst (λ r. ReprAround m c r) (root-join s (join o (join s b g e) n a) p d) f.around

  -- The links after the rotation, at nodes.
  record Links (m' : Memory) : Type 0 where
    allocated : m'.allocated ≡ m.allocated
    parent :
        (j : ℕ)
        → 0 < j
        → m'.parent j ≡ (
            if g == j
            then up c
            else if p == j
            then g
            else if n == j
            then g
            else if root e == j
            then p
            else if root b == j
            then n
            else m.parent j)
    child :
        (s' : Side) (j : ℕ)
        → 0 < j
        → m'.child s' j ≡ (
            if (up c == j) && same_side (side_of c) s'
            then g
            else if (g == j) && same_side o s'
            then p
            else if (g == j) && same_side s s'
            then n
            else if (p == j) && same_side s s'
            then root e
            else if (n == j) && same_side o s'
            then root b
            else m.child s' j)

  some_n : 0 < n
  some_n = ground (arith, at_n.inside)

  some_p : 0 < p
  some_p = ground (arith, at_p.inside)

  some_g : 0 < g
  some_g = ground (arith, at_g.inside)

  up_ne_g : (up c == g) ≡ false
  up_ne_g = other_up c g some_g (omega (arith, apart g, one_here g))

  up_ne_p : (up c == p) ≡ false
  up_ne_p = other_up c p some_p (omega (arith, apart p, one_here p))

  up_ne_n : (up c == n) ≡ false
  up_ne_n = other_up c n some_n (omega (arith, apart n, one_here n))

  pub g_ne_p : (g == p) ≡ false
  g_ne_p = other_node g p (omega (arith, apart p, one_here p))

  pub g_ne_n : (g == n) ≡ false
  g_ne_n = other_node g n (omega (arith, apart n, one_here n))

  pub p_ne_n : (p == n) ≡ false
  p_ne_n = other_node p n (omega (arith, apart n, one_here n))

  n_ne_p : (n == p) ≡ false
  n_ne_p = other_node n p (omega (arith, apart p, one_here p))

  module _ (m' : Memory) (l : Links m') where
    parent-elsewhere :
        (j : ℕ)
        → 0 < j
        → (g == j) ≡ false
        → (p == j) ≡ false
        → (n == j) ≡ false
        → m'.parent j ≡ (if root e == j then p else if root b == j then n else m.parent j)
    parent-elsewhere j h e₁ e₂ e₃ = l.parent j h ∙ rw (e₁, e₂, e₃) refl

    -- A subtree whose nodes are elsewhere.
    kept :
        (t : Tree) (par par' : ℕ)
        → Repr m par t
        → ((j : ℕ)
            → cells j t
                + (if g == j then 1 else 0)
                + (if n == j then 1 else 0)
                + (if p == j then 1 else 0)
                + cells_around j c
              ≤ 1)
        → ((j : ℕ)
            → 0 < j
            → 0 < cells j t
            → (if root e == j then p else if root b == j then n else m.parent j)
              ≡ (if root t == j then par' else m.parent j))
        → Repr m' par' t
    kept t par par' h once parent =
        Repr-frame m m' l.allocated t par par' h (λ j. omega (arith, once j))
          (λ s' j k.
            let some_j = Repr-positive m par t j h k in
            l.child s' j some_j
            ∙ rw
                (
                  other_up c j some_j (omega (arith, once j)),
                  other_node g j (omega (arith, once j)),
                  other_node p j (omega (arith, once j)),
                  other_node n j (omega (arith, once j)),
                )
                refl)
          (λ j k.
            let some_j = Repr-positive m par t j h k in
            parent-elsewhere j some_j (other_node g j (omega (arith, once j)))
              (other_node p j (omega (arith, once j))) (other_node n j (omega (arith, once j)))
            ∙ parent j some_j k)

    inner : Repr m' g (join o b n a)
    inner = joined m' g o b n a (record {
      inside = rw l.allocated at_n.inside;
      parent = l.parent n some_n ∙ rw (g_ne_n, p_ne_n, ==_refl n) refl;
      near = l.child o n some_n ∙ rw (up_ne_n, g_ne_n, p_ne_n, ==_refl n, same_side_self o) refl;
      far =
          l.child (opposite o) n some_n
          ∙ rw (up_ne_n, g_ne_n, p_ne_n, ==_refl n, (same_side-opposite o).1) at_n.far;
      near_tree =
          kept b g n at_g.near_tree (λ j. omega (arith, apart j))
            (λ j h k. rw (other_root e j h (omega (arith, apart j))) refl);
      far_tree =
          kept a n n at_n.far_tree (λ j. omega (arith, apart j))
            (λ j h k.
              rw
                (
                  other_root e j h (omega (arith, apart j)),
                  other_root b j h (omega (arith, apart j)),
                )
                (parent-root m n a j at_n.far_tree k));
    })

    outer : Repr m' g (join s e p d)
    outer = joined m' g s e p d (record {
      inside = rw l.allocated at_p.inside;
      parent = l.parent p some_p ∙ rw (g_ne_p, ==_refl p) refl;
      near = l.child s p some_p ∙ rw (up_ne_p, g_ne_p, ==_refl p, same_side_self s) refl;
      far =
          l.child o p some_p
          ∙ rw (up_ne_p, g_ne_p, ==_refl p, (same_side-opposite s).1, n_ne_p) at_p.far;
      near_tree =
          kept e g p at_g.far_tree (λ j. omega (arith, apart j))
            (λ j h k. rw (other_root b j h (omega (arith, apart j))) refl);
      far_tree =
          kept d p p at_p.far_tree (λ j. omega (arith, apart j))
            (λ j h k.
              rw
                (
                  other_root e j h (omega (arith, apart j)),
                  other_root b j h (omega (arith, apart j)),
                )
                (parent-root m p d j at_p.far_tree k));
    })

    turned : Focus m' c risen
    turned = record {
      here = joined m' (up c) s (join o b n a) g (join s e p d) (record {
        inside = rw l.allocated at_g.inside;
        parent = l.parent g some_g ∙ rw (==_refl g) refl;
        near =
            l.child s g some_g
            ∙ rw (up_ne_g, ==_refl g, (same_side-opposite s).0, same_side_self s)
                (sym (root-join o b n a));
        far =
            l.child o g some_g
            ∙ rw (up_ne_g, ==_refl g, same_side_self o) (sym (root-join s e p d));
        near_tree = inner;
        far_tree = outer;
      });
      around =
          ReprAround-frame m m' l.allocated c p (root risen) f_around (λ j. omega (arith, apart j))
            (λ s' j k.
              let some_j = ReprAround-positive m c p j f_around k in
              l.child s' j some_j
              ∙ rw
                  (
                    root-join s (join o b n a) g (join s e p d),
                    other_node g j (omega (arith, apart j)),
                    other_node p j (omega (arith, apart j)),
                    other_node n j (omega (arith, apart j)),
                  )
                  refl)
            (λ j k.
              let some_j = ReprAround-positive m c p j f_around k in
              parent-elsewhere j some_j (other_node g j (omega (arith, apart j)))
                (other_node p j (omega (arith, apart j))) (other_node n j (omega (arith, apart j)))
              ∙ rw
                  (
                    other_root e j some_j (omega (arith, apart j)),
                    other_root b j some_j (omega (arith, apart j)),
                  )
                  refl);
      once = λ j. omega (
        arith,
        apart j,
        cells-join s j (join o b n a) g (join s e p d),
        cells-join o j b n a,
        cells-join s j e p d,
      );
    }

  -- The code computes such links.
  rotate_double-steps :
      (m₁ m₂ m₄ : Memory)
      → m.balance p ≡ overweight s
      → m.balance n ≡ tipped o
      → m₄.balance g ≡ m.balance g
      → set_parent (with_child o n (root b) m) (root b) n ≡ ok m₁
      → set_parent (with_child s p (root e) m₁) (root e) p ≡ ok m₂
      → attach
          (with_parent p g (with_child o g p (with_parent n g (with_child s g n m₂))))
          (up c)
          (is_left_of c)
          g
        ≡ ok m₄
      → rotate_double s m p
        ≡ ok (
          g,
          with_balance g (pos 0) (
              with_balance p
                (outer_balance s (m.balance g))
                (with_balance n (inner_balance s (m.balance g)) m₄)),
        )
  unfolding rotate_double
  rotate_double-steps m₁ m₂ m₄ heavy tip weight run₁ run₂ run₄ =
      rw
        (
          deref-ok m p (m.parent p) at_p.inside,
          at_p.parent,
          at_p.near ∙ root-join o (join s b g e) n a,
          is_node-not_null m n at_n.inside,
          deref-ok m n (m.child o n) at_n.inside,
          at_n.near ∙ root-join s b g e,
          is_node-not_null m g at_g.inside,
          heavy,
          ==ℤ_refl (overweight s),
          tip,
          ==ℤ_refl (tipped o),
          bt_is_left_child-ok m c p f_around some_p (omega (arith, apart p, one_here p)),
          deref-ok m g (m.child s g) at_g.inside,
          at_g.near,
          at_g.far,
          run₁,
          run₂,
          run₄,
          weight,
        )
        refl

  -- On a subtree anywhere in a tree, whose root p has factor two to a side and whose child n on
  -- that side has factor one to the other, the double rotation returns the inner grandchild g as
  -- the new root of the subtree, with n and p as its children and the four subtrees below in the
  -- same order, all parent and child links included; the factors of n and p are those that the
  -- code derives from that of g, that of g is 0, and nothing else changes.
  pub rotate_double-Rotated :
      m.balance p ≡ overweight s
      → m.balance n ≡ tipped o
      → Returns (rotate_double s m p) λ r.
        (r.0 ≡ g)
        × Rotated m r.1 c risen (
            update
              (update
                (update m.balance n (inner_balance s (m.balance g)))
                p
                (outer_balance s (m.balance g)))
              g
              (pos 0))
  rotate_double-Rotated heavy tip =
      let (m₁, run₁, M₁) =
        set_parent-Moved (with_child o n (root b) m) (root b) n
          (root-IsPointer m g b at_g.near_tree) in
      let (m₂, run₂, M₂) =
        set_parent-Moved (with_child s p (root e) m₁) (root e) p
          (IsPointer-same m m₁ (root e) M₁.allocated (root-IsPointer m g e at_g.far_tree)) in
      let same = M₂.allocated ∙ M₁.allocated in
      let m₃ = with_parent p g (with_child o g p (with_parent n g (with_child s g n m₂))) in
      let (m₄, run₄, M₄) =
        attach-Moved m₃ (up c) (is_left_of c) g
          (IsPointer-same m m₃ (up c) same (up-IsPointer m c p f_around)) (rw same at_g.inside) in
      let m' = with_balance g (pos 0) (
        with_balance p (outer_balance s (m.balance g))
          (with_balance n (inner_balance s (m.balance g)) m₄)) in
      let links : Links m' = record {
        allocated = M₄.allocated ∙ same;
        parent = λ j h. M₄.parent j h ∙ rw (M₂.parent j h, M₁.parent j h) refl;
        child = λ s' j h.
            M₄.child s' j h ∙ rw (side-is_left_of c, M₂.child s' j h, M₁.child s' j h) refl;
      } in
      let weights : m₄.balance ≡ m.balance = M₄.balance ∙ M₂.balance ∙ M₁.balance in
      (
        (g, m'),
        rotate_double-steps m₁ m₂ m₄ heavy tip (ap (λ f. f g) weights) run₁ run₂ run₄,
        (
          refl,
          record {
            focus = turned m' links;
            allocated = links.allocated;
            key = M₄.key ∙ M₂.key ∙ M₁.key;
            val = M₄.val ∙ M₂.val ∙ M₁.val;
            next = M₄.next ∙ M₂.next ∙ M₁.next;
            prev = M₄.prev ∙ M₂.prev ∙ M₁.prev;
            balance = λ j. rw weights refl;
          },
        ),
      )
