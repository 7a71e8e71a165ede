-- ===== src/BinaryTree/Shape/Frame.antt =====
-- A change of the links elsewhere leaves a tree, or a context, as it is.
use cutil.Prelude.{ℕ, ==_refl, ◌≤◌, ◌<◌, ◌≡◌, sym, ap, ◌∙◌, true, if◌then◌else◌, ◌==◌, ◌&&◌, arith}
use cutil.BinaryTree.{Side, left, right, same_side, Memory, is_node}
use cutil.BinaryTree.Shape.{
  Tree, leaf, node, root, cells, Repr, Repr-parent, Ctx, top, under, up, side_of, cells_around,
  ReprAround,
}

-- The child that the hole is.
child-up :
    (m : Memory) (a : ℕ) (c : Ctx) (s : Side) (j : ℕ)
    → ReprAround m c a
    → 0 < cells_around j c
    → same_side (side_of c) s ≡ true
    → up c ≡ j
    → m.child s j ≡ a
child-up m a top s j h k e f = absurd (omega arith)
child-up m a (under left p y c) left j h k e f = ap (m.child left) (sym f) ∙ h.2
child-up m a (under right p y c) right j h k e f = ap (m.child right) (sym f) ∙ h.2
child-up m a (under left p y c) right j h k e f = absurd (ground arith)
child-up m a (under right p y c) left j h k e f = absurd (ground arith)

module _ (m m' : Memory) (same_size : m'.allocated ≡ m.allocated) where
  is_node-same : (p : ℕ) → is_node m p ≡ true → is_node m' p ≡ true
  is_node-same p h = ground (arith, same_size)

  -- The root may get another parent.
  pub Repr-frame :
      (t : Tree) (par par' : ℕ)
      → Repr m par t
      → ((j : ℕ) → cells j t ≤ 1)
      → ((s : Side) (j : ℕ) → 0 < cells j t → m'.child s j ≡ m.child s j)
      → ((j : ℕ) → 0 < cells j t → m'.parent j ≡ (if root t == j then par' else m.parent j))
      → Repr m' par' t
  Repr-frame leaf par par' h once child parent = tt
  Repr-frame (node l p r) par par' h once child parent =
      let here : 0 < cells p (node l p r) = ground arith in
      (
        is_node-same p h.0,
        parent p here ∙ ground arith,
        child left p here ∙ h.2,
        child right p here ∙ h.3,
        Repr-frame l p p h.4 (λ j. ground (arith, once j)) (λ s j k. child s j (ground arith))
            (λ j k. ground (arith, parent j, once j, Repr-parent m p l j h.4)),
        Repr-frame r p p h.5 (λ j. ground (arith, once j)) (λ s j k. child s j (ground arith))
            (λ j k. ground (arith, parent j, once j, Repr-parent m p r j h.5)),
      )

  -- The hole may get another root.
  pub ReprAround-frame :
      (c : Ctx) (a a' : ℕ)
      → ReprAround m c a
      → ((j : ℕ) → cells_around j c ≤ 1)
      → ((s : Side) (j : ℕ)
          → 0 < cells_around j c
          → m'.child s j ≡ (if (up c == j) && same_side (side_of c) s then a' else m.child s j))
      → ((j : ℕ) → 0 < cells_around j c → m'.parent j ≡ m.parent j)
      → ReprAround m' c a'
  ReprAround-frame top a a' h once child parent = tt
  ReprAround-frame (under left p y c) a a' h once child parent =
      let here : 0 < cells_around p (under left p y c) = ground arith in
      (
        is_node-same p h.0,
        parent p here ∙ h.1,
        child left p here ∙ ground arith,
        child right p here ∙ rw (==_refl p) h.3,
        Repr-frame y p p h.4 (λ j. ground (arith, once j))
            (λ s j k. ground (arith, child s j, once j))
            (λ j k. ground (arith, parent j, once j, Repr-parent m p y j h.4)),
        ReprAround-frame c p p h.5 (λ j. ground (arith, once j))
            (λ s j k. ground (arith, child s j, once j, child-up m p c s j h.5))
            (λ j k. parent j (ground arith)),
      )
  ReprAround-frame (under right p y c) a a' h once child parent =
      let here : 0 < cells_around p (under right p y c) = ground arith in
      (
        is_node-same p h.0,
        parent p here ∙ h.1,
        child right p here ∙ ground arith,
        child left p here ∙ rw (==_refl p) h.3,
        Repr-frame y p p h.4 (λ j. ground (arith, once j))
            (λ s j k. ground (arith, child s j, once j))
            (λ j k. ground (arith, parent j, once j, Repr-parent m p y j h.4)),
        ReprAround-frame c p p h.5 (λ j. ground (arith, once j))
            (λ s j k. ground (arith, child s j, once j, child-up m p c s j h.5))
            (λ j k. parent j (ground arith)),
      )
