-- ===== src/BinaryTree/Insert.antt =====
-- `bt_insert_node`: the place of a new node.
pub mod Search
pub mod Link
pub mod Grow
pub mod Lists
pub mod Entry
pub mod Steps
pub mod Laws
pub mod More
pub mod Add
pub mod Retrieve
use cutil.Prelude.{
  ℕ, zero, suc, subst, ◌+◌, ◌≤◌, ◌<◌, ◌≡◌, ◌⊎◌, inl, inr, refl, sym, ap, ◌∙◌, Bool, true, false,
  not, ◌&&◌, Option, none, some, List, [], ◌∷◌, ◌++◌, append_assoc, append-nil, if◌then◌else◌, ◌==◌,
  ==_iff, Bool-cases, max, arith, Result, ok, ◌>>=◌, ℤ,
}
use cutil.ListItem.Ring.{count, count-append, last, last-append}
use cutil.BinaryTree.{Side, left, right, opposite, Memory, BtT, deref, is_negative, is_positive}
use cutil.BinaryTree.Edit.{Place}
use cutil.BinaryTree.Edit.Balance.{depth}
use cutil.BinaryTree.Order.{IsOrder, equal_keys, Sorted, around, cells-count}
use cutil.BinaryTree.Rotate.Steps.{deref-ok, is_node-not_null}
use cutil.BinaryTree.Shape.{
  Tree, leaf, node, root, inorder, height, cells, join, plug, Ctx, top, under, up, cells_around,
  Focus, split, root-join, cells-join,
}
use cutil.BinaryTree.Shape.Balance.{Balanced, BalancedAround, Balanced-split, height-join}
use cutil.BinaryTree.Valid.Threads.{first}

-- The nodes before the hole and behind it, in order.
abbrev pub before : Ctx → List ℕ
before top = []
before (under left p y c) = before c
before (under right p y c) = before c ++ (inorder y ++ p ∷ [])

abbrev pub after : Ctx → List ℕ
after top = []
after (under left p y c) = p ∷ (inorder y ++ after c)
after (under right p y c) = after c

pub inorder-around : (c : Ctx) (t : Tree) → inorder (plug c t) ≡ before c ++ (inorder t ++ after c)
inorder-around top t = sym (append-nil (inorder t))
inorder-around (under left p y c) t =
    inorder-around c (node t p y)
    ∙ ap (λ xs. before c ++ xs) (append_assoc (inorder t) (p ∷ inorder y) (after c))
inorder-around (under right p y c) t = inorder-around c (node y p t) ∙ simp append_assoc

-- The last node before the hole, and the first one behind it; 0 for none.
abbrev pub predecessor : Ctx → ℕ
predecessor top = 0
predecessor (under left p y c) = predecessor c
predecessor (under right p y c) = p

abbrev pub successor : Ctx → ℕ
successor top = 0
successor (under left p y c) = p
successor (under right p y c) = successor c

pub successor-first : (c : Ctx) → successor c ≡ first (after c)
successor-first top = refl
successor-first (under left p y c) = refl
successor-first (under right p y c) = successor-first c

pub predecessor-last : (c : Ctx) → predecessor c ≡ last 0 (before c)
predecessor-last top = refl
predecessor-last (under left p y c) = predecessor-last c
predecessor-last (under right p y c) =
    sym (last-append 0 (before c ++ inorder y) p)
    ∙ ap (last 0) (append_assoc (before c) (inorder y) (p ∷ []))

abbrev pub place_side : Ctx → Side
place_side top = left
place_side (under s p y c) = s

-- The place that the hole is.
abbrev pub place_of : Ctx → Place
place_of c = record {
  parent = up c;
  side = place_side c;
  inorder_successor = successor c;
  inorder_predecessor = predecessor c;
}

-- The search for `key` has come to the subtree `t`.
pub record Looking (btree : BtT) (key : ℕ) (c : Ctx) (t : Tree) : Type 0 where
  pub focus : Focus btree.memory c t
  pub balanced : Balanced btree.memory t
  pub around : BalancedAround btree.memory c (height t)
  pub sorted : Sorted btree.kcfn btree.memory.key (inorder t)
  pub low :
      (j : ℕ) → 0 < count j (before c) → is_negative (btree.kcfn (btree.memory.key j) key) ≡ true
  pub high :
      (j : ℕ) → 0 < count j (after c) → is_negative (btree.kcfn key (btree.memory.key j)) ≡ true

pub Focus-down :
    (m : Memory) (s : Side) (c : Ctx) (x : Tree) (p : ℕ) (y : Tree)
    → Focus m c (join s x p y)
    → Focus m (under s p y c) x
Focus-down m s c x p y f =
    let h = split m (up c) s x p y f.here in
    record {
      here = h.near_tree;
      around = (h.inside, h.parent, h.near, h.far, h.far_tree, rw⁻¹ (root-join s x p y) f.around);
      once = λ j. omega (arith, f.once j, cells-join s j x p y);
    }
