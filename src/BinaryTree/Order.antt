-- ===== src/BinaryTree/Order.antt =====
-- The order of the keys: what the compare function has to be, and what it makes of the nodes.
use cutil.Prelude.{
  ℕ, subst, ==_iff, ◌<◌, ◌≡◌, ◌⊎◌, inl, inr, refl, Bool, true, false, not, ◌&&◌, List, [], ◌∷◌,
  ◌++◌, if◌then◌else◌, ◌==◌, Bool-cases, arith, ℤ,
}
use cutil.ListItem.Ring.{count, count-append}
use cutil.BinaryTree.{is_negative, is_positive}
use cutil.BinaryTree.Shape.{Tree, leaf, node, inorder, cells}

-- A compare function of which both answers agree, and by which keys are in a total order.
pub record IsOrder (cmp : ℕ → ℕ → ℤ) : Type 0 where
  pub greater : (a b : ℕ) → is_positive (cmp a b) ≡ is_negative (cmp b a)
  pub less_trans :
      (a b c : ℕ)
      → is_negative (cmp a b) ≡ true
      → is_negative (cmp b c) ≡ true
      → is_negative (cmp a c) ≡ true
  pub equal_less :
      (a b c : ℕ)
      → is_negative (cmp a b) ≡ false
      → is_negative (cmp b a) ≡ false
      → is_negative (cmp c b) ≡ is_negative (cmp c a)

abbrev pub equal_keys : (ℕ → ℕ → ℤ) → ℕ → ℕ → Bool
equal_keys cmp a b = not (is_negative (cmp a b)) && not (is_positive (cmp a b))

pub cells-count : (j : ℕ) (t : Tree) → cells j t ≡ count j (inorder t)
cells-count j leaf = refl
cells-count j (node l p r) =
    omega (arith, cells-count j l, cells-count j r, count-append j (inorder l) (p ∷ inorder r))

module _ (cmp : ℕ → ℕ → ℤ) (key : ℕ → ℕ) where
  -- The keys of the nodes increase.
  abbrev pub Sorted : List ℕ → Type 0
  Sorted [] = Unit
  Sorted (x ∷ xs) =
      ((j : ℕ) → 0 < count j xs → is_negative (cmp (key x) (key j)) ≡ true) × Sorted xs

  -- The first node whose key is equal to `k`, 0 if there is none.
  abbrev pub first_equal : ℕ → List ℕ → ℕ
  first_equal k [] = 0
  first_equal k (x ∷ xs) = if equal_keys cmp k (key x) then x else first_equal k xs

  pub first_equal-append :
      (k : ℕ) (xs ys : List ℕ)
      → ((j : ℕ) → 0 < count j xs → equal_keys cmp k (key j) ≡ false)
      → first_equal k (xs ++ ys) ≡ first_equal k ys
  first_equal-append k [] ys h = refl
  first_equal-append k (x ∷ xs) ys h =
      rw (h x (ground arith)) (first_equal-append k xs ys (λ j p. h j (omega arith)))

  pub first_equal-none :
      (k : ℕ) (xs ys : List ℕ)
      → ((j : ℕ) → 0 < count j ys → equal_keys cmp k (key j) ≡ false)
      → first_equal k (xs ++ ys) ≡ first_equal k xs
  first_equal-none k [] [] h = refl
  first_equal-none k [] (y ∷ ys) h =
      rw (h y (ground arith)) (first_equal-none k [] ys (λ j p. h j (omega arith)))
  first_equal-none k (x ∷ xs) ys h = elim (Bool-cases (equal_keys cmp k (key x))) [
    | inl e ↦ rw e refl
    | inr e ↦ rw e (first_equal-none k xs ys h)
  ]

  -- What it means that a sequence is sorted around one of its nodes.
  pub record Around (xs : List ℕ) (p : ℕ) (ys : List ℕ) : Type 0 where
    pub before : Sorted xs
    pub after : Sorted ys
    pub below : (j : ℕ) → 0 < count j xs → is_negative (cmp (key j) (key p)) ≡ true
    pub above : (j : ℕ) → 0 < count j ys → is_negative (cmp (key p) (key j)) ≡ true

  here : (p : ℕ) (xs ys : List ℕ) → 0 < count p (xs ++ p ∷ ys)
  here p xs ys = ground (arith, count-append p xs (p ∷ ys))

  pub around : (xs : List ℕ) (p : ℕ) (ys : List ℕ) → Sorted (xs ++ p ∷ ys) → Around xs p ys
  around [] p ys s = record {
    before = tt;
    after = s.1;
    below = λ j h. absurd (omega arith);
    above = s.0;
  }
  around (x ∷ xs) p ys s =
      let a = around xs p ys s.1 in
      record {
        before = (λ j h. s.0 j (omega (arith, count-append j xs (p ∷ ys))), a.before);
        after = a.after;
        below = λ j h. elim (Bool-cases (x == j)) [
          | inl e ↦
              subst (λ i. is_negative (cmp (key i) (key p)) ≡ true) ((==_iff x j).0 e)
                (s.0 p (here p xs ys))
          | inr e ↦ a.below j (ground arith)
        ];
        above = a.above;
      }

  member-cases :
      (j : ℕ) (xs : List ℕ) (p : ℕ) (ys : List ℕ)
      → 0 < count j (xs ++ p ∷ ys)
      → (0 < count j xs) ⊎ ((p ≡ j) ⊎ (0 < count j ys))
  member-cases j xs p ys h = ground (arith, count-append j xs (p ∷ ys))

  pub Sorted-join :
      IsOrder cmp → (xs : List ℕ) (p : ℕ) (ys : List ℕ) → Around xs p ys → Sorted (xs ++ p ∷ ys)
  Sorted-join o [] p ys a = (a.above, a.after)
  Sorted-join o (x ∷ xs) p ys a = (
    λ j h. elim (member-cases j xs p ys h) [
      | inl k ↦ a.before.0 j k
      | inr (inl k) ↦
          subst (λ i. is_negative (cmp (key x) (key i)) ≡ true) k (a.below x (ground arith))
      | inr (inr k) ↦ o.less_trans (key x) (key p) (key j) (a.below x (ground arith)) (a.above j k)
    ],
    Sorted-join o xs p ys (record {
      before = a.before.1;
      after = a.after;
      below = λ j h. a.below j (omega arith);
      above = a.above;
    }),
  )
