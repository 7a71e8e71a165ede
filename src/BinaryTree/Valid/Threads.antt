-- ===== src/BinaryTree/Valid/Threads.antt =====
-- The threads of a tree: `next` and `prev` lead through the nodes in order.
use cutil.Prelude.{
  ℕ, Bool-cases, ==_iff, ◌+◌, ◌≤◌, ◌<◌, ◌≡◌, ◌≢◌, ◌⊎◌, inl, inr, refl, ◌∙◌, false, List, [], ◌∷◌,
  ◌++◌, if◌then◌else◌, ◌==◌, ==_refl, arith,
}
use cutil.ListItem.Ring.{count, last, count-last}
use cutil.BinaryTree.{Memory}

-- `x` comes after `a`, unless `a` is NULL.
abbrev pub Follows : Memory → ℕ → ℕ → Type 0
Follows m a x = (a ≡ 0) ⊎ (m.next a ≡ x)

-- The threads lead from `a` through `xs` to NULL, and back.
abbrev pub Threaded : Memory → ℕ → List ℕ → Type 0
Threaded m a [] = Follows m a 0
Threaded m a (x ∷ xs) = Follows m a x × (m.prev x ≡ a) × Threaded m x xs

abbrev pub first : List ℕ → ℕ
first [] = 0
first (x ∷ xs) = x

module _ (m m' : Memory) where
  pub Threaded-frame :
      (a : ℕ) (xs : List ℕ)
      → Threaded m a xs
      → ((j : ℕ) → 0 < count j (a ∷ xs) → m'.next j ≡ m.next j)
      → ((j : ℕ) → 0 < count j xs → m'.prev j ≡ m.prev j)
      → Threaded m' a xs
  Threaded-frame a [] h next prev = follow h
    where
      follow : (a ≡ 0) ⊎ (m.next a ≡ 0) → (a ≡ 0) ⊎ (m'.next a ≡ 0)
      follow (inl e) = inl e
      follow (inr e) = inr (next a (ground arith) ∙ e)
  Threaded-frame a (x ∷ xs) h next prev = (
    follow h.0,
    prev x (ground arith) ∙ h.1,
    Threaded-frame x xs h.2 (λ j k. next j (omega arith)) (λ j k. prev j (omega arith)),
  )
    where
      follow : (a ≡ 0) ⊎ (m.next a ≡ x) → (a ≡ 0) ⊎ (m'.next a ≡ x)
      follow (inl e) = inl e
      follow (inr e) = inr (next a (ground arith) ∙ e)

pub first-count : (ys : List ℕ) (j : ℕ) → first ys ≡ j → j ≢ 0 → 0 < count j ys
first-count [] j e h = absurd (omega arith)
first-count (y ∷ ys) j e h = ground arith

module _ (m m' : Memory) (n : ℕ) (some_n : n ≢ 0) where
  -- A new node before `ys`.
  Threaded-front :
      (a : ℕ) (ys : List ℕ)
      → Threaded m a ys
      → ((j : ℕ) → count j ys ≤ 1)
      → ((j : ℕ) → 0 < count j ys → m'.next j ≡ m.next j)
      → ((j : ℕ) → 0 < count j ys → m'.prev j ≡ (if first ys == j then n else m.prev j))
      → m'.next n ≡ first ys
      → Threaded m' n ys
  Threaded-front a [] h once nx pv nn = inr nn
  Threaded-front a (y ∷ ys) h once nx pv nn = (
    inr nn,
    pv y (ground arith) ∙ rw (==_refl y) refl,
    Threaded-frame m m' y ys h.2 nx (λ j k.
        let other : (y == j) ≡ false = ground (arith, once j) in
        pv j (omega arith) ∙ rw other refl),
  )

  pub Threaded-insert :
      (a : ℕ) (xs ys : List ℕ)
      → Threaded m a (xs ++ ys)
      → ((j : ℕ) → count j (a ∷ xs) + count j ys ≤ 1)
      → ((j : ℕ)
          → 0 < count j (a ∷ xs) + count j ys
          → j ≢ 0
          → m'.next j ≡ (if last a xs == j then n else m.next j))
      → ((j : ℕ)
          → 0 < count j xs + count j ys
          → (j ≢ 0) × (m'.prev j ≡ (if first ys == j then n else m.prev j)))
      → m'.next n ≡ first ys
      → m'.prev n ≡ last a xs
      → Threaded m' a (xs ++ n ∷ ys)
  Threaded-insert a [] ys h once nx pv nn pn = (
    elim (Bool-cases (a == 0)) [
      | inl e ↦ inl ((==_iff a 0).0 e)
      | inr e ↦ inr (nx a (ground arith) (ground arith) ∙ rw (==_refl a) refl)
    ],
    pn,
    Threaded-front a ys h (λ j. omega (arith, once j))
        (λ j k.
          let other : (a == j) ≡ false = ground (arith, once j) in
          nx j (omega arith) (pv j (omega arith)).0 ∙ rw other refl)
        (λ j k. (pv j (omega arith)).1) nn,
  )
  Threaded-insert a (x ∷ xs) ys h once nx pv nn pn = (
    elim (Bool-cases (a == 0)) [
      | inl e ↦ inl ((==_iff a 0).0 e)
      | inr e ↦
          let other : (last x xs == a) ≡ false = ground (arith, once a, count-last x xs) in
          elim h.0 [ inl f ↦ inl f | inr f ↦ inr (nx a (ground arith) (ground arith) ∙ rw other f) ]
    ],
    (let other : (first ys == x) ≡ false =
          ground (arith, once x, first-count ys x, (pv x (ground arith)).0) in
        (pv x (ground arith)).1 ∙ rw other h.1),
    Threaded-insert x xs ys h.2 (λ j. omega (arith, once j)) (λ j k e. nx j (omega arith) e)
        (λ j k. pv j (omega arith)) nn pn,
  )
