-- ===== src/ListItem/Ring.antt =====
-- What the `next` and `prev` links of an array mean: circular doubly linked lists of indices.
pub mod Insert
pub mod Remove
use cutil.Prelude.{
  ℕ, ◌+◌, ◌≤◌, ◌<◌, ◌≡◌, refl, ap₂, ◌≢◌, ◌∙◌, List, map, [], ◌∷◌, ◌++◌, if◌then◌else◌, ◌==◌, arith,
  ℤ, pos,
}
use cutil.ListItem.{Item, itr_end}
use cutil.ListItem.Fields.{next_of, prev_of}

-- How often an index occurs.
abbrev pub count : ℕ → List ℕ → ℕ
count j [] = 0
count j (x ∷ xs) = (if x == j then 1 else 0) + count j xs

pub count-append : (j : ℕ) (xs ys : List ℕ) → count j (xs ++ ys) ≡ count j xs + count j ys
count-append j [] ys = omega arith
count-append j (x ∷ xs) ys = omega (arith, count-append j xs ys)

abbrev pub last : ℕ → List ℕ → ℕ
last a [] = a
last a (x ∷ xs) = last x xs

pub count-last : (a : ℕ) (xs : List ℕ) → 0 < count (last a xs) (a ∷ xs)
count-last a [] = ground arith
count-last a (x ∷ xs) = omega (arith, count-last x xs)

-- In the array `t` the links lead from `a` through `xs` to `b`, and back.
abbrev pub Linked : List Item → ℕ → List ℕ → ℕ → Type 0
Linked t a [] b = (next_of t a ≡ pos b) × (prev_of t b ≡ pos a)
Linked t a (x ∷ xs) b = (next_of t a ≡ pos x) × (prev_of t x ≡ pos a) × Linked t x xs b

-- The circular list of the indices `us`, whose head is `head`.
abbrev pub Ring : List Item → List ℕ → ℤ → Type 0
Ring t [] head = head ≡ itr_end
Ring t (x ∷ xs) head = (head ≡ pos x) × Linked t x xs x

module _ (t : List Item) where
  pub Linked-last :
      (a : ℕ) (xs : List ℕ) (b : ℕ)
      → Linked t a xs b
      → (next_of t (last a xs) ≡ pos b) × (prev_of t b ≡ pos (last a xs))
  Linked-last a [] b h = h
  Linked-last a (x ∷ xs) b h = Linked-last x xs b h.2

  pub Linked-split :
      (a : ℕ) (xs : List ℕ) (y : ℕ) (ys : List ℕ) (b : ℕ)
      → Linked t a (xs ++ y ∷ ys) b
      → Linked t a xs y × Linked t y ys b
  Linked-split a [] y ys b h = ((h.0, h.1), h.2)
  Linked-split a (x ∷ xs) y ys b h = let (p, q) = Linked-split x xs y ys b h.2 in ((h.0, h.1, p), q)

  pub Linked-join :
      (a : ℕ) (xs : List ℕ) (y : ℕ) (ys : List ℕ) (b : ℕ)
      → Linked t a xs y
      → Linked t y ys b
      → Linked t a (xs ++ y ∷ ys) b
  Linked-join a [] y ys b p q = (p.0, p.1, q)
  Linked-join a (x ∷ xs) y ys b p q = (p.0, p.1, Linked-join x xs y ys b p.2 q)

module _ (t t' : List Item) where
  -- Links that keep all but the last step lead to the new end.
  pub Linked-retarget :
      (a : ℕ) (xs : List ℕ) (b c : ℕ)
      → Linked t a xs b
      → ((j : ℕ) → count j (a ∷ xs) ≤ 1)
      → next_of t' (last a xs) ≡ pos c
      → prev_of t' c ≡ pos (last a xs)
      → ((j : ℕ) → 0 < count j (a ∷ xs) → j ≢ last a xs → next_of t' j ≡ next_of t j)
      → ((j : ℕ) → 0 < count j xs → prev_of t' j ≡ prev_of t j)
      → Linked t' a xs c
  Linked-retarget a [] b c h once e f keep back = (e, f)
  Linked-retarget a (x ∷ xs) b c h once e f keep back = (
    keep a (ground arith) (λ (p : a ≡ last x xs). ground (arith, once a, count-last x xs)) ∙ h.0,
    back x (ground arith) ∙ h.1,
    Linked-retarget x xs b c h.2 (λ j. omega (arith, once j)) e f (λ j p n. keep j (omega arith) n)
        (λ j p. back j (omega arith)),
  )

  pub Linked-frame :
      (a : ℕ) (xs : List ℕ) (b : ℕ)
      → Linked t a xs b
      → prev_of t' b ≡ prev_of t b
      → ((j : ℕ) → 0 < count j (a ∷ xs) → next_of t' j ≡ next_of t j)
      → ((j : ℕ) → 0 < count j xs → prev_of t' j ≡ prev_of t j)
      → Linked t' a xs b
  Linked-frame a [] b h e keep back = (keep a (ground arith) ∙ h.0, e ∙ h.1)
  Linked-frame a (x ∷ xs) b h e keep back = (
    keep a (ground arith) ∙ h.0,
    back x (ground arith) ∙ h.1,
    Linked-frame x xs b h.2 e (λ j p. keep j (omega arith)) (λ j p. back j (omega arith)),
  )

-- The indices are pairwise different and lie below `n`.
abbrev pub Distinct : ℕ → List ℕ → Type 0
Distinct n us = (j : ℕ) → (count j us ≤ 1) × (0 < count j us → j < n)

-- The links of all indices outside `us` are the same.
abbrev pub Untouched : List ℕ → List Item → List Item → Type 0
Untouched us xs ys =
    (j : ℕ) → count j us ≡ 0 → (next_of ys j ≡ next_of xs j) × (prev_of ys j ≡ prev_of xs j)

-- Circular lists survive changes elsewhere.
pub Ring-frame :
    (t t' : List Item) (us : List ℕ) (head : ℤ)
    → Ring t us head
    → ((j : ℕ) → 0 < count j us → (next_of t' j ≡ next_of t j) × (prev_of t' j ≡ prev_of t j))
    → Ring t' us head
Ring-frame t t' [] head h same = h
Ring-frame t t' (x ∷ xs) head h same = (
  h.0,
  Linked-frame t t' x xs x h.1 ((same x (ground arith)).1) (λ j p. (same j p).0)
      (λ j p. (same j (omega arith)).1),
)

-- The head of the circular list of the indices.
abbrev pub head_of : List ℕ → ℤ
head_of [] = itr_end
head_of (x ∷ xs) = pos x

pub Ring-head : (t : List Item) (us : List ℕ) (head : ℤ) → Ring t us head → head ≡ head_of us
Ring-head t [] head h = h
Ring-head t (x ∷ xs) head h = h.0

pub last-append : (a : ℕ) (xs : List ℕ) (b : ℕ) → last a (xs ++ b ∷ []) ≡ b
last-append a [] b = refl
last-append a (x ∷ xs) b = last-append x xs b

pub map-congr {ℓ} :
    {A : Type ℓ} (f g : ℕ → A) (us : List ℕ)
    → ((j : ℕ) → 0 < count j us → f j ≡ g j)
    → map f us ≡ map g us
map-congr f g [] h = refl
map-congr f g (x ∷ xs) h =
    ap₂ ◌∷◌ (h x (ground arith)) (map-congr f g xs (λ j p. h j (omega arith)))
