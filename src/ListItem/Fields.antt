-- ===== src/ListItem/Fields.antt =====
-- Reads and writes of one field of an item at an index inside the array.
use cutil.Prelude.{
  ℕ, ◌<◌, ◌≡◌, refl, ◌∙◌, arith, Bool, false, List, [], ◌∷◌, if◌then◌else◌, ◌==◌, length, get_or,
  set, length-set, get_elem?-eq-get_or, get_or-set, ok, ℤ, pos,
}
use cutil.ListItem.{Item, blank, is_null, item_at, update_item, with_next, with_prev}

-- The item at an index, `blank` outside the array.
abbrev pub at : List Item → ℕ → Item
at xs i = get_or xs i blank

abbrev pub next_of : List Item → ℕ → ℤ
next_of xs i = (at xs i).next

abbrev pub prev_of : List Item → ℕ → ℤ
prev_of xs i = (at xs i).prev

abbrev pub used_of : List Item → ℕ → Bool
used_of xs i = (at xs i).used

abbrev pub payload_of : List Item → ℕ → ℕ
payload_of xs i = (at xs i).payload

-- The array after one item is written.
pub write : List Item → ℕ → (Item → Item) → List Item
write xs i f = set xs i (f (at xs i))

module _ (xs : List Item) (i : ℕ) (h : i < length xs) where
  pub item_at-ok : item_at xs (pos i) ≡ ok (at xs i)
  unfolding item_at
  item_at-ok = rw (get_elem?-eq-get_or xs i blank h, item_at)

  pub update_item-ok : (f : Item → Item) → update_item xs (pos i) f ≡ ok (write xs i f)
  unfolding update_item write
  update_item-ok f = rw (get_elem?-eq-get_or xs i blank h, update_item)

  pub at-write :
      (f : Item → Item) (j : ℕ) → at (write xs i f) j ≡ (if i == j then f (at xs i) else at xs j)
  unfolding write
  at-write f j = get_or-set xs i j (f (at xs i)) blank h

  pub next-write_next :
      (v : ℤ) (j : ℕ) → next_of (write xs i (with_next v)) j ≡ (if i == j then v else next_of xs j)
  next-write_next v j = ground (arith, at-write (with_next v) j)

  pub prev-write_next : (v : ℤ) (j : ℕ) → prev_of (write xs i (with_next v)) j ≡ prev_of xs j
  prev-write_next v j = ground (arith, at-write (with_next v) j)

  pub next-write_prev : (v : ℤ) (j : ℕ) → next_of (write xs i (with_prev v)) j ≡ next_of xs j
  next-write_prev v j = ground (arith, at-write (with_prev v) j)

  pub prev-write_prev :
      (v : ℤ) (j : ℕ) → prev_of (write xs i (with_prev v)) j ≡ (if i == j then v else prev_of xs j)
  prev-write_prev v j = ground (arith, at-write (with_prev v) j)

pub length-write : (xs : List Item) (i : ℕ) (f : Item → Item) → length (write xs i f) ≡ length xs
unfolding write
length-write xs i f = length-set xs i (f (at xs i))

pub is_null-false : (xs : List Item) (i : ℕ) → i < length xs → is_null xs ≡ false
is_null-false [] i h = absurd (omega arith)
is_null-false (x ∷ xs) i h = refl

-- Two arrays that differ in links only.
pub record SameData (xs ys : List Item) : Type 0 where
  pub size : length ys ≡ length xs
  pub used : (j : ℕ) → used_of ys j ≡ used_of xs j
  pub payload : (j : ℕ) → payload_of ys j ≡ payload_of xs j

pub SameData-write_next :
    {xs ys : List Item} (i : ℕ) (v : ℤ)
    → i < length ys
    → SameData xs ys
    → SameData xs (write ys i (with_next v))
SameData-write_next {ys} i v h s = record {
  size = length-write ys i (with_next v) ∙ s.size;
  used = λ j. ground (arith, at-write ys i h (with_next v) j, s.used i, s.used j);
  payload = λ j. ground (arith, at-write ys i h (with_next v) j, s.payload i, s.payload j);
}

pub SameData-write_prev :
    {xs ys : List Item} (i : ℕ) (v : ℤ)
    → i < length ys
    → SameData xs ys
    → SameData xs (write ys i (with_prev v))
SameData-write_prev {ys} i v h s = record {
  size = length-write ys i (with_prev v) ∙ s.size;
  used = λ j. ground (arith, at-write ys i h (with_prev v) j, s.used i, s.used j);
  payload = λ j. ground (arith, at-write ys i h (with_prev v) j, s.payload i, s.payload j);
}

pub SameData-refl : (xs : List Item) → SameData xs xs
SameData-refl xs = record { size = refl; used = λ j. refl; payload = λ j. refl }

pub SameData-trans : {xs ys zs : List Item} → SameData xs ys → SameData ys zs → SameData xs zs
SameData-trans s t = record {
  size = t.size ∙ s.size;
  used = λ j. t.used j ∙ s.used j;
  payload = λ j. t.payload j ∙ s.payload j;
}
