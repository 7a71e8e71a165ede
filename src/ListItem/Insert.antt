-- ===== src/ListItem/Insert.antt =====
-- `insert_item` runs without a fault on indices inside the array, and changes the links of the
-- neighbours alone.
use cutil.Prelude.{ℕ, ◌<◌, ◌≡◌, refl, ap, ◌∙◌, List, if◌then◌else◌, ◌==◌, length, ok, Returns, pos}
use cutil.ListItem.{Item, itr_end, with_next, with_prev, insert_alone, insert_before, insert_item}
use cutil.ListItem.Fields.{
  is_null-false, next_of, prev_of, write, item_at-ok, update_item-ok, length-write, next-write_next,
  prev-write_next, next-write_prev, prev-write_prev, SameData, SameData-write_next,
  SameData-write_prev, SameData-refl,
}

-- `n` put between `l` and `b`.
pub record Inserted (l b n : ℕ) (xs ys : List Item) : Type 0 where
  pub same : SameData xs ys
  pub next :
      (j : ℕ) → next_of ys j ≡ (if l == j then pos n else if n == j then pos b else next_of xs j)
  pub prev :
      (j : ℕ) → prev_of ys j ≡ (if b == j then pos n else if n == j then pos l else prev_of xs j)

module _ (xs : List Item) (l b n : ℕ) (hl : l < length xs) (hb : b < length xs) (hn : n < length xs)
    (e : prev_of xs b ≡ pos l) where
  x₁ : List Item
  x₁ = write xs n (with_next (pos b))

  x₂ : List Item
  unfolding x₁
  x₂ = write x₁ l (with_next (pos n))

  x₃ : List Item
  unfolding x₂
  x₃ = write x₂ n (with_prev (pos l))

  x₄ : List Item
  unfolding x₃
  x₄ = write x₃ b (with_prev (pos n))

  length-x₁ : length x₁ ≡ length xs
  unfolding x₁
  length-x₁ = length-write xs n (with_next (pos b))

  length-x₂ : length x₂ ≡ length xs
  unfolding x₂
  length-x₂ = rw length-write length-x₁

  length-x₃ : length x₃ ≡ length xs
  unfolding x₃
  length-x₃ = rw length-write length-x₂

  prev-x₁ : prev_of x₁ b ≡ pos l
  unfolding x₁
  prev-x₁ = prev-write_next xs n hn (pos b) b ∙ e

  prev-x₂ : prev_of x₂ b ≡ pos l
  unfolding x₂
  prev-x₂ = prev-write_next x₁ l (rw length-x₁ hl) (pos n) b ∙ prev-x₁

  insert_before-ok : insert_before xs (pos b) (pos n) ≡ ok (pos b, x₄)
  unfolding insert_before x₄
  insert_before-ok = rw (
    update_item-ok xs n hn (with_next (pos b)),
    item_at-ok x₁ b (rw length-x₁ hb),
    prev-x₁,
    update_item-ok x₁ l (rw length-x₁ hl) (with_next (pos n)),
    item_at-ok x₂ b (rw length-x₂ hb),
    prev-x₂,
    update_item-ok x₂ n (rw length-x₂ hn) (with_prev (pos l)),
    update_item-ok x₃ b (rw length-x₃ hb) (with_prev (pos n)),
  )

  next-x₄ :
      (j : ℕ) → next_of x₄ j ≡ (if l == j then pos n else if n == j then pos b else next_of xs j)
  unfolding x₄
  next-x₄ j =
      next-write_prev x₃ b (rw length-x₃ hb) (pos n) j
      ∙ next-write_prev x₂ n (rw length-x₂ hn) (pos l) j
      ∙ next-write_next x₁ l (rw length-x₁ hl) (pos n) j
      ∙ ap (λ v. if l == j then pos n else v) (next-write_next xs n hn (pos b) j)

  prev-x₄ :
      (j : ℕ) → prev_of x₄ j ≡ (if b == j then pos n else if n == j then pos l else prev_of xs j)
  unfolding x₄
  prev-x₄ j =
      prev-write_prev x₃ b (rw length-x₃ hb) (pos n) j
      ∙ ap (λ v. if b == j then pos n else v)
          (prev-write_prev x₂ n (rw length-x₂ hn) (pos l) j
            ∙ ap (λ v. if n == j then pos l else v)
                (prev-write_next x₁ l (rw length-x₁ hl) (pos n) j
                  ∙ prev-write_next xs n hn (pos b) j))

  same-x₄ : SameData xs x₄
  unfolding x₄
  same-x₄ = SameData-write_prev b (pos n) (rw length-x₃ hb) (
      SameData-write_prev n (pos l) (rw length-x₂ hn) (
        SameData-write_next l (pos n) (rw length-x₁ hl)
          (SameData-write_next n (pos b) hn (SameData-refl xs))))

  pub insert_item-Inserted :
      Returns (insert_item xs (pos b) (pos n)) λ r. (r.0 ≡ pos b) × Inserted l b n xs r.1
  unfolding insert_item
  insert_item-Inserted = (
    (pos b, x₄),
    rw (is_null-false xs b hb) insert_before-ok,
    (refl, record { same = same-x₄; next = next-x₄; prev = prev-x₄ }),
  )

-- `n` alone in its list.
pub record InsertedAlone (n : ℕ) (xs ys : List Item) : Type 0 where
  pub same : SameData xs ys
  pub next : (j : ℕ) → next_of ys j ≡ (if n == j then pos n else next_of xs j)
  pub prev : (j : ℕ) → prev_of ys j ≡ (if n == j then pos n else prev_of xs j)

pub insert_item-InsertedAlone :
    (xs : List Item) (n : ℕ)
    → n < length xs
    → Returns (insert_item xs itr_end (pos n)) λ r. (r.0 ≡ pos n) × InsertedAlone n xs r.1
unfolding insert_item insert_alone
insert_item-InsertedAlone xs n h =
    let y = write xs n (with_prev (pos n)) in
    let h' : n < length y = rw (length-write xs n (with_prev (pos n))) h in
    (
      (pos n, write y n (with_next (pos n))),
      rw (
        is_null-false xs n h,
        update_item-ok xs n h (with_prev (pos n)),
        update_item-ok y n h' (with_next (pos n)),
      ),
      (
        refl,
        record {
          same =
              SameData-write_next n (pos n) h' (SameData-write_prev n (pos n) h (SameData-refl xs));
          next = λ j.
              next-write_next y n h' (pos n) j
              ∙ ap (λ v. if n == j then pos n else v) (next-write_prev xs n h (pos n) j);
          prev = λ j. prev-write_next y n h' (pos n) j ∙ prev-write_prev xs n h (pos n) j;
        },
      ),
    )
