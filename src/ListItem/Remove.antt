-- ===== src/ListItem/Remove.antt =====
-- `remove_item` runs without a fault on indices inside the array, and changes the links of the
-- neighbours alone.
use cutil.Prelude.{
  ℕ, ◌<◌, ◌≡◌, ◌≢◌, refl, ap, ◌∙◌, List, if◌then◌else◌, ◌==◌, ==_refl, ne→==_false, arith, length,
  Result, ok, ◌>>=◌, Returns, pos,
}
use cutil.ListItem.{Item, itr_end, update_item, with_next, with_prev, unlink, remove_item}
use cutil.ListItem.Fields.{
  is_null-false, next_of, prev_of, write, item_at-ok, update_item-ok, length-write, next-write_next,
  prev-write_next, next-write_prev, prev-write_prev, SameData, SameData-write_next,
  SameData-write_prev, SameData-refl, SameData-trans,
}

-- `i` taken out from between `p` and `s`.
pub record Removed (p i s : ℕ) (xs ys : List Item) : Type 0 where
  pub same : SameData xs ys
  pub next :
      (j : ℕ) → next_of ys j ≡ (if i == j then itr_end else if p == j then pos s else next_of xs j)
  pub prev :
      (j : ℕ) → prev_of ys j ≡ (if i == j then itr_end else if s == j then pos p else prev_of xs j)

-- `i`, which was alone in its list, taken out.
pub record RemovedAlone (i : ℕ) (xs ys : List Item) : Type 0 where
  pub same : SameData xs ys
  pub next : (j : ℕ) → next_of ys j ≡ (if i == j then itr_end else next_of xs j)
  pub prev : (j : ℕ) → prev_of ys j ≡ (if i == j then itr_end else prev_of xs j)

-- The last two writes of `remove_item`.
cleared : List Item → ℕ → List Item
cleared xs i = write (write xs i (with_next itr_end)) i (with_prev itr_end)

module _ (xs : List Item) (i : ℕ) (h : i < length xs) where
  h' : i < length (write xs i (with_next itr_end))
  h' = rw length-write h

  clear_links-ok :
      {B : Type 0} (f : List Item → Result B)
      → (update_item xs (pos i) (with_next itr_end)
          >>= (λ y. update_item y (pos i) (with_prev itr_end) >>= f))
        ≡ f (cleared xs i)
  unfolding cleared
  clear_links-ok f =
      rw (update_item-ok xs i h (with_next itr_end), update_item-ok _ i h' (with_prev itr_end))

  cleared-RemovedAlone : RemovedAlone i xs (cleared xs i)
  unfolding cleared
  cleared-RemovedAlone =
      let y = write xs i (with_next itr_end) in
      record {
        same =
            SameData-write_prev i itr_end h' (SameData-write_next i itr_end h (SameData-refl xs));
        next = λ j. next-write_prev y i h' itr_end j ∙ next-write_next xs i h itr_end j;
        prev = λ j.
            prev-write_prev y i h' itr_end j
            ∙ ap (λ v. if i == j then itr_end else v) (prev-write_next xs i h itr_end j);
      }

  -- `remove_item` on the only item of a list.
  pub remove_item-RemovedAlone :
      next_of xs i ≡ pos i
      → Returns (remove_item xs (pos i)) λ r. (r.0 ≡ itr_end) × RemovedAlone i xs r.1
  unfolding remove_item
  remove_item-RemovedAlone e = (
    (itr_end, cleared xs i),
    rw (is_null-false xs i h, item_at-ok xs i h, e, ==_refl i)
        (clear_links-ok λ y. ok (itr_end, y)),
    (refl, cleared-RemovedAlone),
  )

module _ (xs : List Item) (p i s : ℕ) (hp : p < length xs) (hi : i < length xs) (hs : s < length xs)
    (en : next_of xs i ≡ pos s) (ep : prev_of xs i ≡ pos p) (pi : p ≢ i) (si : s ≢ i) where
  u₁ : List Item
  u₁ = write xs p (with_next (pos s))

  u₂ : List Item
  unfolding u₁
  u₂ = write u₁ s (with_prev (pos p))

  length-u₁ : length u₁ ≡ length xs
  unfolding u₁
  length-u₁ = length-write xs p (with_next (pos s))

  length-u₂ : length u₂ ≡ length xs
  unfolding u₂
  length-u₂ = rw length-write length-u₁

  next-u₁ : next_of u₁ i ≡ pos s
  unfolding u₁
  next-u₁ = ground (arith, next-write_next xs p hp (pos s) i)

  prev-u₁ : prev_of u₁ i ≡ pos p
  unfolding u₁
  prev-u₁ = prev-write_next xs p hp (pos s) i ∙ ep

  unlink-ok : unlink xs (pos i) ≡ ok (pos s, u₂)
  unfolding unlink u₂
  unlink-ok = rw (
    item_at-ok xs i hi,
    en,
    ep,
    update_item-ok xs p hp (with_next (pos s)),
    item_at-ok u₁ i (rw length-u₁ hi),
    next-u₁,
    prev-u₁,
    update_item-ok u₁ s (rw length-u₁ hs) (with_prev (pos p)),
  )

  same-u₂ : SameData xs u₂
  unfolding u₂ u₁
  same-u₂ =
      SameData-write_prev s (pos p) (rw length-u₁ hs)
        (SameData-write_next p (pos s) hp (SameData-refl xs))

  next-u₂ : (j : ℕ) → next_of u₂ j ≡ (if p == j then pos s else next_of xs j)
  unfolding u₂ u₁
  next-u₂ j = next-write_prev u₁ s (rw length-u₁ hs) (pos p) j ∙ next-write_next xs p hp (pos s) j

  prev-u₂ : (j : ℕ) → prev_of u₂ j ≡ (if s == j then pos p else prev_of xs j)
  unfolding u₂ u₁
  prev-u₂ j =
      prev-write_prev u₁ s (rw length-u₁ hs) (pos p) j
      ∙ ap (λ v. if s == j then pos p else v) (prev-write_next xs p hp (pos s) j)

  unlinked-Removed : Removed p i s xs (cleared u₂ i)
  unlinked-Removed =
      let r = cleared-RemovedAlone u₂ i (rw length-u₂ hi) in
      record {
        same = SameData-trans same-u₂ r.same;
        next = λ j. r.next j ∙ ap (λ v. if i == j then itr_end else v) (next-u₂ j);
        prev = λ j. r.prev j ∙ ap (λ v. if i == j then itr_end else v) (prev-u₂ j);
      }

  -- `remove_item` on an item with neighbours.
  pub remove_item-Removed :
      Returns (remove_item xs (pos i)) λ r. (r.0 ≡ pos s) × Removed p i s xs r.1
  unfolding remove_item
  remove_item-Removed = (
    (pos s, cleared u₂ i),
    rw
        (
          is_null-false xs i hi,
          item_at-ok xs i hi,
          en,
          ep,
          ne→==_false s i si,
          ne→==_false p i pi,
          unlink-ok,
        )
        (clear_links-ok u₂ i (rw length-u₂ hi) λ y. ok (pos s, y)),
    (refl, unlinked-Removed),
  )
