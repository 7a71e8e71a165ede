-- ===== src/LinkedList/Take.antt =====
-- The slots that change hands: an item taken off the free list and filled.
use cutil.Prelude.{
  ℕ, ◌<◌, ◌≡◌, ◌∙◌, Bool, List, [], ◌∷◌, ◌==◌, if◌then◌else◌, length, arith, Returns, ℤ, pos, ◌>>=◌,
  Result,
}
use cutil.ListItem.{Item, remove_item, update_item}
use cutil.ListItem.Fields.{
  next_of, prev_of, used_of, payload_of, write, update_item-ok, at-write, length-write, SameData,
}
use cutil.ListItem.Ring.{Ring, Ring-frame}
use cutil.ListItem.Ring.Remove.{remove_item-single, remove_item-head}
use cutil.LinkedList.{ListT, with_payload, with_used}
use cutil.LinkedList.Valid.{IsValid, free-Distinct}

-- The item `f` holds the value `v` and the mark `u`; all else is as before.
pub record Filled (f v : ℕ) (u : Bool) (xs ys : List Item) : Type 0 where
  pub size : length ys ≡ length xs
  pub next : (j : ℕ) → next_of ys j ≡ next_of xs j
  pub prev : (j : ℕ) → prev_of ys j ≡ prev_of xs j
  pub used : (j : ℕ) → used_of ys j ≡ (if f == j then u else used_of xs j)
  pub payload : (j : ℕ) → payload_of ys j ≡ (if f == j then v else payload_of xs j)

pub filled : List Item → ℕ → ℕ → Bool → List Item
filled xs f v u = write (write xs f (with_payload v)) f (with_used u)

module _ (xs : List Item) (f v : ℕ) (u : Bool) (h : f < length xs) where
  h' : f < length (write xs f (with_payload v))
  h' = rw length-write h

  pub fill-ok :
      {B : Type 0} (k : List Item → Result B)
      → (update_item xs (pos f) (with_payload v)
          >>= (λ y. update_item y (pos f) (with_used u) >>= k))
        ≡ k (filled xs f v u)
  unfolding filled
  fill-ok k = rw (update_item-ok xs f h (with_payload v), update_item-ok _ f h' (with_used u))

  pub filled-Filled : Filled f v u xs (filled xs f v u)
  unfolding filled
  filled-Filled =
      let y = write xs f (with_payload v) in
      let a = at-write xs f h (with_payload v) in
      let b = at-write y f h' (with_used u) in
      record {
        size = length-write y f (with_used u) ∙ length-write xs f (with_payload v);
        next = λ j. ground (arith, b j, a j, a f);
        prev = λ j. ground (arith, b j, a j, a f);
        used = λ j. ground (arith, b j, a j, a f);
        payload = λ j. ground (arith, b j, a j, a f);
      }

pub Ring-Filled :
    {f v : ℕ} {u : Bool} {xs ys : List Item} (us : List ℕ) (head : ℤ)
    → Filled f v u xs ys
    → Ring xs us head
    → Ring ys us head
Ring-Filled {xs} {ys} us head w h = Ring-frame xs ys us head h (λ j p. (w.next j, w.prev j))

-- The first free item leaves the free list.
pub remove_free :
    {l : ListT} {us : List ℕ} (f : ℕ) (fs : List ℕ)
    → IsValid l us (f ∷ fs)
    → Returns
        (remove_item l.items (pos f))
        λ r. SameData l.items r.1 × Ring r.1 fs r.0 × Ring r.1 us l.used_head
remove_free {l} {us} f [] v =
    let (r, run, (e, same, away)) =
      remove_item-single l.items f v.free.1 ((free-Distinct v f).1 (ground arith)) in
    (
      r,
      run,
      (
        same,
        e,
        Ring-frame l.items r.1 us l.used_head v.used (λ j p. away j (ground (arith, v.owned j))),
      ),
    )
remove_free {l} {us} f (z ∷ zs) v =
    let (r, run, (e, same, ring, away)) =
      remove_item-head l.items f z zs v.free.1 (free-Distinct v) in
    (
      r,
      run,
      (
        same,
        (e, ring),
        Ring-frame l.items r.1 us l.used_head v.used (λ j p. away j (ground (arith, v.owned j))),
      ),
    )
