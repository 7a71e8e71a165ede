-- ===== src/LinkedList/Iterate.antt =====
-- The iterators of a valid list go through its items in order, forwards and backwards.
pub mod Walk
use cutil.Prelude.{
  ℕ, zero, suc, ◌+◌, ◌≤◌, ◌<◌, ◌≡◌, ◌≢◌, refl, sym, ap, ◌∙◌, true, false, List, [], ◌∷◌, ◌++◌, ltb,
  ◌==◌, length, get_or, arith, ok, out_of_fuel, ℤ, pos, ◌==ℤ◌, ◌>>=◌, Result, lt→ltb, ne→==_false,
  ==_refl, if◌then◌else◌,
}
use cutil.ListItem.{blank, itr_end, item_at}
use cutil.ListItem.Fields.{next_of, prev_of, used_of, payload_of, item_at-ok}
use cutil.ListItem.Ring.{
  count, count-append, count-last, last, Ring, Linked, head_of, Linked-last, Linked-split,
}
use cutil.LinkedList.{ListT, list_itr_begin, list_itr_tail, list_itr_next, list_itr_rnext, list_get}
use cutil.LinkedList.Valid.{IsValid, contents}

abbrev pub last_of : List ℕ → ℤ
last_of [] = itr_end
last_of (x ∷ xs) = pos (last x xs)

module _ {l : ListT} {us fs : List ℕ} (v : IsValid l us fs) (i : ℕ) (h : 0 < count i us) where
  pub used-lt : i < length l.items
  used-lt = ground (arith, v.owned i, v.slots)

  pub item-used : item_at l.items (pos i) ≡ ok (get_or l.items i blank)
  item-used = item_at-ok l.items i used-lt

  pub used_mark : used_of l.items i ≡ true
  used_mark = v.flagged i ∙ lt→ltb 0 _ h

  pub size_not_zero : (l.size == 0) ≡ false
  size_not_zero = ground (arith, v.owned i)

  -- `list_get` at an item of the list.
  pub list_get-payload : list_get l (pos i) ≡ ok (payload_of l.items i)
  unfolding list_get
  list_get-payload =
      rw (size_not_zero, lt→ltb i l.size (ground (arith, v.owned i)), item-used, used_mark)

pub list_itr_begin-head :
    {l : ListT} {us fs : List ℕ} → IsValid l us fs → list_itr_begin l ≡ head_of us
unfolding list_itr_begin
list_itr_begin-head {l} {us = []} v = ground (arith, v.counted)
list_itr_begin-head {l} {us = x ∷ us} v =
    let e : (l.count == 0) ≡ false = ground (arith, v.counted) in rw e v.used.0

pub list_itr_tail-last :
    {l : ListT} {us fs : List ℕ} → IsValid l us fs → list_itr_tail l ≡ ok (last_of us)
unfolding list_itr_tail
list_itr_tail-last {l} {us = []} v =
    let e : (l.count == 0) ≡ true = ground (arith, v.counted) in rw e
list_itr_tail-last {l} {us = x ∷ us} v =
    let e : (l.count == 0) ≡ false = ground (arith, v.counted) in
    rw (e, v.used.0, item-used v x (ground arith), (Linked-last l.items x us x v.used.1).1)

list_itr_next-Linked :
    (l : ListT) (i : ℕ) (zs : List ℕ) (h : ℕ)
    → Linked l.items i zs h
    → l.used_head ≡ pos h
    → count h zs ≡ 0
    → i < length l.items
    → list_itr_next l (pos i) ≡ ok (head_of zs)
unfolding list_itr_next
list_itr_next-Linked l i [] h links e out lt = rw (item_at-ok l.items i lt, links.0, e, ==_refl h)
list_itr_next-Linked l i (z ∷ zs) h links e out lt =
    let zh : (z == h) ≡ false = ground arith in rw (item_at-ok l.items i lt, links.0, e, zh)

-- The next item, or the end behind the tail.
pub list_itr_next-at :
    {l : ListT} (ys : List ℕ) (i : ℕ) (zs : List ℕ) {fs : List ℕ}
    → IsValid l (ys ++ i ∷ zs) fs
    → list_itr_next l (pos i) ≡ ok (head_of zs)
list_itr_next-at {l} [] i zs v =
    list_itr_next-Linked l i zs i v.used.1 v.used.0 (ground (arith, v.owned i))
      (used-lt v i (ground arith))
list_itr_next-at {l} (x ∷ ys) i zs v =
    let c = λ (j : ℕ). count-append j (x ∷ ys) (i ∷ zs) in
    list_itr_next-Linked l i zs x (Linked-split l.items x ys i zs x v.used.1).1 v.used.0
      (ground (arith, v.owned x, c x)) (used-lt v i (ground (arith, c i)))

-- The item before, or the end in front of the head.
pub list_itr_rnext-at :
    {l : ListT} (ys : List ℕ) (i : ℕ) (zs : List ℕ) {fs : List ℕ}
    → IsValid l (ys ++ i ∷ zs) fs
    → list_itr_rnext l (pos i) ≡ ok (last_of ys)
unfolding list_itr_rnext
list_itr_rnext-at {l} [] i zs v = rw (v.used.0, ==_refl i)
list_itr_rnext-at {l} (x ∷ ys) i zs v =
    let c = λ (j : ℕ). count-append j (x ∷ ys) (i ∷ zs) in
    let ix : (i == x) ≡ false = ground (arith, v.owned i, c i) in
    rw (
      v.used.0,
      ix,
      item-used v i (ground (arith, c i)),
      (Linked-last l.items x ys i (Linked-split l.items x ys i zs x v.used.1).0).1,
    )
