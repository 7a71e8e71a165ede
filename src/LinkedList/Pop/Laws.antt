-- ===== src/LinkedList/Pop/Laws.antt =====
-- What a caller of `list_pop` may rely on.
use cutil.Prelude.{
  ℕ, ◌<◌, ◌≡◌, ◌∙◌, false, List, [], ◌∷◌, ◌++◌, map-append, ltb, ◌==◌, length, append-nil, arith,
  ok, fault, Returns, pos, Bool-cases, inl, inr, lt→ltb, ltb→lt,
}
use cutil.ListItem.{itr_end, item_at}
use cutil.ListItem.Fields.{payload_of, item_at-ok}
use cutil.ListItem.Ring.{count, count-append, head_of, map-congr}
use cutil.LinkedList.{ListT}
use cutil.LinkedList.Iterate.{item-used, used_mark, size_not_zero, list_itr_tail-last}
use cutil.LinkedList.Iterate.Walk.{last_of-append}
use cutil.LinkedList.Edit.{take_out, list_pop}
use cutil.LinkedList.Valid.{IsValid, contents}
use cutil.LinkedList.Pop.{Popped, take_out-Popped}

contents-Popped :
    {l l' : ListT} (ys : List ℕ) (b : ℕ) (zs : List ℕ) {fs : List ℕ}
    → IsValid l (ys ++ b ∷ zs) fs
    → Popped l ys b zs fs l'
    → contents l' (ys ++ zs) ≡ contents l ys ++ contents l zs
contents-Popped {l} {l'} ys b zs v p =
    map-congr (payload_of l'.items) (payload_of l.items) (ys ++ zs) (λ j h.
      ground (arith, p.payload j, v.owned j, count-append j ys (b ∷ zs), count-append j ys zs))
    ∙ map-append _ ys zs

module _ (l : ListT) (ys : List ℕ) (b : ℕ) (zs fs : List ℕ) (v : IsValid l (ys ++ b ∷ zs) fs) where
  b_used : 0 < count b (ys ++ b ∷ zs)
  b_used = ground (arith, count-append b ys (b ∷ zs))

  b-lt : b < l.size
  b-lt = ground (arith, v.owned b, b_used)

  list_pop-take_out : list_pop l (pos b) ≡ take_out l (pos b) (pos b)
  unfolding list_pop
  list_pop-take_out =
      rw
        (size_not_zero v b b_used, lt→ltb b l.size b-lt, item-used v b b_used, used_mark v b b_used)

  -- In a valid list, list_pop at the iterator of an item returns the iterator of the next item in
  -- the circle (the head's for the tail, list_itr_end for the only item) and a valid list whose
  -- contents lack that item's value alone.
  pub list_pop-at : Returns (list_pop l (pos b)) λ r.
      (r.0 ≡ head_of (zs ++ ys))
      × IsValid r.1 (ys ++ zs) (fs ++ b ∷ [])
      × (contents r.1 (ys ++ zs) ≡ contents l ys ++ contents l zs)
  list_pop-at =
      let (r, run, (e, p)) = take_out-Popped l ys b zs fs v (pos b) in
      (r, list_pop-take_out ∙ run, (e, p.valid, contents-Popped ys b zs v p))

-- In a valid list that is not empty, list_pop with list_itr_end returns list_itr_end and a valid
-- list whose contents lack the last value alone.
pub list_pop-tail :
    (l : ListT) (ys : List ℕ) (b : ℕ) (fs : List ℕ)
    → IsValid l (ys ++ b ∷ []) fs
    → Returns
        (list_pop l itr_end)
        λ r. (r.0 ≡ itr_end) × IsValid r.1 ys (fs ++ b ∷ []) × (contents r.1 ys ≡ contents l ys)
unfolding list_pop
list_pop-tail l ys b fs v =
    let h = b_used l ys b [] fs v in
    let (r, run, (e, p)) = take_out-Popped l ys b [] fs v itr_end in
    (
      r,
      rw
          (
            size_not_zero v b h,
            list_itr_tail-last v,
            last_of-append ys b,
            item-used v b h,
            used_mark v b h,
          )
          run,
      (e, rw append-nil at p.valid, simp append-nil at (contents-Popped ys b [] v p)),
    )

-- list_pop at an index that is no item of a valid list, outside the array or in a free slot,
-- returns list_itr_end and changes nothing.
pub list_pop-stale :
    (l : ListT) (us fs : List ℕ) (i : ℕ)
    → IsValid l us fs
    → count i us ≡ 0
    → list_pop l (pos i) ≡ ok (itr_end, l)
unfolding list_pop
list_pop-stale l us fs i v h = elim (Bool-cases (ltb i l.size)) [
  | inr out ↦ rw out (ground arith)
  | inl inside ↦
      let z : (l.size == 0) ≡ false = ground arith in
      let lt : i < length l.items = rw v.slots (ltb→lt i l.size inside) in
      rw (inside, z, item_at-ok l.items i lt, v.flagged i, h)
]

-- list_pop with list_itr_end on a valid list that has slots but no items faults: it reads the item
-- at index -1.
pub list_pop-empty :
    (l : ListT) (fs : List ℕ) → IsValid l [] fs → 0 < l.size → list_pop l itr_end ≡ fault
unfolding list_pop item_at
list_pop-empty l fs v h =
    let e : (l.size == 0) ≡ false = ground arith in rw (e, list_itr_tail-last v)
