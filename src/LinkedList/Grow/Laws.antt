-- ===== src/LinkedList/Grow/Laws.antt =====
-- What a caller of `list_grow` may rely on: the list stays valid, with the same contents and room.
use cutil.Prelude.{
  ℕ, ◌+◌, ◌*◌, ◌^◌, ◌≤◌, ◌<◌, ◌≡◌, refl, ap, ◌∙◌, Bool, true, false, List, [], ◌==◌, length,
  length-replicate, get_or-replicate, replicate, arith, ok, Returns,
}
use cutil.ListItem.{Item, blank, itr_end}
use cutil.LinkedList.{ListT, init_free, list_grow}
use cutil.LinkedList.Iterate.{list_itr_begin-head}
use cutil.LinkedList.Grow.{init_free-AllFree, shape, move_items-Moved}
use cutil.LinkedList.Grow.Size.{grow_size-bounds}
use cutil.LinkedList.Valid.{IsValid, contents}

fresh-IsValid :
    (n : ℕ)
    → n < 2 ^ 64
    → Returns
        (init_free n 0 itr_end (replicate n blank))
        λ r. (fs : List ℕ) × IsValid (shape n r.1 itr_end r.0 0) [] fs
fresh-IsValid n fits =
    let len = length-replicate n blank in
    let (r, run, (fs, all)) =
      init_free-AllFree n 0 itr_end (replicate n blank) [] refl (λ j. ground arith) refl
        (omega (arith, len)) in
    (
      r,
      run,
      (
        fs,
        record {
          slots = all.same.size ∙ len;
          counted = refl;
          total = omega (arith, all.many, len);
          fits = fits;
          used = refl;
          free = all.ring;
          owned = λ j. ground (arith, all.each j, len);
          flagged = λ j. all.same.used j ∙ ap (λ (x : Item). x.used) (get_or-replicate n j blank);
        },
      ),
    )

-- `l'` holds what `l` holds, in an array with room for `amount` more.
pub record Grown (l : ListT) (us : List ℕ) (amount : ℕ) (l' : ListT) (us' fs' : List ℕ)
    : Type 0 where
  pub valid : IsValid l' us' fs'
  pub same : contents l' us' ≡ contents l us
  pub room : l.size + amount ≤ l'.size
  pub not_too_big : l'.size < 2 * (l.size + amount)
  pub many : length us' ≡ length us
  pub dfn : l'.dfn ≡ l.dfn

module _ (l : ListT) (us fs : List ℕ) (v : IsValid l us fs) (amount : ℕ) (pos_amount : 0 < amount)
    (small : l.size + amount ≤ 2 ^ 63) where
  amount_not_zero : (amount == 0) ≡ false
  amount_not_zero = ground arith

  -- When CALLOC succeeds, list_grow of a valid list by a positive amount, to at most 2^63 slots in
  -- all, returns TRUE and a valid list with the same contents and number of items, the same delete
  -- function, room for that many more items, and fewer than twice as many slots as that.
  pub list_grow-Grown :
      Returns
        (list_grow true l amount)
        λ r. (r.0 ≡ true) × (us' : List ℕ) × (fs' : List ℕ) × Grown l us amount r.1 us' fs'
  unfolding list_grow
  list_grow-Grown =
      let (n, run₁, (low, high)) = grow_size-bounds l.size amount pos_amount small in
      let (r, run₂, (gs, w)) = fresh-IsValid n (omega arith) in
      let (q, run₃, (us', fs', m)) =
        move_items-Moved (l.count + 1) l [] us fs n r.1 itr_end r.0 [] gs v w refl refl
          (omega (arith, v.total)) (omega (arith, v.counted)) in
      (
        (true, record l { size = n; used_head = q.0; free_head = q.1; items = q.2 }),
        rw (amount_not_zero, run₁, run₂, list_itr_begin-head v, run₃),
        (
          refl,
          us',
          fs',
          record {
            valid = record {
              slots = m.valid.slots;
              counted = m.many ∙ v.counted;
              total = m.valid.total;
              fits = m.valid.fits;
              used = m.valid.used;
              free = m.valid.free;
              owned = m.valid.owned;
              flagged = m.valid.flagged;
            };
            same = m.values;
            room = low;
            not_too_big = high;
            many = m.many;
            dfn = refl;
          },
        ),
      )

  -- Where the allocation fails, `list_grow` says so and changes nothing.
  pub list_grow-no_memory : list_grow false l amount ≡ ok (false, l)
  unfolding list_grow
  list_grow-no_memory =
      let (n, run, b) = grow_size-bounds l.size amount pos_amount small in rw (amount_not_zero, run)

-- A growth by zero does nothing.
pub list_grow-zero : (alloc : Bool) (l : ListT) → list_grow alloc l 0 ≡ ok (true, l)
unfolding list_grow
list_grow-zero alloc l = refl
