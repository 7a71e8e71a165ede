-- ===== src/HashTable.antt =====
-- src/hashtable.c: `ht_t`, its lookup and its iterators. The `htable` argument is a pointer that is
-- not NULL, as are the hash and match functions. A datum is an address, 0 for NULL. A loop over one
-- list has `count + 1` rounds of fuel.
pub mod Find
pub mod Edit
pub mod Iterate
pub mod Insert
pub mod Size
pub mod Walk
pub mod Delete
mod Witness
use cutil.Prelude.{
  ℕ, zero, suc, ◌+◌, ◌-◌, ◌%◌, Bool, true, false, not, ◌&&◌, none, some, List, ltb, ◌==◌,
  if◌then◌else◌, get_elem?, set, Result, ok, fault, out_of_fuel, ◌>>=◌, ℤ, pos, ◌==ℤ◌,
}
use cutil.ListItem.{itr_end}
use cutil.LinkedList.{
  ListT, in_range, list_count, list_itr_begin, list_itr_tail, list_itr_next, list_get,
}
use cutil.LinkedList.Edit.{list_pop}

pub record HtItr : Type 0 where
  pub idx : ℤ
  pub itr : ℤ

abbrev pub ht_itr_end : HtItr
ht_itr_end = record { idx = itr_end; itr = itr_end }

abbrev pub itr_eq : HtItr → HtItr → Bool
itr_eq i j = (i.idx ==ℤ j.idx) && (i.itr ==ℤ j.itr)

-- The load limit enters by what the code asks of it: whether a load exceeds it, the load given
-- as an integer quotient or as a count and a size.
pub record Limit : Type 0 where
  pub exceeded_by : ℕ → Bool
  pub exceeded_by_ratio : ℕ → ℕ → Bool

pub record HtT : Type 0 where
  pub hfn : ℕ → ℕ
  pub mfn : ℕ → ℕ → Bool
  pub dfn : ℕ
  pub initial : ℕ
  pub limit : Limit
  pub count : ℕ
  pub size : ℕ
  pub lists : List ListT

-- `LIST_AT(lists, i)`
pub list_at : List ListT → ℕ → Result ListT
list_at lists i = elim (get_elem? lists i) [ none ↦ fault | some l ↦ ok l ]

pub ht_count : HtT → ℕ
ht_count htable = htable.count

-- The `for` loop of `ht_find`.
pub find_in : ℕ → HtT → ListT → ℕ → ℕ → ℤ → Result HtItr
find_in zero htable l index key itr = out_of_fuel
find_in (suc fuel) htable l index key itr = if itr ==ℤ itr_end then ok ht_itr_end else do
  x ← list_get l itr
  if htable.mfn key x
      then ok (record { idx = pos index; itr = itr })
      else do itr' ← list_itr_next l itr; find_in fuel htable l index key itr'

-- `% 0` is a fault.
pub ht_find : HtT → ℕ → Result HtItr
ht_find htable key = if key == 0 then ok ht_itr_end else if htable.size == 0 then fault else do
  let index = htable.hfn key % htable.size
  l ← list_at htable.lists index
  find_in (l.count + 1) htable l index key (list_itr_begin l)

-- `htable->lists[itr.idx]`, for an index that is not negative.
pub list_of : HtT → ℤ → Result ListT
list_of htable (pos i) = list_at htable.lists i
list_of htable _ = fault

pub ht_get : HtT → HtItr → Result ℕ
ht_get htable itr =
    if itr_eq itr ht_itr_end
    then ok 0
    else if not (in_range itr.idx htable.size)
    then ok 0
    else do l ← list_of htable itr.idx; list_get l itr.itr
