-- ===== src/HashTable/Iterate.antt =====
-- The iterators of src/hashtable.c, over the lists in order and over the items of each.
use cutil.Prelude.{
  ℕ, zero, suc, ◌+◌, ◌-◌, not, ltb, ◌==◌, if◌then◌else◌, Result, ok, ◌>>=◌, ℤ, pos, negsuc, ◌==ℤ◌,
}
use cutil.ListItem.{itr_end}
use cutil.LinkedList.{
  ListT, list_count, list_itr_begin, list_itr_tail, list_itr_next, list_itr_rnext,
}
use cutil.HashTable.{HtItr, ht_itr_end, HtT, list_at, list_of}

-- From index `i` on, the first list that is not empty, at the size of the table if there is none;
-- the first argument counts the lists left.
unfoldable pub first_list : ℕ → HtT → ℕ → Result ℕ
first_list zero htable i = ok i
first_list (suc left) htable i = do
  l ← list_at htable.lists i
  if list_count l == 0 then first_list left htable (i + 1) else ok i

-- Below index `i`, the last list that is not empty.
pub last_list : HtT → ℕ → Result ℤ
last_list htable zero = ok (negsuc 0)
last_list htable (suc i) = do
  l ← list_at htable.lists i
  if list_count l == 0 then last_list htable i else ok (pos i)

-- An iterator at the first item of list `i`, or at the end.
unfoldable pub begin_of : HtT → ℕ → Result HtItr
begin_of htable i =
    if not (ltb i htable.size)
    then ok ht_itr_end
    else do l ← list_at htable.lists i; ok (record { idx = pos i; itr = list_itr_begin l })

-- An iterator at the last item of a list, or at the end.
pub rbegin_of : HtT → ℤ → Result HtItr
rbegin_of htable (negsuc i) = ok ht_itr_end
rbegin_of htable (pos i) = do
  l ← list_at htable.lists i
  tail ← list_itr_tail l
  ok (record { idx = pos i; itr = tail })

unfoldable pub ht_itr_begin : HtT → Result HtItr
ht_itr_begin htable =
    if not (ltb 0 htable.size)
    then ok ht_itr_end
    else if not (ltb 0 htable.count)
    then ok ht_itr_end
    else do i ← first_list htable.size htable 0; begin_of htable i

pub ht_itr_rbegin : HtT → Result HtItr
ht_itr_rbegin htable =
    if not (ltb 0 htable.size)
    then ok ht_itr_end
    else if not (ltb 0 htable.count)
    then ok ht_itr_end
    else do i ← last_list htable htable.size; rbegin_of htable i

-- The scans of `ht_itr_next` and `ht_itr_rnext` for another list. `ret.idx < htable->size` compares
-- numbers without a sign, so that an index below -1 is no less than the size.
unfoldable pub next_list : HtT → ℤ → Result ℕ
next_list htable (pos i) = first_list (htable.size - (i + 1)) htable (i + 1)
next_list htable (negsuc zero) = first_list htable.size htable 0
next_list htable (negsuc (suc i)) = ok htable.size

pub previous_list : HtT → ℤ → Result ℤ
previous_list htable (pos i) = last_list htable i
previous_list htable (negsuc i) = ok (negsuc (suc i))

-- The call of the list's iterator function, which does not read the list at the end.
unfoldable pub advance : (ListT → ℤ → Result ℤ) → HtT → HtItr → Result ℤ
advance step htable itr =
    if itr.itr ==ℤ itr_end then ok itr_end else do l ← list_of htable itr.idx; step l itr.itr

unfoldable pub ht_itr_next : HtT → HtItr → Result HtItr
ht_itr_next htable itr = do
  itr' ← advance list_itr_next htable itr
  if not (itr' ==ℤ itr_end)
      then ok (record itr { itr = itr' })
      else do i ← next_list htable itr.idx; begin_of htable i

pub ht_itr_rnext : HtT → HtItr → Result HtItr
ht_itr_rnext htable itr = do
  itr' ← advance list_itr_rnext htable itr
  if not (itr' ==ℤ itr_end)
      then ok (record itr { itr = itr' })
      else do i ← previous_list htable itr.idx; rbegin_of htable i
