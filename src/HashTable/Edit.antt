-- ===== src/HashTable/Edit.antt =====
-- The functions of src/hashtable.c that change a table.
use cutil.Prelude.{
  ℕ, zero, suc, ◌+◌, ◌-◌, ◌/◌, ◌%◌, ◌^◌, Bool, true, false, not, Option, none, some, List, [], ◌∷◌,
  ◌++◌, ltb, ◌==◌, if◌then◌else◌, get_elem?, set, Result, ok, fault, out_of_fuel, ◌>>=◌, ℤ, pos,
}
use cutil.ListItem.{itr_end}
use cutil.LinkedList.{
  ListT, word, in_range, list_count, list_itr_begin, list_get, list_init, list_deinit,
}
use cutil.LinkedList.Edit.{list_push, list_pop}
use cutil.HashTable.{HtItr, ht_itr_end, itr_eq, Limit, HtT, list_at, list_of, ht_find}

-- Which allocations succeed: that of an array of lists, and those that make room in a list for a
-- datum.
pub record Alloc : Type 0 where
  pub table : Bool
  pub item : ℕ → Bool

-- A write to `lists[i]`.
unfoldable pub update_list : List ListT → ℕ → ListT → Result (List ListT)
update_list lists i l = elim (get_elem? lists i) [ none ↦ fault | some _ ↦ ok (set lists i l) ]

-- A write to `lists[idx]`.
pub write_list : List ListT → ℤ → ListT → Result (List ListT)
write_list lists (pos i) l = update_list lists i l
write_list lists _ l = fault

abbrev pub primes : List ℕ
primes =
    3 ∷ 7 ∷ 13 ∷ 29 ∷ 53 ∷ 97 ∷ 193 ∷ 389 ∷ 769 ∷ 1543 ∷ 3079 ∷ 6151 ∷ 12289 ∷ 24593 ∷ 49157 ∷ 98317
    ∷ 196613 ∷ 393241 ∷ 786433 ∷ 1572869 ∷ 3145739 ∷ 6291469 ∷ 12582917 ∷ 251658343 ∷ 50331653
    ∷ 100663319 ∷ 201326611 ∷ 402563189 ∷ 805306457 ∷ 1610612741 ∷ []

-- The search through the primes from one of them on; the last one is taken whatever the load.
unfoldable pub first_size : ℕ → List ℕ → ℕ → Limit → ℕ
first_size prime [] count limit = prime
first_size prime (next ∷ rest) count limit =
    if limit.exceeded_by_ratio count prime then first_size next rest count limit else prime

unfoldable pub ht_get_new_size : ℕ → Limit → ℕ
ht_get_new_size count limit = elim primes [
  | [] ↦ 0
  | prime ∷ rest ↦ first_size prime rest count limit
]

-- The loop over `list_init` with no capacity, which allocates nothing.
pub init_lists : ℕ → ℕ → Result (Bool × List ListT)
init_lists zero dfn = ok (true, [])
init_lists (suc n) dfn = do
  (done, l) ← list_init true 0 dfn
  if not done then ok (false, []) else do (done', ls) ← init_lists n dfn; ok (done', l ∷ ls)

-- The inner loop of `ht_grow`, which empties one of the old lists; the result of the insertion is
-- not looked at.
pub rehash_list : (HtT → ℕ → Result (Bool × HtT)) → ℕ → HtT → ListT → Result (HtT × ListT)
rehash_list insert zero htable l = out_of_fuel
rehash_list insert (suc fuel) htable l = if list_count l == 0 then ok (htable, l) else do
  x ← list_get l (list_itr_begin l)
  (_, htable') ← insert htable x
  (_, l') ← list_pop l (list_itr_begin l)
  rehash_list insert fuel htable' l'

-- The outer loop, over the old lists from index `i` on.
pub rehash : (HtT → ℕ → Result (Bool × HtT)) → ℕ → ℕ → HtT → List ListT → Result HtT
rehash insert zero i htable old_lists = ok htable
rehash insert (suc rounds) i htable old_lists = do
  l ← list_at old_lists i
  (htable', l') ← rehash_list insert (l.count + 1) htable l
  _ ← list_deinit l'
  rehash insert rounds (i + 1) htable' old_lists

-- `ht_grow`, with the `ht_insert` that it calls.
pub ht_grow_with : (HtT → ℕ → Result (Bool × HtT)) → Alloc → HtT → Result (Bool × HtT)
ht_grow_with insert alloc htable =
    let count = if htable.count == 0 then htable.initial else htable.count in
    let new_size = ht_get_new_size count htable.limit in
    if not alloc.table then ok (false, htable) else do
      (done, new_lists) ← init_lists new_size htable.dfn
      if not done then ok (false, htable) else do
        htable' ←
            rehash insert htable.size 0
              (record htable { count = 0; size = new_size; lists = new_lists }) htable.lists
        ok (true, htable')

-- `ht_insert` and `ht_grow` call one another; the fuel bounds the depth. `> limit` compares the
-- quotient of two integers with a float.
unfoldable pub ht_insert : ℕ → Alloc → HtT → ℕ → Result (Bool × HtT)
ht_insert zero alloc htable x = out_of_fuel
ht_insert (suc fuel) alloc htable x = if x == 0 then ok (false, htable) else do
  found ← ht_find htable x
  if not (itr_eq found ht_itr_end) then ok (false, htable) else do
    (ready, htable') ←
        (if htable.limit.exceeded_by (htable.count / htable.size)
          then ht_grow_with (ht_insert fuel alloc) alloc htable
          else ok (true, htable))
    if not ready then ok (false, htable') else if htable'.size == 0 then fault else do
      let index = htable'.hfn x % htable'.size
      l ← list_at htable'.lists index
      (done, l') ← list_push (alloc.item x) l x itr_end
      lists' ← update_list htable'.lists index l'
      if not done
          then ok (false, record htable' { lists = lists' })
          else ok (true, record htable' { count = word (htable'.count + 1); lists = lists' })

pub ht_grow : ℕ → Alloc → HtT → Result (Bool × HtT)
ht_grow fuel alloc htable = ht_grow_with (ht_insert fuel alloc) alloc htable

-- The default limit, 3.0, is an argument.
pub ht_init : ℕ → Alloc → Limit → ℕ → (ℕ → ℕ) → (ℕ → ℕ → Bool) → ℕ → Result (Bool × HtT)
ht_init fuel alloc default_load_limit initial_capacity hfn mfn dfn = ht_grow fuel alloc (record {
  hfn = hfn;
  mfn = mfn;
  dfn = dfn;
  initial = initial_capacity;
  limit = default_load_limit;
  count = 0;
  size = 0;
  lists = [];
})

-- The loop over the lists, with the data given to the delete function, in order.
unfoldable pub deinit_lists : ℕ → ℕ → List ListT → Result (List ℕ)
deinit_lists zero i lists = ok []
deinit_lists (suc rounds) i lists = do
  l ← list_at lists i
  (_, _, deleted) ← list_deinit l
  more ← deinit_lists rounds (i + 1) lists
  ok (deleted ++ more)

unfoldable pub ht_deinit : HtT → Result (Bool × List ℕ)
ht_deinit htable = do deleted ← deinit_lists htable.size 0 htable.lists; ok (true, deleted)

-- The deletions before the struct is freed.
pub ht_delete : HtT → Result (List ℕ)
ht_delete htable = do (_, deleted) ← ht_deinit htable; ok deleted

pub ht_new : Bool → ℕ → Alloc → Limit → ℕ → (ℕ → ℕ) → (ℕ → ℕ → Bool) → ℕ → Result (Option HtT)
ht_new alloc_struct fuel alloc default_load_limit initial_capacity hfn mfn dfn =
    if not alloc_struct then ok none else do
      (done, htable) ← ht_init fuel alloc default_load_limit initial_capacity hfn mfn dfn
      ok (if done then some htable else none)

pub ht_clear : ℕ → Alloc → Limit → HtT → Result (Bool × HtT × List ℕ)
ht_clear fuel alloc default_load_limit htable = do
  (_, deleted) ← ht_deinit htable
  (done, htable') ←
      ht_init fuel alloc default_load_limit htable.initial htable.hfn htable.mfn htable.dfn
  ok (done, htable', deleted)

pub ht_remove : HtT → HtItr → Result (Bool × HtT)
ht_remove htable itr =
    if itr_eq itr ht_itr_end
    then ok (false, htable)
    else if not (in_range itr.idx htable.size)
    then ok (false, htable)
    else if not (ltb 0 htable.count)
    then ok (false, htable)
    else do
      l ← list_of htable itr.idx
      x ← list_get l itr.itr
      if x == 0 then ok (false, htable) else do
        (_, l') ← list_pop l itr.itr
        lists' ← write_list htable.lists itr.idx l'
        ok (true, record htable { count = word (htable.count + 2 ^ 64 - 1); lists = lists' })
