-- ===== src/HashTable/Witness.antt =====
-- The theorems on hash tables at a table of three lists that has the datum 4.
use mathlib.Core.Option.{none-ne-some, some-injective}
use cutil.Prelude.{
  ap, sym, length, ℕ, zero, suc, ◌*◌, ◌<◌, ◌≡◌, refl, true, ltb, ◌==◌, if◌then◌else◌, List, [], ◌∷◌,
  arith, some, get_elem?, ok, Returns, ◌>>=◌, pos,
}
use cutil.ListItem.{itr_end, item_at}
use cutil.ListItem.Fields.{used_of}
use cutil.ListItem.Ring.{count}
use cutil.LinkedList.{ListT, list_itr_begin, list_itr_next, list_get}
use cutil.LinkedList.Valid.{IsValid}
use cutil.LinkedList.Lifecycle.{bare, bare-IsValid}
use cutil.HashTable.{HtT, Limit, ht_itr_end, list_at, find_in, ht_find, ht_get}
use cutil.HashTable.Edit.{ht_deinit, Alloc, ht_insert}
use cutil.HashTable.Walk.{visit_all, data_from, list_data, visit_all-data}
use cutil.HashTable.Delete.{ht_deinit-deletes}
use cutil.HashTable.Find.{first_match, ht_find-ht_get}
use cutil.HashTable.Insert.{HoldsData, IsTable, with_new, ht_insert-lookup}

abbrev one : ListT
one = record {
  dfn = 0;
  size = 1;
  count = 1;
  used_head = pos 0;
  free_head = itr_end;
  items = record { next = pos 0; prev = pos 0; used = true; payload = 4 } ∷ [];
}

one-marks : (j : ℕ) → used_of one.items j ≡ ltb 0 (count j (0 ∷ []))
one-marks zero = refl
one-marks (suc j) = ground arith

one-IsValid : IsValid one (0 ∷ []) []
one-IsValid = record {
  slots = refl;
  counted = refl;
  total = refl;
  fits = omega arith;
  used = (refl, (refl, refl));
  free = refl;
  owned = λ j. ground arith;
  flagged = one-marks;
}

abbrev limit : Limit
limit = record { exceeded_by = λ q. ltb 3 q; exceeded_by_ratio = λ n prime. ltb (3 * prime) n }

abbrev table : HtT
table = record {
  hfn = λ x. x;
  mfn = λ x y. x == y;
  dfn = 0;
  initial = 1;
  limit = limit;
  count = 1;
  size = 3;
  lists = bare 0 ∷ one ∷ bare 0 ∷ [];
}

abbrev used_at : ℕ → List ℕ
used_at i = if i == 1 then 0 ∷ [] else []

abbrev free_at : ℕ → List ℕ
free_at i = []

table-lists :
    (i : ℕ)
    → i < 3
    → (l : ListT) × (get_elem? table.lists i ≡ some l) × HoldsData l (used_at i) (free_at i)
table-lists zero h = (bare 0, refl, record { valid = bare-IsValid 0; no_null = refl })
table-lists (suc zero) h = (one, refl, record { valid = one-IsValid; no_null = refl })
table-lists (suc (suc zero)) h = (bare 0, refl, record { valid = bare-IsValid 0; no_null = refl })
table-lists (suc (suc (suc i))) h = absurd (omega arith)

table-IsTable : IsTable table used_at free_at
table-IsTable = record { some_lists = omega arith; lists_at = table-lists }

no_7 : ht_find table 7 ≡ ok ht_itr_end
unfolding ht_find find_in list_at list_get list_itr_begin list_itr_next item_at
no_7 = refl

abbrev memory : Alloc
memory = record { table = true; item = λ x. true }

ht_find-ht_get_example :
    (ht_find table 4 >>= ht_get table) ≡ ok (first_match (λ x. 4 == x) (4 ∷ []))
ht_find-ht_get_example =
    ht_find-ht_get table one 4 (0 ∷ []) [] (omega arith) (omega arith) refl one-IsValid

ht_insert-lookup_example : Returns (ht_insert 1 memory table 7) λ r.
    (r.0 ≡ true)
    × (r.1.count ≡ 2)
    × ((uss' : ℕ → List ℕ) × (fss' : ℕ → List ℕ) × IsTable r.1 uss' fss')
    × ((ht_find r.1 7 >>= ht_get r.1)
        ≡ (ht_find table 7 >>= ht_get table >>= λ found. ok (with_new table 7 7 found)))
ht_insert-lookup_example =
    ht_insert-lookup 0 memory table used_at free_at one 7 7 table-IsTable refl (omega arith)
      (omega arith) (omega arith) refl no_7 refl

table-count : 1 ≡ length (data_from table used_at 3 0)
unfolding data_from list_data
table-count = refl

visit_all-data_example : visit_all table ≡ ok (data_from table used_at 3 0)
visit_all-data_example = visit_all-data table used_at free_at table-IsTable table-count

-- The same table with a function that deletes data.
abbrev deleting : ListT → ListT
deleting l = record l { dfn = 9 }

abbrev deleting_table : HtT
deleting_table = record table { dfn = 9; lists = bare 9 ∷ deleting one ∷ bare 9 ∷ [] }

deleting-lists :
    (i : ℕ)
    → i < 3
    → (l : ListT) × (get_elem? deleting_table.lists i ≡ some l)
      × HoldsData l (used_at i) (free_at i)
deleting-lists zero h = (bare 9, refl, record { valid = bare-IsValid 9; no_null = refl })
deleting-lists (suc zero) h =
    (deleting one, refl, record { valid = deleting-IsValid; no_null = refl })
  where
    deleting-IsValid : IsValid (deleting one) (0 ∷ []) []
    deleting-IsValid = record {
      slots = refl;
      counted = refl;
      total = refl;
      fits = omega arith;
      used = (refl, (refl, refl));
      free = refl;
      owned = λ j. ground arith;
      flagged = one-marks;
    }
deleting-lists (suc (suc zero)) h =
    (bare 9, refl, record { valid = bare-IsValid 9; no_null = refl })
deleting-lists (suc (suc (suc i))) h = absurd (omega arith)

ht_deinit-deletes_example :
    ht_deinit deleting_table ≡ ok (true, data_from deleting_table used_at 3 0)
ht_deinit-deletes_example =
    ht_deinit-deletes deleting_table used_at free_at
      (record { some_lists = omega arith; lists_at = deleting-lists }) same_dfn
  where
    same_dfn : (i : ℕ) (l : ListT) → get_elem? deleting_table.lists i ≡ some l → l.dfn ≡ 9
    same_dfn zero l e = ap (λ x. x.dfn) (sym (some-injective (bare 9) l e))
    same_dfn (suc zero) l e = ap (λ x. x.dfn) (sym (some-injective (deleting one) l e))
    same_dfn (suc (suc zero)) l e = ap (λ x. x.dfn) (sym (some-injective (bare 9) l e))
    same_dfn (suc (suc (suc i))) l e = absurd (none-ne-some l e)
