-- ===== src/LinkedList/Witness.antt =====
-- The theorems about src/list.c at concrete lists.
use cutil.Prelude.{
  ◌+◌, ◌^◌, ℕ, zero, suc, ◌≤◌, ◌<◌, ◌≡◌, refl, Bool, true, false, List, [], ◌∷◌, ltb, arith, ok,
  fault, Returns, ℤ, pos, ◌>>=◌,
}
use cutil.ListItem.{Item, itr_end}
use cutil.ListItem.Fields.{used_of}
use cutil.ListItem.Ring.{count}
use cutil.LinkedList.{
  ListT, grow_size, list_itr_begin, list_itr_tail, list_grow, list_init, list_reserve, list_deinit,
  list_clear,
}
use cutil.LinkedList.Edit.{list_push, list_pop}
use cutil.LinkedList.Valid.{IsValid, contents}
use cutil.LinkedList.Grow.Laws.{Grown, list_grow-Grown, list_grow-no_memory}
use cutil.LinkedList.Grow.Size.{grow_size-bounds}
use cutil.LinkedList.Iterate.Walk.{walk, walk_back, walk_forward, walk_backward}
use cutil.LinkedList.Lifecycle.{
  list_init-IsValid, list_reserve-room, list_deinit-deletes, list_clear-empties,
}
use cutil.LinkedList.Pop.Laws.{list_pop-at, list_pop-tail, list_pop-stale, list_pop-empty}
use cutil.LinkedList.Push.Laws.{list_push-at, list_push-end, list_push-no_memory}

abbrev item : ℤ → ℤ → Bool → ℕ → Item
item n p u d = record { next = n; prev = p; used = u; payload = d }

-- 10 in slot 0, 20 in slot 1, and slot 2 free.
abbrev two_of_three : ListT
two_of_three = record {
  dfn = 7;
  size = 3;
  count = 2;
  used_head = pos 0;
  free_head = pos 2;
  items =
      item (pos 1) (pos 1) true 10
      ∷ item (pos 0) (pos 0) true 20
      ∷ item (pos 2) (pos 2) false 0
      ∷ [];
}

two_of_three-marks : (j : ℕ) → used_of two_of_three.items j ≡ ltb 0 (count j (0 ∷ 1 ∷ []))
two_of_three-marks zero = refl
two_of_three-marks (suc zero) = refl
two_of_three-marks (suc (suc zero)) = refl
two_of_three-marks (suc (suc (suc j))) = ground arith

two_of_three-IsValid : IsValid two_of_three (0 ∷ 1 ∷ []) (2 ∷ [])
two_of_three-IsValid = record {
  slots = refl;
  counted = refl;
  total = refl;
  fits = omega arith;
  used = (refl, (refl, refl, (refl, refl)));
  free = (refl, (refl, refl));
  owned = λ j. ground arith;
  flagged = two_of_three-marks;
}

-- The same two values with no slot to spare.
abbrev full_two : ListT
full_two = record {
  dfn = 7;
  size = 2;
  count = 2;
  used_head = pos 0;
  free_head = itr_end;
  items = item (pos 1) (pos 1) true 10 ∷ item (pos 0) (pos 0) true 20 ∷ [];
}

full_two-marks : (j : ℕ) → used_of full_two.items j ≡ ltb 0 (count j (0 ∷ 1 ∷ []))
full_two-marks zero = refl
full_two-marks (suc zero) = refl
full_two-marks (suc (suc j)) = ground arith

full_two-IsValid : IsValid full_two (0 ∷ 1 ∷ []) []
full_two-IsValid = record {
  slots = refl;
  counted = refl;
  total = refl;
  fits = omega arith;
  used = (refl, (refl, refl, (refl, refl)));
  free = refl;
  owned = λ j. ground arith;
  flagged = full_two-marks;
}

-- One slot, no item.
abbrev no_items : ListT
no_items = record {
  dfn = 0;
  size = 1;
  count = 0;
  used_head = itr_end;
  free_head = pos 0;
  items = item (pos 0) (pos 0) false 0 ∷ [];
}

no_items-marks : (j : ℕ) → used_of no_items.items j ≡ ltb 0 (count j [])
no_items-marks zero = refl
no_items-marks (suc j) = refl

no_items-IsValid : IsValid no_items [] (0 ∷ [])
no_items-IsValid = record {
  slots = refl;
  counted = refl;
  total = refl;
  fits = omega arith;
  used = refl;
  free = (refl, (refl, refl));
  owned = λ j. ground arith;
  flagged = no_items-marks;
}

list_push-at_example : Returns (list_push true full_two 15 (pos 1)) λ r.
    (r.0 ≡ true)
    × (us' : List ℕ) × (fs' : List ℕ) × IsValid r.1 us' fs'
    × (contents r.1 us' ≡ 10 ∷ 15 ∷ 20 ∷ [])
    × (r.1.size ≤ 5)
list_push-at_example = list_push-at full_two (0 ∷ []) 1 [] [] 15 full_two-IsValid (omega arith)

list_push-end_example : Returns (list_push true two_of_three 30 itr_end) λ r.
    (r.0 ≡ true)
    × (us' : List ℕ) × (fs' : List ℕ) × IsValid r.1 us' fs'
    × (contents r.1 us' ≡ 10 ∷ 20 ∷ 30 ∷ [])
    × (r.1.size ≤ 5)
list_push-end_example =
    list_push-end two_of_three (0 ∷ 1 ∷ []) (2 ∷ []) 30 two_of_three-IsValid (omega arith)

list_push-no_memory_example :
    (list_push false full_two 30 itr_end ≡ ok (false, full_two))
    × (list_push false full_two 30 (pos 1) ≡ ok (false, full_two))
list_push-no_memory_example =
    list_push-no_memory full_two (0 ∷ []) 1 [] 30 full_two-IsValid (omega arith)

list_pop-at_example :
    Returns
      (list_pop two_of_three (pos 1))
      λ r. (r.0 ≡ pos 0) × IsValid r.1 (0 ∷ []) (2 ∷ 1 ∷ []) × (contents r.1 (0 ∷ []) ≡ 10 ∷ [])
list_pop-at_example = list_pop-at two_of_three (0 ∷ []) 1 [] (2 ∷ []) two_of_three-IsValid

list_pop-tail_example :
    Returns
      (list_pop two_of_three itr_end)
      λ r. (r.0 ≡ itr_end) × IsValid r.1 (0 ∷ []) (2 ∷ 1 ∷ []) × (contents r.1 (0 ∷ []) ≡ 10 ∷ [])
list_pop-tail_example = list_pop-tail two_of_three (0 ∷ []) 1 (2 ∷ []) two_of_three-IsValid

list_pop-stale_example : list_pop two_of_three (pos 2) ≡ ok (itr_end, two_of_three)
list_pop-stale_example =
    list_pop-stale two_of_three (0 ∷ 1 ∷ []) (2 ∷ []) 2 two_of_three-IsValid refl

list_pop-empty_example : list_pop no_items itr_end ≡ fault
list_pop-empty_example = list_pop-empty no_items (0 ∷ []) no_items-IsValid (omega arith)

walk_forward_example : walk 3 two_of_three (list_itr_begin two_of_three) ≡ ok (10 ∷ 20 ∷ [])
walk_forward_example = walk_forward two_of_three-IsValid

walk_backward_example :
    (list_itr_tail two_of_three >>= λ itr. walk_back 3 two_of_three itr []) ≡ ok (10 ∷ 20 ∷ [])
walk_backward_example = walk_backward two_of_three-IsValid

list_grow-Grown_example :
    Returns (list_grow true full_two 3) λ r.
      (r.0 ≡ true) × (us' : List ℕ) × (fs' : List ℕ) × Grown full_two (0 ∷ 1 ∷ []) 3 r.1 us' fs'
list_grow-Grown_example =
    list_grow-Grown full_two (0 ∷ 1 ∷ []) [] full_two-IsValid 3 (omega arith) (omega arith)

list_grow-no_memory_example : list_grow false full_two 3 ≡ ok (false, full_two)
list_grow-no_memory_example =
    list_grow-no_memory full_two (0 ∷ 1 ∷ []) [] full_two-IsValid 3 (omega arith) (omega arith)

grow_size-bounds_example : Returns (grow_size 2 3) λ r. (5 ≤ r) × (r < 10)
grow_size-bounds_example = grow_size-bounds 2 3 (omega arith) (omega arith)

list_init-IsValid_example :
    Returns
      (list_init true 5 7)
      λ r. (r.0 ≡ true) × (fs : List ℕ) × IsValid r.1 [] fs × (5 ≤ r.1.size) × (r.1.dfn ≡ 7)
list_init-IsValid_example = list_init-IsValid 5 7 (omega arith)

list_reserve-room_example : Returns (list_reserve true full_two (2 ^ 32 + 9)) λ r.
    (r.0 ≡ true)
    × (us' : List ℕ) × (fs' : List ℕ) × IsValid r.1 us' fs'
    × (contents r.1 us' ≡ 10 ∷ 20 ∷ [])
    × (9 ≤ r.1.size)
    × (r.1.dfn ≡ full_two.dfn)
list_reserve-room_example = list_reserve-room full_two (0 ∷ 1 ∷ []) [] (2 ^ 32 + 9) full_two-IsValid

list_deinit-deletes_example :
    Returns
      (list_deinit two_of_three)
      λ r. (r.0 ≡ true) × IsValid r.1 [] [] × (r.1.size ≡ 0) × (r.2 ≡ 10 ∷ 20 ∷ [])
list_deinit-deletes_example =
    list_deinit-deletes two_of_three (0 ∷ 1 ∷ []) (2 ∷ []) two_of_three-IsValid

list_clear-empties_example :
    Returns
      (list_clear true two_of_three)
      λ r. (r.0 ≡ true) × IsValid r.1 [] [] × (r.1.dfn ≡ 7) × (r.2 ≡ 10 ∷ 20 ∷ [])
list_clear-empties_example =
    list_clear-empties true two_of_three (0 ∷ 1 ∷ []) (2 ∷ []) two_of_three-IsValid
