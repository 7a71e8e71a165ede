-- ===== src/LinkedList/Tests.antt =====
-- Runs of src/list.c on small lists.
use cutil.Prelude.{
  ℕ, zero, suc, true, List, [], ◌∷◌, ◌≡◌, refl, Result, ok, fault, out_of_fuel, ◌>>=◌, ℤ, pos,
  ◌==ℤ◌, if◌then◌else◌,
}
use cutil.ListItem.{
  itr_end, item_at, update_item, unlink, remove_item, insert_alone, insert_before, insert_item,
}
use cutil.LinkedList.{
  ListT, list_count, list_itr_begin, list_itr_tail, list_itr_next, list_itr_rnext, list_get,
  double_size, init_free, move_items, grow_size, list_grow, list_init, list_deinit, delete_items,
}
use cutil.LinkedList.Edit.{
  find_position, seek, make_room, place, list_push, take_out, list_pop, link_in,
}

program : Unit {0}
unfolding item_at update_item unlink remove_item insert_alone insert_before insert_item list_count
    list_itr_begin list_itr_tail list_itr_next list_itr_rnext list_get double_size init_free
    move_items grow_size list_grow list_init list_deinit delete_items find_position seek make_room
    place list_push take_out list_pop link_in
program = tt

-- The data of a list, read through its iterators.
read : ℕ → ListT → ℤ → Result (List ℕ)
read zero l itr = out_of_fuel
read (suc n) l itr =
    if itr ==ℤ itr_end
    then ok []
    else do x ← list_get l itr; itr' ← list_itr_next l itr; xs ← read n l itr'; ok (x ∷ xs)

abbrev three : Result ListT
three = do
  (_, a) ← list_init true 2 0
  (_, b) ← list_push true a 10 itr_end
  (_, c) ← list_push true b 20 itr_end
  (_, d) ← list_push true c 5 (list_itr_begin c)
  ok d

pushes : (three >>= λ l. read 5 l (list_itr_begin l)) ≡ ok (5 ∷ 10 ∷ 20 ∷ [])
unfolding program read
pushes = refl

pop_middle :
    (three >>= λ l. list_pop l (pos 0) >>= λ r. read 5 r.1 (list_itr_begin r.1)) ≡ ok (5 ∷ 20 ∷ [])
unfolding program read
pop_middle = refl

-- A pop of the tail of a list that has slots and no items reads `items[-1]`.
pop_empty : (list_init true 2 0 >>= λ r. list_pop r.1 itr_end) ≡ fault
unfolding program
pop_empty = refl
