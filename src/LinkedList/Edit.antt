-- ===== src/LinkedList/Edit.antt =====
-- `list_push` and `list_pop` of src/list.c.
use cutil.Prelude.{
  ℕ, zero, suc, ◌+◌, ◌-◌, ◌^◌, Bool, true, false, not, ◌&&◌, ◌||◌, List, ltb, ◌==◌, if◌then◌else◌,
  Result, ok, out_of_fuel, ◌>>=◌, ℤ, ◌==ℤ◌,
}
use cutil.ListItem.{Item, itr_end, item_at, update_item, remove_item, insert_item}
use cutil.LinkedList.{ListT, with_payload, with_used, word, in_range, list_itr_tail, list_grow}

-- `while((tmp != itr) && (i < list->count)) { i++; tmp = list->items[tmp].next; }`
unfoldable pub find_position : ℕ → ListT → ℤ → ℤ → ℕ → Result ℕ
find_position zero l itr tmp i = out_of_fuel
find_position (suc fuel) l itr tmp i =
    if not (tmp ==ℤ itr) && ltb i l.count
    then (do it ← item_at l.items tmp; find_position fuel l itr it.next (i + 1))
    else ok i

-- `while(i > 0) { before = list->items[before].next; i--; }`
unfoldable pub seek : ℕ → ListT → ℤ → Result ℤ
seek zero l before = ok before
seek (suc i) l before = do it ← item_at l.items before; seek i l it.next

-- `(list->count > 0) && (itr != list_itr_end_t)`
abbrev pub is_inside : ListT → ℤ → Bool
is_inside l itr = ltb 0 l.count && not (itr ==ℤ itr_end)

-- The first part of `list_push`, which grows a full list: whether to go on, the list, and
-- `before`.
unfoldable pub make_room : Bool → ListT → ℤ → Result (Bool × ListT × ℤ)
make_room alloc l itr = if not (l.count == l.size) then ok (true, l, itr) else do
  i ← (if is_inside l itr then find_position (l.count + 1) l itr l.used_head 0 else ok 0)
  if is_inside l itr && (i == l.count) then ok (false, l, itr) else do
    (grown, l') ← list_grow alloc l 1
    if not grown then ok (false, l', itr) else do
      before ← (if is_inside l' itr then seek i l' l'.used_head else ok itr)
      ok (true, l', before)

-- The insertion and the new count; `items` has the filled item off the free list.
unfoldable pub link_in : ListT → ℤ → ℤ → ℤ → ℤ → List Item → Result ListT
link_in l itr the_head before free_head items =
    if ltb 0 l.count
    then (if itr ==ℤ itr_end
        then (do
          (_, items') ← insert_item items l.used_head l.free_head
          ok (record l { count = word (l.count + 1); free_head = free_head; items = items' }))
        else if itr ==ℤ the_head
        then (do
          (_, items') ← insert_item items l.used_head l.free_head
          ok (record l {
            count = word (l.count + 1);
            used_head = l.free_head;
            free_head = free_head;
            items = items';
          }))
        else (do
          (_, items') ← insert_item items before l.free_head
          ok (record l { count = word (l.count + 1); free_head = free_head; items = items' })))
    else (do
      (used_head, items') ← insert_item items before l.free_head
      ok (record l {
        count = word (l.count + 1);
        used_head = used_head;
        free_head = free_head;
        items = items';
      }))

-- The second part of `list_push`, which fills a free item and links it in.
unfoldable pub place : ListT → ℕ → ℤ → ℤ → ℤ → Result ListT
place l value itr the_head before = do
  (free_head, items₁) ← remove_item l.items l.free_head
  items₂ ← update_item items₁ l.free_head (with_payload value)
  items₃ ← update_item items₂ l.free_head (with_used true)
  link_in l itr the_head before free_head items₃

unfoldable pub list_push : Bool → ListT → ℕ → ℤ → Result (Bool × ListT)
list_push alloc l value itr = do
  (go_on, l', before) ← make_room alloc l itr
  if not go_on
      then ok (false, l')
      else do l'' ← place l' value itr l.used_head before; ok (true, l'')

-- What `list_pop` does to an item that is in the list.
unfoldable pub take_out : ListT → ℤ → ℤ → Result (ℤ × ListT)
take_out l itr item = do
  (next, items₁) ← remove_item l.items item
  items₂ ← update_item items₁ item (with_payload 0)
  items₃ ← update_item items₂ item (with_used false)
  (free_head, items₄) ← insert_item items₃ l.free_head item
  ok (
    if itr ==ℤ itr_end then itr_end else next,
    record l {
      count = word (l.count + 2 ^ 64 - 1);
      used_head = if item ==ℤ l.used_head then next else l.used_head;
      free_head = free_head;
      items = items₄;
    },
  )

unfoldable pub list_pop : ListT → ℤ → Result (ℤ × ListT)
list_pop l itr =
    if l.size == 0
    then ok (itr_end, l)
    else if not ((itr ==ℤ itr_end) || in_range itr l.size)
    then ok (itr_end, l)
    else do
      item ← (if itr ==ℤ itr_end then list_itr_tail l else ok itr)
      it ← item_at l.items item
      if not it.used then ok (itr_end, l) else take_out l itr item
