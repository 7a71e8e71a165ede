-- ===== src/LinkedList.antt =====
-- src/list.c: `list_t` and its operations. A function that changes `*list` returns the new value
-- beside its result. A list argument is a pointer that is not NULL. `alloc` says whether the call
-- of CALLOC succeeds. Each `while` and `for` over the links runs on fuel, `count + 1` rounds.
pub mod Edit
pub mod Take
pub mod Place
pub mod Pop
pub mod Iterate
pub mod Grow
pub mod Push
pub mod Lifecycle
pub mod Deque
pub mod Tests
mod Witness
pub mod Valid
use cutil.Prelude.{
  ℕ, zero, suc, ◌+◌, ◌-◌, ◌*◌, ◌%◌, ◌^◌, Bool, true, false, not, ◌&&◌, ◌||◌, Option, none, some,
  List, [], ◌∷◌, ltb, ◌==◌, if◌then◌else◌, replicate, Result, ok, out_of_fuel, ◌>>=◌, ℤ, pos,
  negsuc, ◌==ℤ◌,
}
use cutil.ListItem.{Item, blank, itr_end, item_at, update_item, remove_item, insert_item}

-- `dfn` is the address of the delete function, 0 for NULL.
pub record ListT : Type 0 where
  pub dfn : ℕ
  pub size : ℕ
  pub count : ℕ
  pub used_head : ℤ
  pub free_head : ℤ
  pub items : List Item

abbrev pub with_payload : ℕ → Item → Item
with_payload v x = record x { payload = v }

abbrev pub with_used : Bool → Item → Item
with_used v x = record x { used = v }

-- `uint_t` arithmetic on a 64-bit platform.
abbrev pub word : ℕ → ℕ
word n = n % 2 ^ 64

unfoldable pub list_count : ListT → ℕ
list_count l = l.count

unfoldable pub list_itr_begin : ListT → ℤ
list_itr_begin l = if l.count == 0 then itr_end else l.used_head

pub list_itr_tail : ListT → Result ℤ
list_itr_tail l =
    if l.count == 0 then ok itr_end else do head ← item_at l.items l.used_head; ok head.prev

unfoldable pub list_itr_next : ListT → ℤ → Result ℤ
list_itr_next l itr = if itr ==ℤ itr_end then ok itr_end else do
  it ← item_at l.items itr
  ok (if not (it.next ==ℤ l.used_head) then it.next else itr_end)

pub list_itr_rnext : ListT → ℤ → Result ℤ
list_itr_rnext l itr =
    if itr ==ℤ itr_end
    then ok itr_end
    else if not (itr ==ℤ l.used_head)
    then (do it ← item_at l.items itr; ok it.prev)
    else ok itr_end

-- `(itr >= 0) && (itr < list->size)`
abbrev pub in_range : ℤ → ℕ → Bool
in_range (pos i) size = ltb i size
in_range (negsuc i) size = false

unfoldable pub list_get : ListT → ℤ → Result ℕ
list_get l itr =
    if itr ==ℤ itr_end
    then ok 0
    else if l.size == 0
    then ok 0
    else if not (in_range itr l.size)
    then ok 0
    else do it ← item_at l.items itr; ok (if it.used then it.payload else 0)

-- `do new_size <<= 1; while (new_size < list->size + amount);`
pub double_size : ℕ → ℕ → ℕ → Result ℕ
double_size zero new_size wanted = out_of_fuel
double_size (suc fuel) new_size wanted =
    let doubled = word (new_size * 2) in
    let rest = double_size fuel doubled wanted in if ltb doubled wanted then rest else ok doubled

-- The loop that makes the new array one free list; the first argument counts the rounds left.
pub init_free : ℕ → ℕ → ℤ → List Item → Result (ℤ × List Item)
init_free zero i free_head items = ok (free_head, items)
init_free (suc rounds) i free_head items = do
  (free_head', items') ← insert_item items free_head (pos i)
  init_free rounds (i + 1) free_head' items'

-- The loop of `list_grow` that moves the items of the old list into the new array.
pub move_items : ℕ → ListT → ℤ → ℤ → ℤ → List Item → Result (ℤ × ℤ × List Item)
move_items zero l itr used_head free_head items = out_of_fuel
move_items (suc fuel) l itr used_head free_head items =
    if itr ==ℤ itr_end then ok (used_head, free_head, items) else do
      (free_head', items₁) ← remove_item items free_head
      old ← item_at l.items itr
      items₂ ← update_item items₁ free_head (with_payload old.payload)
      items₃ ← update_item items₂ free_head (with_used old.used)
      (used_head', items₄) ← insert_item items₃ used_head free_head
      itr' ← list_itr_next l itr
      move_items fuel l itr' used_head' free_head' items₄

-- Sixty-five rounds of doubling leave the range of a 64-bit word.
pub grow_size : ℕ → ℕ → Result ℕ
grow_size size amount = if size == 0 then ok amount else double_size 65 size (word (size + amount))

pub list_grow : Bool → ListT → ℕ → Result (Bool × ListT)
list_grow alloc l amount = if amount == 0 then ok (true, l) else do
  new_size ← grow_size l.size amount
  if not alloc then ok (false, l) else do
    (free_head, items) ← init_free new_size 0 itr_end (replicate new_size blank)
    (used_head, free_head', items') ←
        move_items (l.count + 1) l (list_itr_begin l) itr_end free_head items
    ok (
      true,
      record l { size = new_size; used_head = used_head; free_head = free_head'; items = items' },
    )

pub list_init : Bool → ℕ → ℕ → Result (Bool × ListT)
list_init alloc initial_capacity dfn =
    list_grow alloc
      (record {
        dfn = dfn;
        size = 0;
        count = 0;
        used_head = itr_end;
        free_head = itr_end;
        items = [];
      })
      initial_capacity

pub list_new : Bool → Bool → ℕ → ℕ → Result (Option ListT)
list_new alloc_struct alloc initial_capacity dfn =
    if not alloc_struct
    then ok none
    else do (done, l) ← list_init alloc initial_capacity dfn; ok (if done then some l else none)

-- The parameter is a 32-bit `uint`: an amount that a caller passes loses its higher bits.
pub list_reserve : Bool → ListT → ℕ → Result (Bool × ListT)
list_reserve alloc l amount =
    let amount₃₂ = amount % 2 ^ 32 in
    if ltb l.size amount₃₂ then list_grow alloc l (amount₃₂ - l.size) else ok (true, l)

-- The calls of the delete function, with the data of each.
pub delete_items : ℕ → ListT → ℤ → Result (List ℕ)
delete_items zero l itr = out_of_fuel
delete_items (suc fuel) l itr = if itr ==ℤ itr_end then ok [] else do
  it ← item_at l.items itr
  itr' ← list_itr_next l itr
  rest ← delete_items fuel l itr'
  ok (it.payload ∷ rest)

-- The new list, and what the delete function was called with.
pub list_deinit : ListT → Result (Bool × ListT × List ℕ)
list_deinit l = if l.size == 0 then ok (true, l, []) else do
  deleted ← (if l.dfn == 0 then ok [] else delete_items (l.count + 1) l (list_itr_begin l))
  ok (
    true,
    record { dfn = 0; size = 0; count = 0; used_head = itr_end; free_head = itr_end; items = [] },
    deleted,
  )

pub list_delete : ListT → Result (List ℕ)
list_delete l = do (_, _, deleted) ← list_deinit l; ok deleted

pub list_clear : Bool → ListT → Result (Bool × ListT × List ℕ)
list_clear alloc l = do
  (_, _, deleted) ← list_deinit l
  (done, l') ← list_init alloc 0 l.dfn
  ok (done, l', deleted)
