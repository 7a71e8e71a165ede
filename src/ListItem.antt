-- ===== src/ListItem.antt =====
-- The array of items of src/list.c: `struct list_item_s` and the two splices of its circular
-- lists, `remove_item` and `insert_item`. An array is a list; `[]` stands for the NULL array,
-- since no array of zero items is ever allocated. An access out of the array is a `fault`.
pub mod Fields
pub mod Ring
pub mod Insert
pub mod Remove
use cutil.Prelude.{
  ℕ, Bool, true, false, not, ◌&&◌, List, [], ◌∷◌, none, some, if◌then◌else◌, get_elem?, set, Result,
  ok, fault, ◌>>=◌, ℤ, pos, negsuc, ◌==ℤ◌,
}

-- `payload` is the field `data`, an address with 0 for NULL.
pub record Item : Type 0 where
  pub next : ℤ
  pub prev : ℤ
  pub used : Bool
  pub payload : ℕ

-- What CALLOC leaves in a slot.
abbrev pub blank : Item
blank = record { next = pos 0; prev = pos 0; used = false; payload = 0 }

-- `list_itr_end_t`, which is -1.
abbrev pub itr_end : ℤ
itr_end = negsuc 0

abbrev pub is_null : List Item → Bool
is_null [] = true
is_null (x ∷ xs) = false

-- A read of `ITEM_AT(items, itr)`.
unfoldable pub item_at : List Item → ℤ → Result Item
item_at items (pos i) = elim (get_elem? items i) [ none ↦ fault | some x ↦ ok x ]
item_at items (negsuc i) = fault

-- A write through `ITEM_AT(items, itr)`.
unfoldable pub update_item : List Item → ℤ → (Item → Item) → Result (List Item)
update_item items (pos i) f = elim (get_elem? items i) [
  | none ↦ fault
  | some x ↦ ok (set items i (f x))
]
update_item items (negsuc i) f = fault

abbrev pub with_next : ℤ → Item → Item
with_next v x = record x { next = v }

abbrev pub with_prev : ℤ → Item → Item
with_prev v x = record x { prev = v }

-- The branch of `remove_item` for a list of more than one item.
unfoldable pub unlink : List Item → ℤ → Result (ℤ × List Item)
unlink items itr = do
  it ← item_at items itr
  items₁ ← update_item items it.prev (with_next it.next)
  it₁ ← item_at items₁ itr
  items₂ ← update_item items₁ it₁.next (with_prev it₁.prev)
  ok (it.next, items₂)

unfoldable pub remove_item : List Item → ℤ → Result (ℤ × List Item)
remove_item items itr =
    if is_null items
    then ok (itr_end, items)
    else if itr ==ℤ itr_end
    then ok (itr_end, items)
    else do
      it ← item_at items itr
      (next, items₁) ←
          (if not (it.next ==ℤ itr) && not (it.prev ==ℤ itr)
            then unlink items itr
            else ok (itr_end, items))
      items₂ ← update_item items₁ itr (with_next itr_end)
      items₃ ← update_item items₂ itr (with_prev itr_end)
      ok (next, items₃)

-- The branch of `insert_item` for an empty list.
unfoldable pub insert_alone : List Item → ℤ → Result (ℤ × List Item)
insert_alone items item = do
  items₁ ← update_item items item (with_prev item)
  items₂ ← update_item items₁ item (with_next item)
  ok (item, items₂)

-- The branch of `insert_item` that puts `item` in front of `itr`.
unfoldable pub insert_before : List Item → ℤ → ℤ → Result (ℤ × List Item)
insert_before items itr item = do
  items₁ ← update_item items item (with_next itr)
  at₁ ← item_at items₁ itr
  items₂ ← update_item items₁ at₁.prev (with_next item)
  at₂ ← item_at items₂ itr
  items₃ ← update_item items₂ item (with_prev at₂.prev)
  items₄ ← update_item items₃ itr (with_prev item)
  ok (itr, items₄)

unfoldable pub insert_item : List Item → ℤ → ℤ → Result (ℤ × List Item)
insert_item items itr item =
    if is_null items
    then ok (itr_end, items)
    else if item ==ℤ itr_end
    then ok (itr_end, items)
    else if itr ==ℤ itr_end
    then insert_alone items item
    else insert_before items itr item
