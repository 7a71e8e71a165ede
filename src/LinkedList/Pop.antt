-- ===== src/LinkedList/Pop.antt =====
-- `list_pop` on a valid list: the item leaves the used list for the end of the free list.
pub mod Laws
use cutil.Prelude.{
  ℕ, suc, ◌+◌, ◌-◌, ◌%◌, ◌^◌, ◌≤◌, ◌<◌, ◌≡◌, ◌≢◌, refl, sym, ap, ◌∙◌, Bool, true, false, not, List,
  [], ◌∷◌, ◌++◌, map, ltb, ◌==◌, if◌then◌else◌, length, length-append, append-nil, arith, ok,
  Returns, ℤ, pos, ◌==ℤ◌, ◌>>=◌, Result, le→not_ltb, lt→ltb, ne→==_false, ==_refl,
}
use cutil.ListItem.{Item, itr_end, remove_item, update_item, insert_item}
use cutil.ListItem.Fields.{next_of, prev_of, used_of, payload_of, SameData, item_at-ok}
use cutil.ListItem.Ring.{
  count, count-append, last, count-last, Ring, Linked, Distinct, Untouched, Linked-split,
  Linked-join, Ring-frame, Ring-head, head_of, Linked-last,
}
use cutil.ListItem.Ring.Insert.{insert_item-append}
use cutil.ListItem.Ring.Remove.{remove_item-single, remove_item-head, remove_item-middle, after}
use cutil.LinkedList.{ListT, word, list_itr_tail, in_range}
use cutil.LinkedList.Edit.{take_out, list_pop}
use cutil.LinkedList.Valid.{IsValid, used-Distinct, free-Distinct, contents}
use cutil.LinkedList.Take.{Filled, filled, fill-ok, filled-Filled, Ring-Filled}

-- `list->used_head` after `item` has left and `next` follows it.
abbrev head_after : ListT → ℕ → ℤ → ℤ
head_after l item next = if pos item ==ℤ l.used_head then next else l.used_head

-- The used list without the item `b`.
record Removed (l : ListT) (ys : List ℕ) (b : ℕ) (zs : List ℕ) (r : ℤ × List Item) : Type 0 where
  next : r.0 ≡ head_of (zs ++ ys)
  same : SameData l.items r.1
  ring : Ring r.1 (ys ++ zs) (head_after l b r.0)
  away : Untouched (ys ++ b ∷ zs) l.items r.1

after-head : (x : ℕ) (ys zs : List ℕ) → pos (after x zs) ≡ head_of (zs ++ x ∷ ys)
after-head x ys [] = refl
after-head x ys (z ∷ zs) = refl

remove_used :
    (l : ListT) (ys : List ℕ) (b : ℕ) (zs fs : List ℕ)
    → IsValid l (ys ++ b ∷ zs) fs
    → Returns (remove_item l.items (pos b)) (Removed l ys b zs)
remove_used l [] b [] fs v =
    let (r, run, (e, same, away)) =
      remove_item-single l.items b v.used.1 ((used-Distinct v b).1 (ground arith)) in
    (r, run, record { next = e; same = same; ring = rw (v.used.0, ==_refl b) e; away = away })
remove_used l [] b (z ∷ zs) fs v =
    let (r, run, (e, same, ring, away)) =
      remove_item-head l.items b z zs v.used.1 (used-Distinct v) in
    (
      r,
      run,
      record { next = e; same = same; ring = rw (v.used.0, ==_refl b) (e, ring); away = away },
    )
remove_used l (x ∷ ys) b zs fs v =
    let (r, run, (e, same, ring, away)) =
      remove_item-middle l.items x ys b zs v.used.1 (used-Distinct v) in
    let bx : b ≢ x = λ p. ground (arith, v.owned b, count-append b ys (b ∷ zs)) in
    (
      r,
      run,
      record {
        next = e ∙ after-head x ys zs;
        same = same;
        ring = rw (v.used.0, ne→==_false b x bx) (refl, ring);
        away = away;
      },
    )

-- What a list is after `b` has left it.
pub record Popped (l : ListT) (ys : List ℕ) (b : ℕ) (zs fs : List ℕ) (l' : ListT) : Type 0 where
  pub valid : IsValid l' (ys ++ zs) (fs ++ b ∷ [])
  pub size : l'.size ≡ l.size
  pub dfn : l'.dfn ≡ l.dfn
  pub payload : (j : ℕ) → payload_of l'.items j ≡ (if b == j then 0 else payload_of l.items j)

-- The result of `take_out`, from those of `remove_item` and `insert_item`.
abbrev outcome : ListT → ℤ → ℕ → ℤ × List Item → ℤ × List Item → ℤ × ListT
outcome l itr b r q = (
  if itr ==ℤ itr_end then itr_end else r.0,
  record l {
    count = word (l.count + 2 ^ 64 - 1);
    used_head = head_after l b r.0;
    free_head = q.0;
    items = q.1;
  },
)

module _ (l : ListT) (ys : List ℕ) (b : ℕ) (zs fs : List ℕ) (v : IsValid l (ys ++ b ∷ zs) fs) where
  split : (j : ℕ) → count j (ys ++ b ∷ zs) ≡ (if b == j then 1 else 0) + count j (ys ++ zs)
  split j = omega (arith, count-append j ys (b ∷ zs), count-append j ys zs)

  shorter : length (ys ++ b ∷ zs) ≡ suc (length (ys ++ zs))
  shorter = omega (arith, length-append ys (b ∷ zs), length-append ys zs)

  b-lt : b < l.size
  b-lt = ground (arith, v.owned b, split b)

  b_not_free : count b fs ≡ 0
  b_not_free = ground (arith, v.owned b, split b)

  take_out-Popped :
      (itr : ℤ)
      → Returns (take_out l itr (pos b)) λ r.
        (r.0 ≡ (if itr ==ℤ itr_end then itr_end else head_of (zs ++ ys))) × Popped l ys b zs fs r.1
  unfolding take_out
  take_out-Popped itr =
      let (r, run, removed) = remove_used l ys b zs fs v in
      let hb : b < length r.1 = rw (removed.same.size, v.slots) b-lt in
      let w = filled-Filled r.1 b 0 false hb in
      let t = filled r.1 b 0 false in
      let free : Ring t fs l.free_head = Ring-Filled fs l.free_head w (
        Ring-frame l.items r.1 fs l.free_head v.free
          (λ j p. removed.away j (ground (arith, v.owned j)))) in
      let slots : length t ≡ l.size = w.size ∙ removed.same.size ∙ v.slots in
      let (q, run', (same, ring, away)) =
        insert_item-append t fs l.free_head b free
          (λ j. (ground (arith, v.owned j), λ h. ground (arith, v.owned j, slots))) b_not_free
          (rw slots b-lt) in
      let uh = head_after l b r.0 in
      (
        outcome l itr b r q,
        rw run (fill-ok r.1 b 0 false hb _ ∙ rw run'),
        (
          rw removed.next,
          record {
            valid = record {
              slots = same.size ∙ slots;
              counted = omega (arith, v.counted, v.total, v.fits, shorter);
              total = omega (arith, v.total, shorter, length-append fs (b ∷ []));
              fits = v.fits;
              used =
                  Ring-frame t q.1 (ys ++ zs) uh (Ring-Filled (ys ++ zs) uh w removed.ring)
                    (λ j p. away j (ground (arith, v.owned j, split j)));
              free = ring;
              owned = λ j. omega (arith, v.owned j, split j, count-append j fs (b ∷ []));
              flagged = λ j. ground (
                arith,
                same.used j,
                w.used j,
                removed.same.used j,
                v.flagged j,
                split j,
                v.owned j,
              );
            };
            size = refl;
            dfn = refl;
            payload = λ j. ground (arith, same.payload j, w.payload j, removed.same.payload j);
          },
        ),
      )
