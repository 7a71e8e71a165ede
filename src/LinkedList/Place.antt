-- ===== src/LinkedList/Place.antt =====
-- `place`, the second part of `list_push`: where the new item stands among the others.
use cutil.Prelude.{
  ℕ, suc, ◌+◌, ◌<◌, ◌≡◌, ◌≢◌, refl, ◌∙◌, true, false, List, [], ◌∷◌, ◌++◌, ltb, ◌==◌, if◌then◌else◌,
  length, length-append, arith, ok, Returns, ℤ, pos, ◌>>=◌, Result, lt→ltb, ne→==_false, ==_refl,
}
use cutil.ListItem.{Item, itr_end, remove_item, update_item, insert_item}
use cutil.ListItem.Fields.{used_of, payload_of, SameData}
use cutil.ListItem.Ring.{count, count-append, Ring, Distinct, Untouched, Linked-split, Ring-frame}
use cutil.ListItem.Ring.Insert.{insert_item-tail, insert_item-middle, insert_item-empty}
use cutil.LinkedList.{ListT, word}
use cutil.LinkedList.Edit.{link_in, place}
use cutil.LinkedList.Valid.{IsValid}
use cutil.LinkedList.Take.{filled, fill-ok, filled-Filled, Ring-Filled, remove_free}

-- `l'` is `l` with the value in the slot `f`, and the indices `us` in use.
pub record Placed (l : ListT) (value f : ℕ) (us fs : List ℕ) (l' : ListT) : Type 0 where
  pub valid : IsValid l' us fs
  pub size : l'.size ≡ l.size
  pub dfn : l'.dfn ≡ l.dfn
  pub payload : (j : ℕ) → payload_of l'.items j ≡ (if f == j then value else payload_of l.items j)

-- The list with the new item linked in.
abbrev linked : ListT → ℤ → ℤ → List Item → ListT
linked l used_head free_head items = record l {
  count = word (l.count + 1);
  used_head = used_head;
  free_head = free_head;
  items = items;
}

module _ (l : ListT) (us : List ℕ) (f : ℕ) (fs : List ℕ) (value : ℕ)
    (v : IsValid l us (f ∷ fs)) where
  -- The array between `remove_item` and `insert_item`.
  record Ready (free_head : ℤ) (t : List Item) : Type 0 where
    slots : length t ≡ l.size
    free : Ring t fs free_head
    used : Ring t us l.used_head
    marks : (j : ℕ) → used_of t j ≡ (if f == j then true else used_of l.items j)
    payload : (j : ℕ) → payload_of t j ≡ (if f == j then value else payload_of l.items j)

  -- The first three statements of `place`.
  prepare :
      {B : Type 0} (k : ℤ → List Item → Result B)
      → (free_head : ℤ) × (t : List Item) × Ready free_head t
        × ((remove_item l.items l.free_head >>= λ r.
              update_item r.1 l.free_head (λ x. record x { payload = value }) >>= λ t₂.
              update_item t₂ l.free_head (λ x. record x { used = true }) >>= k r.0)
            ≡ k free_head t)
  prepare k =
      let (r, run, (same, free, used)) = remove_free f fs v in
      let hf : f < length r.1 = ground (arith, same.size, v.slots, v.owned f) in
      let w = filled-Filled r.1 f value true hf in
      (
        r.0,
        filled r.1 f value true,
        record {
          slots = w.size ∙ same.size ∙ v.slots;
          free = Ring-Filled fs r.0 w free;
          used = Ring-Filled us l.used_head w used;
          marks = λ j. ground (arith, w.used j, same.used j);
          payload = λ j. ground (arith, w.payload j, same.payload j);
        },
        rw (v.free.0, run) (fill-ok r.1 f value true hf (k r.0)),
      )

  place-link_in :
      (itr the_head before : ℤ)
      → (free_head : ℤ) × (t : List Item) × Ready free_head t
        × (place l value itr the_head before ≡ link_in l itr the_head before free_head t)
  unfolding place
  place-link_in itr the_head before = prepare (link_in l itr the_head before)

  -- The new item and its neighbours are the only ones whose links differ.
  finish :
      {free_head used_head : ℤ} {t t' : List Item} (us' : List ℕ)
      → Ready free_head t
      → SameData t t'
      → Ring t' us' used_head
      → Untouched (f ∷ us) t t'
      → length us' ≡ suc (length us)
      → ((j : ℕ) → count j us' ≡ (if f == j then 1 else 0) + count j us)
      → Placed l value f us' fs (linked l used_head free_head t')
  finish {free_head} {used_head} {t} {t'} us' ready same ring away longer more = record {
    valid = record {
      slots = same.size ∙ ready.slots;
      counted = omega (arith, v.counted, v.total, v.fits);
      total = omega (arith, v.total);
      fits = v.fits;
      used = ring;
      free = Ring-frame t t' fs free_head ready.free (λ j p. away j (ground (arith, v.owned j)));
      owned = λ j. ground (arith, v.owned j, more j);
      flagged = λ j. ground (arith, same.used j, ready.marks j, v.flagged j, more j);
    };
    size = refl;
    dfn = refl;
    payload = λ j. same.payload j ∙ ready.payload j;
  }

  new : count f us ≡ 0
  new = ground (arith, v.owned f)

  in_slots : {free_head : ℤ} {t : List Item} → Ready free_head t → f < length t
  in_slots ready = ground (arith, ready.slots, v.owned f)

  slots-Distinct : {free_head : ℤ} {t : List Item} → Ready free_head t → Distinct (length t) us
  slots-Distinct ready j = (ground (arith, v.owned j), λ h. ground (arith, v.owned j, ready.slots))

is_empty : {l : ListT} {fs : List ℕ} → IsValid l [] fs → ltb 0 l.count ≡ false
is_empty v = ground (arith, v.counted)

is_not_empty : {l : ListT} {us fs : List ℕ} (x : ℕ) → IsValid l (x ∷ us) fs → ltb 0 l.count ≡ true
is_not_empty {l} x v = lt→ltb 0 l.count (omega (arith, v.counted))

module _ (l : ListT) (f : ℕ) (fs : List ℕ) (free_head the_head before : ℤ) (t : List Item)
    (r : ℤ × List Item) where
  link_in-empty :
      (itr : ℤ)
      → IsValid l [] (f ∷ fs)
      → insert_item t itr_end (pos f) ≡ ok r
      → link_in l itr the_head itr_end free_head t ≡ ok (linked l r.0 free_head r.1)
  unfolding link_in
  link_in-empty itr v run = rw (is_empty v, v.free.0, run)

  link_in-tail :
      (x : ℕ) (us : List ℕ)
      → IsValid l (x ∷ us) (f ∷ fs)
      → insert_item t (pos x) (pos f) ≡ ok r
      → link_in l itr_end the_head before free_head t ≡ ok (linked l l.used_head free_head r.1)
  unfolding link_in
  link_in-tail x us v run = rw (is_not_empty x v, v.free.0, v.used.0, run)

  link_in-head :
      (x : ℕ) (us : List ℕ) (h : ℕ)
      → IsValid l (x ∷ us) (f ∷ fs)
      → insert_item t (pos x) (pos f) ≡ ok r
      → link_in l (pos h) (pos h) before free_head t ≡ ok (linked l (pos f) free_head r.1)
  unfolding link_in
  link_in-head x us h v run = rw (is_not_empty x v, ==_refl h, v.free.0, v.used.0, run)

  link_in-middle :
      (x : ℕ) (us : List ℕ) (i h b : ℕ)
      → i ≢ h
      → IsValid l (x ∷ us) (f ∷ fs)
      → insert_item t (pos b) (pos f) ≡ ok r
      → link_in l (pos i) (pos h) (pos b) free_head t ≡ ok (linked l l.used_head free_head r.1)
  unfolding link_in
  link_in-middle x us i h b ne v run = rw (is_not_empty x v, ne→==_false i h ne, v.free.0, run)

-- Into an empty list.
pub place-empty :
    (l : ListT) (f : ℕ) (fs : List ℕ) (value : ℕ) (itr the_head : ℤ)
    → IsValid l [] (f ∷ fs)
    → Returns (place l value itr the_head itr_end) (Placed l value f (f ∷ []) fs)
place-empty l f fs value itr the_head v =
    let (fh, t, ready, run) = place-link_in l [] f fs value v itr the_head itr_end in
    let (r, run', (e, same, ring, away)) =
      insert_item-empty t f (in_slots l [] f fs value v ready) in
    (
      _,
      run ∙ link_in-empty l f fs fh the_head itr_end t r itr v run',
      finish l [] f fs value v (f ∷ []) ready same (e, ring) away refl (λ j. omega arith),
    )

-- At the tail of a list.
pub place-tail :
    (l : ListT) (x : ℕ) (us : List ℕ) (f : ℕ) (fs : List ℕ) (value : ℕ) (the_head before : ℤ)
    → IsValid l (x ∷ us) (f ∷ fs)
    → Returns (place l value itr_end the_head before) (Placed l value f (x ∷ us ++ f ∷ []) fs)
place-tail l x us f fs value the_head before v =
    let (fh, t, ready, run) = place-link_in l (x ∷ us) f fs value v itr_end the_head before in
    let (r, run', (e, same, linked, away)) =
      insert_item-tail t x us f ready.used.1 (slots-Distinct l (x ∷ us) f fs value v ready)
        (new l (x ∷ us) f fs value v) (in_slots l (x ∷ us) f fs value v ready) in
    (
      _,
      run ∙ link_in-tail l f fs fh the_head before t r x us v run',
      finish l (x ∷ us) f fs value v (x ∷ us ++ f ∷ []) ready same (v.used.0, linked) away
          (omega (arith, length-append us (f ∷ [])))
          (λ j. omega (arith, count-append j us (f ∷ []))),
    )

-- In front of the head of a list: `itr` is what the head was when `list_push` was called.
pub place-head :
    (l : ListT) (x : ℕ) (us : List ℕ) (f : ℕ) (fs : List ℕ) (value h : ℕ) (before : ℤ)
    → IsValid l (x ∷ us) (f ∷ fs)
    → Returns (place l value (pos h) (pos h) before) (Placed l value f (f ∷ x ∷ us) fs)
place-head l x us f fs value h before v =
    let (fh, t, ready, run) = place-link_in l (x ∷ us) f fs value v (pos h) (pos h) before in
    let (r, run', (e, same, linked_back, away)) =
      insert_item-tail t x us f ready.used.1 (slots-Distinct l (x ∷ us) f fs value v ready)
        (new l (x ∷ us) f fs value v) (in_slots l (x ∷ us) f fs value v ready) in
    let (p, q) = Linked-split r.1 x us f [] x linked_back in
    (
      _,
      run ∙ link_in-head l f fs fh (pos h) before t r x us h v run',
      finish l (x ∷ us) f fs value v (f ∷ x ∷ us) ready same (refl, (q.0, q.1, p)) away refl
          (λ j. refl),
    )

-- In front of an item other than the head.
pub place-middle :
    (l : ListT) (x : ℕ) (ys : List ℕ) (b : ℕ) (zs : List ℕ) (f : ℕ) (fs : List ℕ) (value i h : ℕ)
    → i ≢ h
    → IsValid l (x ∷ ys ++ b ∷ zs) (f ∷ fs)
    → Returns (place l value (pos i) (pos h) (pos b)) (Placed l value f (x ∷ ys ++ f ∷ b ∷ zs) fs)
place-middle l x ys b zs f fs value i h ne v =
    let us = ys ++ b ∷ zs in
    let (fh, t, ready, run) = place-link_in l (x ∷ us) f fs value v (pos i) (pos h) (pos b) in
    let (r, run', (e, same, ring, away)) =
      insert_item-middle t x ys b zs f ready.used.1 (slots-Distinct l (x ∷ us) f fs value v ready)
        (new l (x ∷ us) f fs value v) (in_slots l (x ∷ us) f fs value v ready) in
    (
      _,
      run ∙ link_in-middle l f fs fh (pos h) (pos b) t r x us i h b ne v run',
      finish l (x ∷ us) f fs value v (x ∷ ys ++ f ∷ b ∷ zs) ready same (v.used.0, ring) away
          (omega (arith, length-append ys (f ∷ b ∷ zs), length-append ys (b ∷ zs)))
          (λ j. omega (arith, count-append j ys (f ∷ b ∷ zs), count-append j ys (b ∷ zs))),
    )
