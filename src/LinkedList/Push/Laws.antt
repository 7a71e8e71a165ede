-- ===== src/LinkedList/Push/Laws.antt =====
-- What a caller of `list_push` may rely on.
use cutil.Prelude.{
  ℕ, max, ◌*◌, ◌+◌, ◌^◌, ◌≤◌, ◌≡◌, ◌≢◌, refl, sym, ap, ap₂, ◌∙◌, Bool, true, false, ◌&&◌, List, [],
  ◌∷◌, ◌++◌, append-nil, ltb, length-append, arith, ok, Returns, ℤ, pos, subst,
}
use cutil.ListItem.{itr_end}
use cutil.ListItem.Ring.{count-append}
use cutil.LinkedList.{ListT}
use cutil.LinkedList.Edit.{make_room, place, list_push}
use cutil.LinkedList.Place.{Placed, place-empty, place-tail, place-head, place-middle}
use cutil.LinkedList.Grow.Laws.{list_grow-Grown, list_grow-no_memory}
use cutil.LinkedList.Push.{Room, contents-Placed}
use cutil.LinkedList.Push.Making.{not_full, full, free_item, inside, found_at, make_room-Room}
use cutil.LinkedList.Valid.{IsValid, contents}

-- The item goes in front of the item that stands where `b` stood, also after a growth.
place_at :
    (l : ListT) (ys : List ℕ) (b : ℕ) (zs fs : List ℕ) (value : ℕ) (l₁ : ListT) (before : ℤ)
    (ys₁ : List ℕ) (b₁ : ℕ) (zs₁ : List ℕ) (f : ℕ) (fs₁ : List ℕ)
    → IsValid l (ys ++ b ∷ zs) fs
    → Room l ys b zs l₁ before ys₁ b₁ zs₁ f fs₁
    → Returns
        (place l₁ value (pos b) l.used_head before)
        (Placed l₁ value f (ys₁ ++ f ∷ b₁ ∷ zs₁) fs₁)
place_at l [] b zs fs value l₁ before [] b₁ zs₁ f fs₁ v r =
    subst (λ h. Returns (place l₁ value (pos b) h before) (Placed l₁ value f (f ∷ b₁ ∷ zs₁) fs₁))
      (sym v.used.0) (place-head l₁ b₁ zs₁ f fs₁ value b before r.valid)
place_at l [] b zs fs value l₁ before (x₁ ∷ ys₁) b₁ zs₁ f fs₁ v r = absurd (omega (arith, r.far))
place_at l (x ∷ ys) b zs fs value l₁ before [] b₁ zs₁ f fs₁ v r = absurd (omega (arith, r.far))
place_at l (x ∷ ys) b zs fs value l₁ before (x₁ ∷ ys₁) b₁ zs₁ f fs₁ v r =
    let bx : b ≢ x = λ e. ground (arith, v.owned b, count-append b ys (b ∷ zs)) in
    subst
      (λ h.
        Returns (place l₁ value (pos b) h before)
          (Placed l₁ value f (x₁ ∷ ys₁ ++ f ∷ b₁ ∷ zs₁) fs₁))
      (sym v.used.0)
      (subst
        (λ k.
          Returns (place l₁ value (pos b) (pos x) k)
            (Placed l₁ value f (x₁ ∷ ys₁ ++ f ∷ b₁ ∷ zs₁) fs₁))
        (sym r.found) (place-middle l₁ x₁ ys₁ b₁ zs₁ f fs₁ value b x bx r.valid))

list_push-steps :
    (l : ListT) (value : ℕ) (itr : ℤ) (r : Bool × ListT × ℤ) (l' : ListT)
    → make_room true l itr ≡ ok r
    → r.0 ≡ true
    → place r.1 value itr l.used_head r.2 ≡ ok l'
    → list_push true l value itr ≡ ok (true, l')
unfolding list_push
list_push-steps l value itr r l' e₁ e₂ e₃ = rw (e₁, e₂, e₃)

and_false : (b : Bool) → (b && false) ≡ false
and_false true = refl
and_false false = refl

make_room-end :
    (l : ListT) (us fs : List ℕ)
    → IsValid l us fs
    → l.size + 1 ≤ 2 ^ 63
    → Returns (make_room true l itr_end) λ r.
      (r.0 ≡ true)
      × (r.2 ≡ itr_end)
      × (us₁ : List ℕ) × (f : ℕ) × (fs₁ : List ℕ) × IsValid r.1 us₁ (f ∷ fs₁)
      × (contents r.1 us₁ ≡ contents l us)
      × (r.1.size ≤ max l.size (2 * l.count + 1))
unfolding make_room
make_room-end l us (f ∷ fs) v small =
    ((true, l, itr_end), rw (not_full f fs v), (refl, refl, us, f, fs, v, refl, omega arith))
make_room-end l us [] v small =
    let (r, run, (e, us', fs', g)) = list_grow-Grown l us [] v 1 (omega arith) small in
    let (f, fs₁, ef) = free_item fs' g.valid (omega (arith, g.room, v.total, g.many)) in
    (
      (true, r.1, itr_end),
      rw (
        full v,
        and_false (ltb 0 l.count),
        run ∙ ap (λ x. ok (x, r.1)) e,
        and_false (ltb 0 r.1.count),
      ),
      (
        refl,
        refl,
        us',
        f,
        fs₁,
        subst (λ gs. IsValid r.1 us' gs) ef g.valid,
        g.same,
        omega (arith, g.not_too_big, v.counted, v.total),
      ),
    )

place_end :
    (l : ListT) (us : List ℕ) (f : ℕ) (fs : List ℕ) (value : ℕ) (the_head : ℤ)
    → IsValid l us (f ∷ fs)
    → Returns (place l value itr_end the_head itr_end) (Placed l value f (us ++ f ∷ []) fs)
place_end l [] f fs value the_head v = place-empty l f fs value itr_end the_head v
place_end l (x ∷ us) f fs value the_head v = place-tail l x us f fs value the_head itr_end v

-- In a valid list of at most 2^63 - 1 slots, when CALLOC succeeds, list_push at the iterator of an
-- item returns TRUE and a valid list whose contents have the new value in front of that item's,
-- whether or not the array has to grow; the slots are at most the old ones, or twice the count and
-- one.
pub list_push-at :
    (l : ListT) (ys : List ℕ) (b : ℕ) (zs fs : List ℕ) (value : ℕ)
    → IsValid l (ys ++ b ∷ zs) fs
    → l.size + 1 ≤ 2 ^ 63
    → Returns (list_push true l value (pos b)) λ r.
      (r.0 ≡ true)
      × (us' : List ℕ) × (fs' : List ℕ) × IsValid r.1 us' fs'
      × (contents r.1 us' ≡ contents l ys ++ value ∷ contents l (b ∷ zs))
      × (r.1.size ≤ max l.size (2 * l.count + 1))
list_push-at l ys b zs fs value v small =
    let (r, run, (e, ys₁, b₁, zs₁, f, fs₁, room)) = make_room-Room l ys b zs fs v small in
    let (l', run', p) = place_at l ys b zs fs value r.1 r.2 ys₁ b₁ zs₁ f fs₁ v room in
    (
      (true, l'),
      list_push-steps l value (pos b) r l' run e run',
      (
        refl,
        ys₁ ++ f ∷ b₁ ∷ zs₁,
        fs₁,
        p.valid,
        contents-Placed ys₁ (b₁ ∷ zs₁) room.valid p
            ∙ ap₂ (λ xs ys. xs ++ value ∷ ys) room.front room.back,
        omega (arith, room.doubled, p.size),
      ),
    )

-- In a valid list of at most 2^63 - 1 slots, when CALLOC succeeds, list_push with list_itr_end
-- returns TRUE and a valid list whose contents have the new value at the end, also from an empty
-- list and from a full one; the slots are at most the old ones, or twice the count and one.
pub list_push-end :
    (l : ListT) (us fs : List ℕ) (value : ℕ)
    → IsValid l us fs
    → l.size + 1 ≤ 2 ^ 63
    → Returns (list_push true l value itr_end) λ r.
      (r.0 ≡ true)
      × (us' : List ℕ) × (fs' : List ℕ) × IsValid r.1 us' fs'
      × (contents r.1 us' ≡ contents l us ++ value ∷ [])
      × (r.1.size ≤ max l.size (2 * l.count + 1))
list_push-end l us fs value v small =
    let (r, run, (e, before, us₁, f, fs₁, v₁, same, doubled)) = make_room-end l us fs v small in
    let (l', run', p) = place_end r.1 us₁ f fs₁ value l.used_head v₁ in
    (
      (true, l'),
      list_push-steps l value itr_end r l' run e
          (ap (place r.1 value itr_end l.used_head) before ∙ run'),
      (
        refl,
        us₁ ++ f ∷ [],
        fs₁,
        p.valid,
        contents-Placed us₁ [] (rw append-nil v₁) p ∙ ap (λ xs. xs ++ value ∷ []) same,
        omega (arith, doubled, p.size),
      ),
    )

-- When CALLOC fails, list_push into a full and not empty valid list of at most 2^63 - 1 slots,
-- with list_itr_end or at an item, returns FALSE and changes nothing.
pub list_push-no_memory :
    (l : ListT) (ys : List ℕ) (b : ℕ) (zs : List ℕ) (value : ℕ)
    → IsValid l (ys ++ b ∷ zs) []
    → l.size + 1 ≤ 2 ^ 63
    → (list_push false l value itr_end ≡ ok (false, l))
      × (list_push false l value (pos b) ≡ ok (false, l))
unfolding list_push make_room
list_push-no_memory l ys b zs value v small =
    let none_left = list_grow-no_memory l (ys ++ b ∷ zs) [] v 1 (omega arith) small in
    (
      rw (full v, and_false (ltb 0 l.count), none_left),
      rw (
        full v,
        inside b v (omega (arith, length-append ys (b ∷ zs))),
        (found_at l ys b zs [] v).0,
        (found_at l ys b zs [] v).1,
        none_left,
      ),
    )
