-- ===== src/LinkedList/Push.antt =====
-- `list_push` on a valid list: room is made where the array is full, with the iterator moved to
-- the new array, and the item is put in front of it.
pub mod Position
pub mod Laws
pub mod Making
use cutil.Prelude.{
  ℕ, zero, suc, max, ◌*◌, ◌+◌, ◌^◌, ◌≤◌, ◌<◌, ◌≡◌, ◌≢◌, ◌⊎◌, inl, inr, refl, sym, ap, ap₂, ◌∙◌,
  Bool, true, false, List, [], ◌∷◌, ◌++◌, map, map-append, ltb, ◌==◌, if◌then◌else◌, Bool-cases,
  length, length-append, length-map, lt→ltb, ne→==_false, ==_refl, arith, ok, Returns, ℤ, pos,
  ◌==ℤ◌, ◌>>=◌,
}
use cutil.ListItem.{itr_end}
use cutil.ListItem.Fields.{payload_of}
use cutil.ListItem.Ring.{count, count-append, head_of, map-congr}
use cutil.LinkedList.{ListT, list_grow}
use cutil.LinkedList.Edit.{make_room, place, is_inside, find_position, seek}
use cutil.LinkedList.Place.{Placed, place-empty, place-tail, place-head, place-middle}
use cutil.LinkedList.Grow.Laws.{Grown, list_grow-Grown, list_grow-no_memory}
use cutil.LinkedList.Push.Position.{find_position-at, seek-at, split_as, map-split}
use cutil.LinkedList.Valid.{IsValid, contents}

-- What `make_room` hands on: a list with the same contents and a free item, and in it the item
-- before which to insert.
pub record Room (l : ListT) (ys : List ℕ) (b : ℕ) (zs : List ℕ) (l₁ : ListT) (before : ℤ)
    (ys₁ : List ℕ) (b₁ : ℕ) (zs₁ : List ℕ) (f : ℕ) (fs₁ : List ℕ) : Type 0 where
  pub valid : IsValid l₁ (ys₁ ++ b₁ ∷ zs₁) (f ∷ fs₁)
  pub found : before ≡ pos b₁
  pub far : length ys₁ ≡ length ys
  pub front : contents l₁ ys₁ ≡ contents l ys
  pub back : contents l₁ (b₁ ∷ zs₁) ≡ contents l (b ∷ zs)
  pub doubled : l₁.size ≤ max l.size (2 * l.count + 1)

contents-Placed :
    {l l' : ListT} {value f : ℕ} {fs : List ℕ} (ys zs : List ℕ)
    → IsValid l (ys ++ zs) (f ∷ fs)
    → Placed l value f (ys ++ f ∷ zs) fs l'
    → contents l' (ys ++ f ∷ zs) ≡ contents l ys ++ value ∷ contents l zs
contents-Placed {l} {l'} {f} ys zs v p =
    let c = λ (j : ℕ). count-append j ys zs in
    let old = λ (us : List ℕ) (h : (j : ℕ) → 0 < count j us → 0 < count j (ys ++ zs)).
      map-congr (payload_of l'.items) (payload_of l.items) us
        (λ j k. ground (arith, p.payload j, v.owned j, h j)) in
    map-append (payload_of l'.items) ys (f ∷ zs)
    ∙ ap₂ ◌++◌ (old ys (λ j k. omega (arith, c j)))
        (ap₂ ◌∷◌ (ground (arith, p.payload f)) (old zs (λ j k. omega (arith, c j))))
