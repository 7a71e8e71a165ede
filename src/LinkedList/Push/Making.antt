-- ===== src/LinkedList/Push/Making.antt =====
-- `make_room` on a valid list.
use cutil.Prelude.{
  ℕ, ◌+◌, ◌^◌, ◌≤◌, ◌<◌, ◌≡◌, refl, sym, ap, ◌∙◌, true, false, List, [], ◌∷◌, ◌++◌, map, ◌==◌,
  length, length-append, lt→ltb, arith, ok, Returns, ℤ, pos, subst,
}
use cutil.ListItem.Fields.{payload_of}
use cutil.ListItem.Ring.{Ring-head}
use cutil.LinkedList.{ListT, list_grow}
use cutil.LinkedList.Edit.{make_room, is_inside, find_position, seek}
use cutil.LinkedList.Grow.Laws.{list_grow-Grown}
use cutil.LinkedList.Push.{Room}
use cutil.LinkedList.Push.Position.{find_position-at, seek-at, split_as, map-split}
use cutil.LinkedList.Valid.{IsValid}

pub not_full :
    {l : ListT} {us : List ℕ} (f : ℕ) (fs : List ℕ)
    → IsValid l us (f ∷ fs)
    → (l.count == l.size) ≡ false
not_full f fs v = ground (arith, v.counted, v.total)

pub full : {l : ListT} {us : List ℕ} → IsValid l us [] → (l.count == l.size) ≡ true
full v = ground (arith, v.counted, v.total)

pub inside :
    {l : ListT} {us fs : List ℕ} (b : ℕ)
    → IsValid l us fs
    → 0 < length us
    → is_inside l (pos b) ≡ true
inside {l} b v h = rw (lt→ltb 0 l.count (omega (arith, v.counted)))

-- There is a free item in a list that is not full.
pub free_item :
    {l : ListT} {us : List ℕ} (fs : List ℕ)
    → IsValid l us fs
    → length us < l.size
    → (f : ℕ) × (fs' : List ℕ) × (fs ≡ f ∷ fs')
free_item [] v h = absurd (omega (arith, v.total))
free_item (f ∷ fs) v h = (f, fs, refl)

-- The first loop finds an item of the list at its position.
pub found_at :
    (l : ListT) (ys : List ℕ) (b : ℕ) (zs fs : List ℕ)
    → IsValid l (ys ++ b ∷ zs) fs
    → (find_position (l.count + 1) l (pos b) l.used_head 0 ≡ ok (0 + length ys))
      × ((0 + length ys == l.count) ≡ false)
found_at l ys b zs fs v =
    let long = length-append ys (b ∷ zs) in
    (
      ap (λ h. find_position (l.count + 1) l (pos b) h 0)
            (Ring-head l.items (ys ++ b ∷ zs) l.used_head v.used)
          ∙ find_position-at b zs (l.count + 1) [] ys 0 v refl (omega (arith, v.counted, long)),
      ground (arith, v.counted, long),
    )

make_room-grown :
    (l l' : ListT) (b i : ℕ) (before : ℤ)
    → (l.count == l.size) ≡ true
    → is_inside l (pos b) ≡ true
    → find_position (l.count + 1) l (pos b) l.used_head 0 ≡ ok i
    → (i == l.count) ≡ false
    → list_grow true l 1 ≡ ok (true, l')
    → is_inside l' (pos b) ≡ true
    → seek i l' l'.used_head ≡ ok before
    → make_room true l (pos b) ≡ ok (true, l', before)
unfolding make_room
make_room-grown l l' b i before e₁ e₂ e₃ e₄ e₅ e₆ e₇ = rw (e₁, e₂, e₃, e₄, e₅, e₆, e₇)

pub make_room-Room :
    (l : ListT) (ys : List ℕ) (b : ℕ) (zs fs : List ℕ)
    → IsValid l (ys ++ b ∷ zs) fs
    → l.size + 1 ≤ 2 ^ 63
    → Returns (make_room true l (pos b)) λ r.
      (r.0 ≡ true)
      × (ys₁ : List ℕ) × (b₁ : ℕ) × (zs₁ : List ℕ) × (f : ℕ) × (fs₁ : List ℕ) × Room l ys b zs r.1
          r.2 ys₁ b₁ zs₁ f fs₁
unfolding make_room
make_room-Room l ys b zs (f ∷ fs) v small = (
  (true, l, pos b),
  rw (not_full f fs v),
  (
    refl,
    ys,
    b,
    zs,
    f,
    fs,
    record {
      valid = v;
      found = refl;
      far = refl;
      front = refl;
      back = refl;
      doubled = omega arith;
    },
  ),
)
make_room-Room l ys b zs [] v small =
    let long = length-append ys (b ∷ zs) in
    let (found, before_end) = found_at l ys b zs [] v in
    let (r, run, (e, us', fs', g)) = list_grow-Grown l (ys ++ b ∷ zs) [] v 1 (omega arith) small in
    let (ys₁, b₁, zs₁, eu, far) = split_as ys b zs us' g.many in
    let v₁ : IsValid r.1 (ys₁ ++ b₁ ∷ zs₁) fs' = subst (λ us. IsValid r.1 us fs') eu g.valid in
    let (f, fs₁, ef) = free_item fs' v₁ (omega (arith, g.room, v.total, ap length eu, g.many)) in
    let head₁ = Ring-head r.1.items (ys₁ ++ b₁ ∷ zs₁) r.1.used_head v₁.used in
    let e₀ : 0 + length ys ≡ length ys₁ = omega (arith, far) in
    let sought : seek (0 + length ys) r.1 r.1.used_head ≡ ok (pos b₁) =
      ap (λ i. seek i r.1 r.1.used_head) e₀
      ∙ ap (seek (length ys₁) r.1) head₁
      ∙ seek-at b₁ zs₁ [] ys₁ v₁ in
    let (front, back) =
      map-split (payload_of l.items) (payload_of r.1.items) ys (b ∷ zs) ys₁ (b₁ ∷ zs₁) far
        (ap (map (payload_of r.1.items)) (sym eu) ∙ g.same) in
    (
      (true, r.1, pos b₁),
      make_room-grown l r.1 b (0 + length ys) (pos b₁) (full v) (inside b v (omega (arith, long)))
          found before_end (run ∙ ap (λ x. ok (x, r.1)) e)
          (inside b v₁ (omega (arith, far, length-append ys₁ (b₁ ∷ zs₁)))) sought,
      (
        refl,
        ys₁,
        b₁,
        zs₁,
        f,
        fs₁,
        record {
          valid = subst (λ gs. IsValid r.1 (ys₁ ++ b₁ ∷ zs₁) gs) ef v₁;
          found = refl;
          far = far;
          front = front;
          back = back;
          doubled = omega (arith, g.not_too_big, v.counted, v.total);
        },
      ),
    )
