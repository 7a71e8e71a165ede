-- ===== src/LinkedList/Push/Position.antt =====
-- The two loops of `list_push` that count up to an item and walk to it again.
use cutil.Prelude.{
  ℕ, zero, suc, ◌+◌, ◌<◌, ◌≡◌, refl, sym, ap, ◌∙◌, true, false, List, [], ◌∷◌, ◌++◌, map,
  append_assoc, ltb, ◌==◌, length, length-append, lt→ltb, ==_refl, arith, ok, pos, subst,
}
use cutil.ListItem.Fields.{next_of}
use cutil.ListItem.Ring.{count, count-append, head_of, Linked-split}
use cutil.LinkedList.{ListT}
use cutil.LinkedList.Edit.{find_position, seek}
use cutil.LinkedList.Iterate.{item-used}
use cutil.LinkedList.Valid.{IsValid}

next-inside :
    {l : ListT} (ps : List ℕ) (y z : ℕ) (zs : List ℕ) {fs : List ℕ}
    → IsValid l (ps ++ y ∷ z ∷ zs) fs
    → next_of l.items y ≡ pos z
next-inside [] y z zs v = v.used.1.0
next-inside {l} (x ∷ ps) y z zs v = (Linked-split l.items x ps y (z ∷ zs) x v.used.1).1.0

-- The next item, where there is one.
next-before :
    {l : ListT} (ps : List ℕ) (y : ℕ) (ys : List ℕ) (b : ℕ) (zs : List ℕ) {fs : List ℕ}
    → IsValid l (ps ++ (y ∷ ys ++ b ∷ zs)) fs
    → next_of l.items y ≡ head_of (ys ++ b ∷ zs)
next-before ps y [] b zs v = next-inside ps y b zs v
next-before ps y (x ∷ ys) b zs v = next-inside ps y x (ys ++ b ∷ zs) v

module _ {l : ListT} (b : ℕ) (zs : List ℕ) {fs : List ℕ} where
  pub find_position-at :
      (fuel : ℕ) (ps ys : List ℕ) (i : ℕ)
      → IsValid l (ps ++ (ys ++ b ∷ zs)) fs
      → i ≡ length ps
      → length ys < fuel
      → find_position fuel l (pos b) (head_of (ys ++ b ∷ zs)) i ≡ ok (i + length ys)
  unfolding find_position
  find_position-at zero ps ys i v e h = absurd (omega arith)
  find_position-at (suc fuel) ps [] i v e h = rw (==_refl b) (ap ok (omega arith))
  find_position-at (suc fuel) ps (y ∷ ys) i v e h =
      let c = λ (j : ℕ). count-append j ps (y ∷ ys ++ b ∷ zs) in
      let d = λ (j : ℕ). count-append j ys (b ∷ zs) in
      let yb : (y == b) ≡ false = ground (arith, v.owned b, c b, d b) in
      let inside : 0 < count y (ps ++ (y ∷ ys ++ b ∷ zs)) = ground (arith, c y) in
      let more : ltb i l.count ≡ true =
        lt→ltb i l.count (omega (arith, v.counted, length-append ps (y ∷ ys ++ b ∷ zs))) in
      let v' = subst (λ us. IsValid l us fs) (sym (append_assoc ps (y ∷ []) (ys ++ b ∷ zs))) v in
      rw (yb, more, item-used v y inside, next-before ps y ys b zs v)
        (find_position-at fuel (ps ++ y ∷ []) ys (i + 1) v'
            (omega (arith, length-append ps (y ∷ []))) (omega arith)
          ∙ ap ok (omega arith))

  pub seek-at :
      (ps ys : List ℕ)
      → IsValid l (ps ++ (ys ++ b ∷ zs)) fs
      → seek (length ys) l (head_of (ys ++ b ∷ zs)) ≡ ok (pos b)
  unfolding seek
  seek-at ps [] v = refl
  seek-at ps (y ∷ ys) v =
      let inside : 0 < count y (ps ++ (y ∷ ys ++ b ∷ zs)) =
        ground (arith, count-append y ps (y ∷ ys ++ b ∷ zs)) in
      let v' = subst (λ us. IsValid l us fs) (sym (append_assoc ps (y ∷ []) (ys ++ b ∷ zs))) v in
      rw (item-used v y inside, next-before ps y ys b zs v) (seek-at (ps ++ y ∷ []) ys v')

-- A list as long as `ys ++ b ∷ zs` has an item at the place of `b`.
pub split_as :
    (ys : List ℕ) (b : ℕ) (zs us : List ℕ)
    → length us ≡ length (ys ++ b ∷ zs)
    → (ys' : List ℕ) × (b' : ℕ) × (zs' : List ℕ) × (us ≡ ys' ++ b' ∷ zs') × (length ys' ≡ length ys)
split_as [] b zs [] e = absurd (omega arith)
split_as [] b zs (u ∷ us) e = ([], u, us, refl, refl)
split_as (y ∷ ys) b zs [] e = absurd (omega arith)
split_as (y ∷ ys) b zs (u ∷ us) e =
    let (ys', b', zs', p, q) = split_as ys b zs us (omega arith) in
    (u ∷ ys', b', zs', ap (λ ws. u ∷ ws) p, ap suc q)

pub map-split :
    (f g : ℕ → ℕ) (ys zs ys' zs' : List ℕ)
    → length ys' ≡ length ys
    → map g (ys' ++ zs') ≡ map f (ys ++ zs)
    → (map g ys' ≡ map f ys) × (map g zs' ≡ map f zs)
map-split f g [] zs [] zs' e h = (refl, h)
map-split f g [] zs (y' ∷ ys') zs' e h = absurd (omega arith)
map-split f g (y ∷ ys) zs [] zs' e h = absurd (omega arith)
map-split f g (y ∷ ys) zs (y' ∷ ys') zs' e h =
    let (p, q) = map-split f g ys zs ys' zs' (omega arith) (cc) in (cc, q)
