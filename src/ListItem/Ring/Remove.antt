-- ===== src/ListItem/Ring/Remove.antt =====
-- `remove_item` on circular lists: the item leaves, the others keep their order.
use cutil.Prelude.{
  ℕ, ◌<◌, ◌≡◌, ◌≢◌, sym, List, [], ◌∷◌, ◌++◌, append-nil, arith, pos, length, Returns,
}
use cutil.ListItem.{Item, itr_end, remove_item}
use cutil.ListItem.Fields.{next_of, prev_of, SameData}
use cutil.ListItem.Remove.{Removed, remove_item-Removed, remove_item-RemovedAlone}
use cutil.ListItem.Ring.{
  count, count-append, last, count-last, Linked, Linked-last, Linked-split, Linked-join,
  Linked-retarget, Linked-frame, Distinct, Untouched,
}
use cutil.ListItem.Ring.Insert.{ne_of_count}

module _ {p i s : ℕ} {xs ys : List Item} (r : Removed p i s xs ys) where
  next-left : p ≢ i → next_of ys p ≡ pos s
  next-left h = ground (arith, r.next p)

  prev-right : s ≢ i → prev_of ys s ≡ pos p
  prev-right h = ground (arith, r.prev s)

  next-else : (j : ℕ) → j ≢ i → j ≢ p → next_of ys j ≡ next_of xs j
  next-else j h k = ground (arith, r.next j)

  prev-else : (j : ℕ) → j ≢ i → j ≢ s → prev_of ys j ≡ prev_of xs j
  prev-else j h k = ground (arith, r.prev j)

  Untouched-Removed :
      (us : List ℕ) → 0 < count p us → 0 < count i us → 0 < count s us → Untouched us xs ys
  Untouched-Removed us hp hi hs j z =
      let ji = ne_of_count j i us z hi in
      (next-else j ji (ne_of_count j p us z hp), prev-else j ji (ne_of_count j s us z hs))

-- The only item of a list.
pub remove_item-single :
    (xs : List Item) (x : ℕ)
    → Linked xs x [] x
    → x < length xs
    → Returns
        (remove_item xs (pos x))
        λ r. (r.0 ≡ itr_end) × SameData xs r.1 × Untouched (x ∷ []) xs r.1
remove_item-single xs x h hx =
    let (r, run, (e, i)) = remove_item-RemovedAlone xs x hx h.0 in
    (r, run, (e, i.same, λ j z. (ground (arith, i.next j), ground (arith, i.prev j))))

-- The head of a longer list: its successor is the new head.
pub remove_item-head :
    (xs : List Item) (x z : ℕ) (zs : List ℕ)
    → Linked xs x (z ∷ zs) x
    → Distinct (length xs) (x ∷ z ∷ zs)
    → Returns
        (remove_item xs (pos x))
        λ r. (r.0 ≡ pos z) × SameData xs r.1 × Linked r.1 z zs z × Untouched (x ∷ z ∷ zs) xs r.1
remove_item-head xs x z zs h own =
    let l = last z zs in
    let e = Linked-last xs z zs x h.2 in
    let cl = count-last z zs in
    let out : count x (z ∷ zs) ≡ 0 = ground (arith, own x) in
    let lx : l ≢ x = λ t. ne_of_count x l (z ∷ zs) out cl (sym t) in
    let zx : z ≢ x = λ t. ground arith in
    let (r, run, (e₀, i)) =
      remove_item-Removed xs l x z ((own l).1 (omega arith)) ((own x).1 (ground arith))
        ((own z).1 (ground arith)) h.0 e.1 lx zx in
    (
      r,
      run,
      (
        e₀,
        i.same,
        Linked-retarget xs r.1 z zs x z h.2 (λ j. omega (arith, own j)) (next-left i lx)
            (prev-right i zx) (λ j k n. next-else i j (λ t. ground arith) n)
            (λ j k. prev-else i j (λ t. ground arith) (λ t. ground (arith, own z))),
        Untouched-Removed i (x ∷ z ∷ zs) (omega arith) (ground arith) (ground arith),
      ),
    )

-- The index behind `b` in the circular list with head `x`.
abbrev pub after : ℕ → List ℕ → ℕ
after x [] = x
after x (z ∷ zs) = z

-- An item other than the head.
pub remove_item-middle :
    (xs : List Item) (x : ℕ) (ys : List ℕ) (b : ℕ) (zs : List ℕ)
    → Linked xs x (ys ++ b ∷ zs) x
    → Distinct (length xs) (x ∷ ys ++ b ∷ zs)
    → Returns (remove_item xs (pos b)) λ r.
      (r.0 ≡ pos (after x zs))
      × SameData xs r.1
      × Linked r.1 x (ys ++ zs) x
      × Untouched (x ∷ ys ++ b ∷ zs) xs r.1
remove_item-middle xs x ys b [] h own =
    let l = last x ys in
    let (p, q) = Linked-split xs x ys b [] x h in
    let e = Linked-last xs x ys b p in
    let c = λ (j : ℕ). count-append j (x ∷ ys) (b ∷ []) in
    let cl = count-last x ys in
    let out : count b (x ∷ ys) ≡ 0 = ground (arith, own b, c b) in
    let lb : l ≢ b = λ t. ne_of_count b l (x ∷ ys) out cl (sym t) in
    let xb : x ≢ b = λ t. ground arith in
    let (r, run, (e₀, i)) =
      remove_item-Removed xs l b x ((own l).1 (omega (arith, c l)))
        ((own b).1 (ground (arith, c b))) ((own x).1 (ground arith)) q.0 e.1 lb xb in
    (
      r,
      run,
      (
        e₀,
        i.same,
        rw append-nil (
            Linked-retarget xs r.1 x ys b x p (λ j. omega (arith, own j, c j)) (next-left i lb)
              (prev-right i xb) (λ j k n. next-else i j (λ t. ground arith) n)
              (λ j k. prev-else i j (λ t. ground arith) (λ t. ground (arith, own x, c x)))),
        Untouched-Removed i (x ∷ ys ++ b ∷ []) (omega (arith, c l)) (ground (arith, c b))
            (ground arith),
      ),
    )
remove_item-middle xs x ys b (z ∷ zs) h own =
    let l = last x ys in
    let (p, q) = Linked-split xs x ys b (z ∷ zs) x h in
    let e = Linked-last xs x ys b p in
    let c = λ (j : ℕ). count-append j (x ∷ ys) (b ∷ z ∷ zs) in
    let cl = count-last x ys in
    let out : count b (x ∷ ys) ≡ 0 = ground (arith, own b, c b) in
    let lb : l ≢ b = λ t. ne_of_count b l (x ∷ ys) out cl (sym t) in
    let zb : z ≢ b = λ t. ground (arith, own b, c b) in
    let (r, run, (e₀, i)) =
      remove_item-Removed xs l b z ((own l).1 (omega (arith, c l)))
        ((own b).1 (ground (arith, c b))) ((own z).1 (ground (arith, c z))) q.0 e.1 lb zb in
    (
      r,
      run,
      (
        e₀,
        i.same,
        Linked-join r.1 x ys z zs x
            (Linked-retarget xs r.1 x ys b z p (λ j. omega (arith, own j, c j)) (next-left i lb)
              (prev-right i zb) (λ j k n. next-else i j (λ t. ground arith) n)
              (λ j k. prev-else i j (λ t. ground arith) (λ t. ground (arith, own z, c z))))
            (Linked-frame xs r.1 z zs x q.2
              (prev-else i x (λ t. ground arith) (λ t. ground (arith, own z, c z)))
              (λ j k.
                next-else i j (λ t. ground (arith, own b, c b)) (λ t. ground (arith, own l, c l)))
              (λ j k.
                prev-else i j (λ t. ground (arith, own b, c b)) (λ t. ground (arith, own z, c z)))),
        Untouched-Removed i (x ∷ ys ++ b ∷ z ∷ zs) (omega (arith, c l)) (ground (arith, c b))
            (ground (arith, c z)),
      ),
    )
