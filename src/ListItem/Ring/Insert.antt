-- ===== src/ListItem/Ring/Insert.antt =====
-- `insert_item` on circular lists: where the new item stands, and that all else stays.
use cutil.Prelude.{ℕ, ◌≤◌, ◌<◌, ◌≡◌, ◌≢◌, sym, List, [], ◌∷◌, ◌++◌, arith, ℤ, pos, length, Returns}
use cutil.ListItem.{Item, itr_end, insert_item}
use cutil.ListItem.Fields.{next_of, prev_of, SameData}
use cutil.ListItem.Insert.{Inserted, insert_item-Inserted, insert_item-InsertedAlone}
use cutil.ListItem.Ring.{
  count, count-append, last, count-last, Linked, Ring, Linked-last, Linked-split, Linked-join,
  Linked-retarget, Linked-frame, Distinct, Untouched,
}

module _ {l b n : ℕ} {xs ys : List Item} (i : Inserted l b n xs ys) where
  next-left : next_of ys l ≡ pos n
  next-left = ground (arith, i.next l)

  next-new : l ≢ n → next_of ys n ≡ pos b
  next-new h = ground (arith, i.next n)

  prev-new : b ≢ n → prev_of ys n ≡ pos l
  prev-new h = ground (arith, i.prev n)

  prev-right : prev_of ys b ≡ pos n
  prev-right = ground (arith, i.prev b)

  next-else : (j : ℕ) → j ≢ l → j ≢ n → next_of ys j ≡ next_of xs j
  next-else j p q = ground (arith, i.next j)

  prev-else : (j : ℕ) → j ≢ b → j ≢ n → prev_of ys j ≡ prev_of xs j
  prev-else j p q = ground (arith, i.prev j)

-- A different index is one that occurs more often, or less.
pub ne_of_count : (j k : ℕ) (us : List ℕ) → count j us ≡ 0 → 0 < count k us → j ≢ k
ne_of_count j k us h p e = ground arith

Linked-insert :
    (xs ys : List Item) (a : ℕ) (us : List ℕ) (b n : ℕ)
    → Linked xs a us b
    → ((j : ℕ) → count j (a ∷ us) ≤ 1)
    → count n (a ∷ us) ≡ 0
    → count b us ≡ 0
    → b ≢ n
    → Inserted (last a us) b n xs ys
    → Linked ys a (us ++ n ∷ []) b
Linked-insert xs ys a us b n h once new out bn i =
    Linked-join ys a us n [] b
      (Linked-retarget xs ys a us b n h once (next-left i) (prev-new i bn)
        (λ j p q. next-else i j q (ne n j (a ∷ us) new p))
        (λ j p. prev-else i j (ne b j us out p) (ne n j us (omega arith) p)))
      (next-new i (ne n (last a us) (a ∷ us) new (count-last a us)), prev-right i)
  where
    ne : (k j : ℕ) (vs : List ℕ) → count k vs ≡ 0 → 0 < count j vs → j ≢ k
    ne k j vs z p e = ne_of_count k j vs z p (sym e)

Untouched-Inserted :
    {l b n : ℕ} {xs ys : List Item} (us : List ℕ)
    → Inserted l b n xs ys
    → 0 < count l us
    → 0 < count b us
    → 0 < count n us
    → Untouched us xs ys
Untouched-Inserted {l} {b} {n} us i hl hb hn j z =
    let nn = ne_of_count j n us z hn in
    (next-else i j (ne_of_count j l us z hl) nn, prev-else i j (ne_of_count j b us z hb) nn)

-- An item put in front of the head stands at the tail, as long as the head stays.
pub insert_item-tail :
    (xs : List Item) (x : ℕ) (us : List ℕ) (n : ℕ)
    → Linked xs x us x
    → Distinct (length xs) (x ∷ us)
    → count n (x ∷ us) ≡ 0
    → n < length xs
    → Returns (insert_item xs (pos x) (pos n)) λ r.
      (r.0 ≡ pos x)
      × SameData xs r.1
      × Linked r.1 x (us ++ n ∷ []) x
      × Untouched (n ∷ x ∷ us) xs r.1
insert_item-tail xs x us n h own new hn =
    let l = last x us in
    let e = Linked-last xs x us x h in
    let cl = count-last x us in
    let (r, run, (e₀, i)) =
      insert_item-Inserted xs l x n ((own l).1 cl) ((own x).1 (ground arith)) hn e.1 in
    let hx : count x us ≡ 0 = ground (arith, own x) in
    let xn : x ≢ n = λ p. ground arith in
    (
      r,
      run,
      (
        e₀,
        i.same,
        Linked-insert xs r.1 x us x n h (λ j. (own j).0) new hx xn i,
        Untouched-Inserted (n ∷ x ∷ us) i (omega arith) (ground arith) (ground arith),
      ),
    )

-- An item put in front of an item other than the head.
pub insert_item-middle :
    (xs : List Item) (x : ℕ) (ys : List ℕ) (b : ℕ) (zs : List ℕ) (n : ℕ)
    → Linked xs x (ys ++ b ∷ zs) x
    → Distinct (length xs) (x ∷ ys ++ b ∷ zs)
    → count n (x ∷ ys ++ b ∷ zs) ≡ 0
    → n < length xs
    → Returns (insert_item xs (pos b) (pos n)) λ r.
      (r.0 ≡ pos b)
      × SameData xs r.1
      × Linked r.1 x (ys ++ n ∷ b ∷ zs) x
      × Untouched (n ∷ x ∷ ys ++ b ∷ zs) xs r.1
insert_item-middle xs x ys b zs n h own new hn =
    let l = last x ys in
    let (p, q) = Linked-split xs x ys b zs x h in
    let e = Linked-last xs x ys b p in
    let c = λ (j : ℕ). count-append j (x ∷ ys) (b ∷ zs) in
    let cl = count-last x ys in
    let hb : 0 < count b (b ∷ zs) = ground arith in
    let in_front : count n (x ∷ ys) ≡ 0 = omega (arith, c n) in
    let behind : count n (b ∷ zs) ≡ 0 = omega (arith, c n) in
    let (r, run, (e₀, i)) =
      insert_item-Inserted xs l b n ((own l).1 (omega (arith, c l)))
        ((own b).1 (omega (arith, c b))) hn e.1 in
    let front =
      Linked-insert xs r.1 x ys b n p (λ j. omega (arith, own j, c j)) in_front
        (omega (arith, own b, c b)) (λ t. ne_of_count n b (b ∷ zs) behind hb (sym t)) i in
    let (f, g) = Linked-split r.1 x ys n [] b front in
    let back : Linked r.1 b zs x =
      Linked-frame xs r.1 b zs x q
        (prev-else i x (λ t. ground (arith, own b, c b)) (λ t. ground arith))
        (λ j k. next-else i j (λ t. ground (arith, own l, c l)) (λ t. ground arith))
        (λ j k. prev-else i j (λ t. ground (arith, own b, c b)) (λ t. ground arith)) in
    (
      r,
      run,
      (
        e₀,
        i.same,
        Linked-join r.1 x ys n (b ∷ zs) x f (g.0, g.1, back),
        Untouched-Inserted (n ∷ x ∷ ys ++ b ∷ zs) i (omega (arith, c l)) (omega (arith, c b))
            (ground arith),
      ),
    )

-- The first item of an empty list.
pub insert_item-empty :
    (xs : List Item) (n : ℕ)
    → n < length xs
    → Returns
        (insert_item xs itr_end (pos n))
        λ r. (r.0 ≡ pos n) × SameData xs r.1 × Linked r.1 n [] n × Untouched (n ∷ []) xs r.1
insert_item-empty xs n hn =
    let (r, run, (e, i)) = insert_item-InsertedAlone xs n hn in
    (
      r,
      run,
      (
        e,
        i.same,
        (ground (arith, i.next n), ground (arith, i.prev n)),
        λ j z. (ground (arith, i.next j), ground (arith, i.prev j)),
      ),
    )

-- `insert_item` in front of the head puts the item at the end, also of an empty list.
pub insert_item-append :
    (t : List Item) (us : List ℕ) (head : ℤ) (b : ℕ)
    → Ring t us head
    → Distinct (length t) us
    → count b us ≡ 0
    → b < length t
    → Returns
        (insert_item t head (pos b))
        λ q. SameData t q.1 × Ring q.1 (us ++ b ∷ []) q.0 × Untouched (b ∷ us) t q.1
insert_item-append t [] head b h own new hb =
    let (q, run, (e, same, ring, away)) = insert_item-empty t b hb in
    (q, rw h run, (same, (e, ring), away))
insert_item-append t (g ∷ gs) head b h own new hb =
    let (q, run, (e, same, ring, away)) = insert_item-tail t g gs b h.1 own new hb in
    (q, rw h.0 run, (same, (e, ring), away))
