-- ===== src/LinkedList/Lifecycle.antt =====
-- `list_init`, `list_new`, `list_reserve`, `list_deinit` and `list_clear`.
use cutil.Prelude.{
  ℕ, zero, suc, ◌+◌, ◌-◌, ◌%◌, ◌^◌, ◌≤◌, ◌<◌, ◌≡◌, inl, inr, refl, sym, Bool, true, List, [], ◌∷◌,
  ◌++◌, append_assoc, ltb, ◌==◌, if◌then◌else◌, Bool-cases, ltb→lt, length, arith, ok, Returns,
  subst,
}
use cutil.ListItem.{itr_end}
use cutil.ListItem.Ring.{count-append, head_of}
use cutil.LinkedList.{
  ListT, list_grow, list_init, list_reserve, delete_items, list_deinit, list_clear,
}
use cutil.LinkedList.Grow.Laws.{list_grow-Grown}
use cutil.LinkedList.Iterate.{item-used, list_itr_begin-head, list_itr_next-at}
use cutil.LinkedList.Valid.{IsValid, contents}

-- A list with no array.
abbrev pub bare : ℕ → ListT
bare dfn = record {
  dfn = dfn;
  size = 0;
  count = 0;
  used_head = itr_end;
  free_head = itr_end;
  items = [];
}

pub bare-IsValid : (dfn : ℕ) → IsValid (bare dfn) [] []
bare-IsValid dfn = record {
  slots = refl;
  counted = refl;
  total = refl;
  fits = omega arith;
  used = refl;
  free = refl;
  owned = λ j. ground arith;
  flagged = λ j. refl;
}

eq_nil : (us : List ℕ) → length us ≡ 0 → us ≡ []
eq_nil [] h = refl
eq_nil (u ∷ us) h = absurd (omega arith)

-- When CALLOC succeeds and the capacity is at most 2^63, list_init returns TRUE and a valid empty
-- list with at least that many slots and the delete function given.
pub list_init-IsValid :
    (initial_capacity dfn : ℕ)
    → initial_capacity ≤ 2 ^ 63
    → Returns (list_init true initial_capacity dfn) λ r.
      (r.0 ≡ true)
      × (fs : List ℕ) × IsValid r.1 [] fs
      × (initial_capacity ≤ r.1.size)
      × (r.1.dfn ≡ dfn)
unfolding list_init list_grow
list_init-IsValid zero dfn h =
    ((true, bare dfn), refl, (refl, [], bare-IsValid dfn, omega arith, refl))
list_init-IsValid (suc n) dfn h =
    let (r, run, (e, us', fs', g)) =
      list_grow-Grown (bare dfn) [] [] (bare-IsValid dfn) (suc n) (omega arith) (omega arith) in
    let none_used : us' ≡ [] = eq_nil us' g.many in
    (
      r,
      run,
      (e, fs', subst (λ us. IsValid r.1 us fs') none_used g.valid, omega (arith, g.room), g.dfn),
    )

-- When CALLOC succeeds, list_reserve of a valid list returns TRUE and a valid list with the same
-- contents and delete function, which has at least as many slots as the amount modulo 2^32: the
-- parameter has 32 bits.
pub list_reserve-room :
    (l : ListT) (us fs : List ℕ) (amount : ℕ)
    → IsValid l us fs
    → Returns (list_reserve true l amount) λ r.
      (r.0 ≡ true)
      × (us' : List ℕ) × (fs' : List ℕ) × IsValid r.1 us' fs'
      × (contents r.1 us' ≡ contents l us)
      × (amount % 2 ^ 32 ≤ r.1.size)
      × (r.1.dfn ≡ l.dfn)
unfolding list_reserve
list_reserve-room l us fs amount v = elim (Bool-cases (ltb l.size (amount % 2 ^ 32))) [
  | inr e ↦ ((true, l), rw e, (refl, us, fs, v, refl, ground arith, refl))
  | inl e ↦
      let lt = ltb→lt l.size (amount % 2 ^ 32) e in
      let (r, run, (d, us', fs', g)) =
        list_grow-Grown l us fs v (amount % 2 ^ 32 - l.size) (omega arith) (omega arith) in
      (r, rw e run, (d, us', fs', g.valid, g.same, omega (arith, g.room), g.dfn))
]

delete_items-contents :
    (fuel : ℕ) {l : ListT} (ys zs : List ℕ) {fs : List ℕ}
    → IsValid l (ys ++ zs) fs
    → length zs < fuel
    → delete_items fuel l (head_of zs) ≡ ok (contents l zs)
unfolding delete_items
delete_items-contents zero ys zs v h = absurd (omega arith)
delete_items-contents (suc fuel) ys [] v h = refl
delete_items-contents (suc fuel) {l} ys (z ∷ zs) {fs} v h =
    let v' = subst (λ us. IsValid l us fs) (sym (append_assoc ys (z ∷ []) zs)) v in
    rw (
      item-used v z (ground (arith, count-append z ys (z ∷ zs))),
      list_itr_next-at ys z zs v,
      delete_items-contents fuel (ys ++ z ∷ []) zs v' (omega arith),
    )

no_slots :
    (l : ListT) (us fs : List ℕ)
    → IsValid l us fs
    → l.size ≡ 0
    → (true ≡ true)
      × IsValid l [] []
      × (l.size ≡ 0)
      × (◌≡◌ {A = List ℕ} [] (if l.dfn == 0 then [] else contents l us))
no_slots l [] [] v e = (refl, v, e, ground arith)
no_slots l [] (f ∷ fs) v e = absurd (omega (arith, v.total))
no_slots l (u ∷ us) fs v e = absurd (omega (arith, v.total))

-- list_deinit of a valid list returns TRUE and a valid list with no items and no slots, and has
-- called the delete function, where there is one, on each datum once and in order.
pub list_deinit-deletes :
    (l : ListT) (us fs : List ℕ)
    → IsValid l us fs
    → Returns (list_deinit l) λ r.
      (r.0 ≡ true)
      × IsValid r.1 [] []
      × (r.1.size ≡ 0)
      × (r.2 ≡ (if l.dfn == 0 then [] else contents l us))
unfolding list_deinit
list_deinit-deletes l us fs v = elim (Bool-cases (l.size == 0)) [
  | inl e ↦ ((true, l, []), rw e, no_slots l us fs v (ground arith))
  | inr e ↦ elim (Bool-cases (l.dfn == 0)) [
    | inl d ↦ ((true, bare 0, []), rw (e, d), (refl, bare-IsValid 0, refl, rw d))
    | inr d ↦ (
      (true, bare 0, contents l us),
      rw (
        e,
        d,
        list_itr_begin-head v,
        delete_items-contents (l.count + 1) [] us v (omega (arith, v.counted)),
      ),
      (refl, bare-IsValid 0, refl, rw d),
    )
  ]
]

-- list_clear of a valid list returns TRUE and a valid empty list with the same delete function,
-- and has deleted the contents in order where there is one; no memory is needed.
pub list_clear-empties :
    (alloc : Bool) (l : ListT) (us fs : List ℕ)
    → IsValid l us fs
    → Returns (list_clear alloc l) λ r.
      (r.0 ≡ true)
      × IsValid r.1 [] []
      × (r.1.dfn ≡ l.dfn)
      × (r.2 ≡ (if l.dfn == 0 then [] else contents l us))
unfolding list_clear list_init list_grow
list_clear-empties alloc l us fs v =
    let (r, run, (e, v', z, d)) = list_deinit-deletes l us fs v in
    ((true, bare l.dfn, r.2), rw run, (refl, bare-IsValid l.dfn, refl, d))
