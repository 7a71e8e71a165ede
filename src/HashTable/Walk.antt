-- ===== src/HashTable/Walk.antt =====
-- The loop over a hash table with its iterators, as callers write it: from `ht_itr_begin` by
-- `ht_itr_next` to the end.
use cutil.Prelude.{
  ℕ, zero, suc, ◌+◌, ◌-◌, ◌<◌, ◌≡◌, refl, sym, ap, ◌∙◌, subst, true, false, Bool-cases, inl, inr,
  none, some, List, [], ◌∷◌, ◌++◌, append_assoc, length, length-append, length-map, ltb, lt→ltb,
  ◌==◌, if◌then◌else◌, get_elem?, arith, Result, ok, fault, out_of_fuel, ◌>>=◌, pos,
}
use cutil.ListItem.{itr_end}
use cutil.ListItem.Fields.{payload_of}
use cutil.ListItem.Ring.{count-append}
use cutil.LinkedList.{ListT, list_itr_next, list_itr_begin, list_count}
use cutil.LinkedList.Iterate.{list_itr_begin-head, list_itr_next-at, list_get-payload}
use cutil.LinkedList.Valid.{IsValid, contents}
use cutil.HashTable.{HtItr, ht_itr_end, itr_eq, HtT, list_at, list_of, ht_get}
use cutil.HashTable.Find.{list_at-here, ht_get-here}
use cutil.HashTable.Insert.{IsTable}
use cutil.HashTable.Iterate.{first_list, begin_of, next_list, advance, ht_itr_begin, ht_itr_next}

pub visit : ℕ → HtT → HtItr → Result (List ℕ)
visit zero h itr = out_of_fuel
visit (suc fuel) h itr =
    if itr_eq itr ht_itr_end
    then ok []
    else do x ← ht_get h itr; itr' ← ht_itr_next h itr; xs ← visit fuel h itr'; ok (x ∷ xs)

pub visit_all : HtT → Result (List ℕ)
visit_all h = do itr ← ht_itr_begin h; visit (h.count + 1) h itr

-- The data of list `i`, and of the `n` lists from `i` on.
unfoldable pub list_data : HtT → (ℕ → List ℕ) → ℕ → List ℕ
list_data h uss i = elim (get_elem? h.lists i) [ none ↦ [] | some l ↦ contents l (uss i) ]

unfoldable pub data_from : HtT → (ℕ → List ℕ) → ℕ → ℕ → List ℕ
data_from h uss zero i = []
data_from h uss (suc n) i = list_data h uss i ++ data_from h uss n (i + 1)

pub list_data-here :
    (h : HtT) (uss : ℕ → List ℕ) (i : ℕ) (l : ListT)
    → get_elem? h.lists i ≡ some l
    → list_data h uss i ≡ contents l (uss i)
unfolding list_data
list_data-here h uss i l e = rw (list_data, e) refl

bind_assoc :
    {A B C : Type 0} (r : Result A) (f : A → Result B) (g : B → Result C)
    → (r >>= f >>= g) ≡ (r >>= λ a. f a >>= g)
bind_assoc out_of_fuel f g = refl
bind_assoc fault f g = refl
bind_assoc (ok a) f g = refl

visit-step :
    (fuel : ℕ) (h : HtT) (i z x : ℕ)
    → ht_get h (record { idx = pos i; itr = pos z }) ≡ ok x
    → visit (suc fuel) h (record { idx = pos i; itr = pos z }) ≡ (
        ht_itr_next h (record { idx = pos i; itr = pos z }) >>= λ itr'.
        visit fuel h itr' >>= λ xs. ok (x ∷ xs))
unfolding visit
visit-step fuel h i z x e = rw e refl

-- The loop goes on at the first item of a list from `i` on, if there is one.
abbrev enter : ℕ → HtT → ℕ → ℕ → Result (List ℕ)
enter fuel h n i = first_list n h i >>= begin_of h >>= visit fuel h

none_counted : (l : ListT) (fs : List ℕ) → IsValid l [] fs → (list_count l == 0) ≡ true
unfolding list_count
none_counted l fs v = ground (arith, v.counted)

some_counted :
    (l : ListT) (z : ℕ) (zs fs : List ℕ) → IsValid l (z ∷ zs) fs → (list_count l == 0) ≡ false
unfolding list_count
some_counted l z zs fs v = ground (arith, v.counted)

enter-empty :
    (fuel : ℕ) (h : HtT) (n i : ℕ) (l : ListT)
    → list_at h.lists i ≡ ok l
    → (list_count l == 0) ≡ true
    → enter fuel h (suc n) i ≡ enter fuel h n (i + 1)
unfolding first_list
enter-empty fuel h n i l e c = rw (e, c) refl

enter-here :
    (fuel : ℕ) (h : HtT) (n i : ℕ) (l : ListT) (itr : HtItr)
    → list_at h.lists i ≡ ok l
    → (list_count l == 0) ≡ false
    → begin_of h i ≡ ok itr
    → enter fuel h (suc n) i ≡ visit fuel h itr
unfolding first_list
enter-here fuel h n i l itr e c b = rw (e, c, b) refl

enter-end : (fuel : ℕ) (h : HtT) (i : ℕ) → 0 < fuel → i ≡ h.size → enter fuel h 0 i ≡ ok []
unfolding first_list begin_of visit
enter-end zero h i some_fuel e = absurd (omega arith)
enter-end (suc fuel) h i some_fuel e = let out : ltb i h.size ≡ false = ground arith in rw out refl

module _ (h : HtT) (l : ListT) (i : ℕ) (here : get_elem? h.lists i ≡ some l)
    (inside : i < h.size) where
  next-inside :
      (z z' : ℕ)
      → list_itr_next l (pos z) ≡ ok (pos z')
      → ht_itr_next h (record { idx = pos i; itr = pos z })
        ≡ ok (record { idx = pos i; itr = pos z' })
  unfolding ht_itr_next advance list_of
  next-inside z z' e = rw (list_at-here h l i 0 here inside, e) refl

  next-end :
      (z : ℕ)
      → list_itr_next l (pos z) ≡ ok itr_end
      → ht_itr_next h (record { idx = pos i; itr = pos z })
        ≡ (first_list (h.size - (i + 1)) h (i + 1) >>= begin_of h)
  unfolding ht_itr_next advance list_of next_list
  next-end z e = rw (list_at-here h l i 0 here inside, e) refl

  begin-here : begin_of h i ≡ ok (record { idx = pos i; itr = list_itr_begin l })
  unfolding begin_of
  begin-here = rw (lt→ltb i h.size inside, list_at-here h l i 0 here inside) refl

  module _ (n : ℕ) (rounds : i + 1 + n ≡ h.size) (more : List ℕ)
      (rest : (fuel : ℕ) → length more < fuel → enter fuel h n (i + 1) ≡ ok more) where
    visit-list :
        (fuel : ℕ) (ys : List ℕ) (z : ℕ) (zs : List ℕ) {fs : List ℕ}
        → IsValid l (ys ++ z ∷ zs) fs
        → length (z ∷ zs) + length more < fuel
        → visit fuel h (record { idx = pos i; itr = pos z }) ≡ ok (contents l (z ∷ zs) ++ more)
    visit-list zero ys z zs v few = absurd (omega arith)
    visit-list (suc fuel) ys z [] v few =
        let got =
          ht_get-here h l i 0 here inside z
          ∙ list_get-payload v z (ground (arith, count-append z ys (z ∷ []))) in
        let k : h.size - (i + 1) ≡ n = omega (arith, rounds) in
        visit-step fuel h i z (payload_of l.items z) got
        ∙ ap (λ r. r >>= λ itr'. visit fuel h itr' >>= λ xs. ok (payload_of l.items z ∷ xs))
            (next-end z (list_itr_next-at ys z [] v)
              ∙ ap (λ j. first_list j h (i + 1) >>= begin_of h) k)
        ∙ sym (
            bind_assoc (first_list n h (i + 1) >>= begin_of h) (visit fuel h)
              (λ xs. ok (payload_of l.items z ∷ xs)))
        ∙ ap (λ r. r >>= λ xs. ok (payload_of l.items z ∷ xs)) (rest fuel (omega (arith, few)))
    visit-list (suc fuel) ys z (z' ∷ zs) {fs} v few =
        let got =
          ht_get-here h l i 0 here inside z
          ∙ list_get-payload v z (ground (arith, count-append z ys (z ∷ z' ∷ zs))) in
        let v' = subst (λ us. IsValid l us fs) (sym (append_assoc ys (z ∷ []) (z' ∷ zs))) v in
        visit-step fuel h i z (payload_of l.items z) got
        ∙ rw
            (
              next-inside z z' (list_itr_next-at ys z (z' ∷ zs) v),
              visit-list fuel (ys ++ z ∷ []) z' zs v' (omega (arith, few)),
            )
            refl

    enter-list :
        (fuel : ℕ) (us fs : List ℕ)
        → IsValid l us fs
        → length (contents l us) + length more < fuel
        → enter fuel h (suc n) i ≡ ok (contents l us ++ more)
    enter-list fuel [] fs v few =
        enter-empty fuel h n i l (list_at-here h l i 0 here inside) (none_counted l fs v)
        ∙ rest fuel (omega (arith, few))
    enter-list fuel (z ∷ zs) fs v few =
        enter-here fuel h n i l (record { idx = pos i; itr = list_itr_begin l })
          (list_at-here h l i 0 here inside) (some_counted l z zs fs v) begin-here
        ∙ ap (λ itr. visit fuel h (record { idx = pos i; itr = itr })) (list_itr_begin-head v)
        ∙ visit-list fuel [] z zs v (omega (arith, few, length-map (payload_of l.items) zs))

module _ (h : HtT) (uss fss : ℕ → List ℕ) (t : IsTable h uss fss) where
  enter-data :
      (n i fuel : ℕ)
      → i + n ≡ h.size
      → length (data_from h uss n i) < fuel
      → enter fuel h n i ≡ ok (data_from h uss n i)
  unfolding data_from
  enter-data zero i fuel e few = enter-end fuel h i (omega arith) (omega (arith, e))
  enter-data (suc n) i fuel e few =
      let inside : i < h.size = omega (arith, e) in
      let (l, here, d) = t.lists_at i inside in
      let same = list_data-here h uss i l here in
      let size = ap length same in
      let joined = length-append (list_data h uss i) (data_from h uss n (i + 1)) in
      enter-list h l i here inside n (omega (arith, e)) (data_from h uss n (i + 1))
        (λ fuel' few'. enter-data n (i + 1) fuel' (omega (arith, e)) few') fuel (uss i) (fss i)
        d.valid (omega (arith, few, size, joined))
      ∙ ap (λ xs. ok (xs ++ data_from h uss n (i + 1))) (sym same)

nothing : (xs : List ℕ) → length xs ≡ 0 → xs ≡ []
nothing [] e = refl
nothing (x ∷ xs) e = absurd (omega (arith, e))

visit-end : (fuel : ℕ) (h : HtT) → 0 < fuel → visit fuel h ht_itr_end ≡ ok []
unfolding visit
visit-end zero h some_fuel = absurd (omega arith)
visit-end (suc fuel) h some_fuel = refl

begin-end : (h : HtT) → 0 < h.size → ltb 0 h.count ≡ false → visit_all h ≡ ok []
unfolding visit_all ht_itr_begin
begin-end h some_lists e =
    rw (lt→ltb 0 h.size some_lists, e) (visit-end (h.count + 1) h (omega arith))

begin-enter :
    (h : HtT) → 0 < h.size → ltb 0 h.count ≡ true → visit_all h ≡ enter (h.count + 1) h h.size 0
unfolding visit_all ht_itr_begin
begin-enter h some_lists e = rw (lt→ltb 0 h.size some_lists, e) refl

-- In a valid table whose count is the number of its data, a loop from ht_itr_begin by ht_itr_next
-- to the end iterator ends within count + 1 tests, and ht_get gives in it all data: those of each
-- list in order, list after list.
pub visit_all-data :
    (h : HtT) (uss fss : ℕ → List ℕ)
    → IsTable h uss fss
    → h.count ≡ length (data_from h uss h.size 0)
    → visit_all h ≡ ok (data_from h uss h.size 0)
visit_all-data h uss fss t counted = elim (Bool-cases (ltb 0 h.count)) [
  | inl e ↦
      begin-enter h t.some_lists e
      ∙ enter-data h uss fss t h.size 0 (h.count + 1) (omega arith) (omega (arith, counted))
  | inr e ↦
      begin-end h t.some_lists e
      ∙ ap ok (sym (nothing (data_from h uss h.size 0) (ground (arith, counted))))
]
