-- ===== src/HashTable/Insert.antt =====
-- `ht_insert` into a table that need not grow, and what `ht_find` finds afterwards.
use mathlib.Core.Option.{none-ne-some, some-injective}
use cutil.Prelude.{
  ℕ, zero, suc, ◌+◌, ◌/◌, ◌%◌, ◌^◌, ◌≤◌, ◌<◌, ◌≡◌, refl, sym, ap, ap₂, ◌∙◌, subst, Bool, true,
  false, ◌&&◌, Bool-cases, inl, inr, some, List, [], ◌∷◌, ◌++◌, ◌==◌, ==_iff, if◌then◌else◌,
  get_elem?, set, arith, ok, Returns, ◌>>=◌,
}
use cutil.ListItem.{itr_end}
use cutil.ListItem.Ring.{count, count-append}
use cutil.LinkedList.{ListT, word}
use cutil.LinkedList.Edit.{list_push}
use cutil.LinkedList.Push.Laws.{list_push-end}
use cutil.LinkedList.Valid.{IsValid, contents}
use cutil.HashTable.{ht_itr_end, HtT, list_at, ht_find, ht_get}
use cutil.HashTable.Find.{first_match, list_at-here, ht_find-ht_get}
use cutil.HashTable.Edit.{Alloc, update_list, ht_insert}

-- A list of the table is valid and has no NULL among its data.
pub record HoldsData (l : ListT) (us fs : List ℕ) : Type 0 where
  pub valid : IsValid l us fs
  pub no_null : count 0 (contents l us) ≡ 0

pub record IsTable (h : HtT) (uss fss : ℕ → List ℕ) : Type 0 where
  pub some_lists : 0 < h.size
  pub lists_at :
      (i : ℕ)
      → i < h.size
      → (l : ListT) × (get_elem? h.lists i ≡ some l) × HoldsData l (uss i) (fss i)

get_elem?-set :
    (ls : List ListT) (i j : ℕ) (l l' : ListT)
    → get_elem? ls i ≡ some l
    → get_elem? (set ls i l') j ≡ (if i == j then some l' else get_elem? ls j)
get_elem?-set [] i j l l' e = absurd (none-ne-some l e)
get_elem?-set (k ∷ ls) zero zero l l' e = refl
get_elem?-set (k ∷ ls) zero (suc j) l l' e = ground arith
get_elem?-set (k ∷ ls) (suc i) zero l l' e = ground arith
get_elem?-set (k ∷ ls) (suc i) (suc j) l l' e = ground (arith, get_elem?-set ls i j l l' e)

first_match-append :
    (m : ℕ → Bool) (xs : List ℕ) (x : ℕ)
    → count 0 xs ≡ 0
    → first_match m (xs ++ x ∷ [])
      ≡ (if (first_match m xs == 0) && m x then x else first_match m xs)
unfolding first_match
first_match-append m [] x h = elim (Bool-cases (m x)) [ inl e ↦ rw e | inr e ↦ rw e ]
first_match-append m (y ∷ xs) x h = elim (Bool-cases (m y)) [
  | inl e ↦ let ne : (y == 0) ≡ false = ground arith in rw (e, ne) refl
  | inr e ↦ rw e (first_match-append m xs x (ground arith))
]

update_list-ok :
    (ls : List ListT) (i : ℕ) (l l' : ListT)
    → get_elem? ls i ≡ some l
    → update_list ls i l' ≡ ok (set ls i l')
unfolding update_list
update_list-ok ls i l l' e = rw (update_list, e)

-- The table in which list `i` has become `l'`.
module _ (h : HtT) (uss fss : ℕ → List ℕ) (t : IsTable h uss fss) (i : ℕ) (l l' : ListT)
    (us' fs' : List ℕ) (here : get_elem? h.lists i ≡ some l) (d : HoldsData l' us' fs') where
  abbrev updated : HtT
  updated = record h { count = word (h.count + 1); lists = set h.lists i l' }

  abbrev new_at : List ℕ → (ℕ → List ℕ) → ℕ → List ℕ
  new_at us uss j = if i == j then us else uss j

  updated-IsTable : IsTable updated (new_at us' uss) (new_at fs' fss)
  updated-IsTable = record {
    some_lists = t.some_lists;
    lists_at = λ j lt. elim (Bool-cases (i == j)) [
      | inl e ↦ (l', rw (get_elem?-set h.lists i j l l' here, e) refl, rw e d)
      | inr e ↦
          let (k, at, dk) = t.lists_at j lt in
          (k, rw (get_elem?-set h.lists i j l l' here, e) at, rw e dk)
    ];
  }

-- What a lookup of `key` gives once `x` is in the table.
pub with_new : HtT → ℕ → ℕ → ℕ → ℕ
with_new h x key found =
    if (h.hfn x % h.size == h.hfn key % h.size) && ((found == 0) && h.mfn key x) then x else found

module _ (h : HtT) (uss fss : ℕ → List ℕ) (t : IsTable h uss fss) (l l' : ListT) (x key : ℕ)
    (us' fs' : List ℕ) (here : get_elem? h.lists (h.hfn x % h.size) ≡ some l)
    (d : HoldsData l' us' fs') (some_key : 0 < key)
    (longer : contents l' us' ≡ contents l (uss (h.hfn x % h.size)) ++ x ∷ []) where
  lookup-updated :
      (ht_find (updated h uss fss t (h.hfn x % h.size) l l' us' fs' here d) key
        >>= ht_get (updated h uss fss t (h.hfn x % h.size) l l' us' fs' here d))
      ≡ (ht_find h key >>= ht_get h >>= λ found. ok (with_new h x key found))
  unfolding with_new
  lookup-updated =
      let i = h.hfn x % h.size in
      let j = h.hfn key % h.size in
      let h' = updated h uss fss t i l l' us' fs' here d in
      let (k, at, dk) = t.lists_at j (omega (arith, t.some_lists)) in
      let old = ht_find-ht_get h k key (uss j) (fss j) some_key t.some_lists at dk.valid in
      elim (Bool-cases (i == j)) [
        | inl e ↦
            let e' : i ≡ j = (==_iff i j).0 e in
            let k' : l ≡ k =
              some-injective l k (sym here ∙ ap (λ n. get_elem? h.lists n) e' ∙ at) in
            let whole : contents l' us' ≡ contents k (uss j) ++ x ∷ [] =
              longer ∙ ap₂ (λ k us. contents k us ++ x ∷ []) k' (ap uss e') in
            rw
              (
                ht_find-ht_get h' l' key us' fs' some_key t.some_lists
                    (rw (get_elem?-set h.lists i j l l' here, e) refl) d.valid,
                whole,
                old,
                e,
              )
              (ap ok (first_match-append (h.mfn key) (contents k (uss j)) x dk.no_null))
        | inr e ↦
            rw
              (
                ht_find-ht_get h' k key (uss j) (fss j) some_key t.some_lists
                    (rw (get_elem?-set h.lists i j l l' here, e) at) dk.valid,
                old,
                e,
              )
              refl
      ]

ht_insert-steps :
    (fuel : ℕ) (alloc : Alloc) (h : HtT) (x i : ℕ) (l l' : ListT) (lists' : List ListT)
    → i ≡ h.hfn x % h.size
    → (x == 0) ≡ false
    → ht_find h x ≡ ok ht_itr_end
    → h.limit.exceeded_by (h.count / h.size) ≡ false
    → (h.size == 0) ≡ false
    → list_at h.lists i ≡ ok l
    → list_push (alloc.item x) l x itr_end ≡ ok (true, l')
    → update_list h.lists i l' ≡ ok lists'
    → ht_insert (suc fuel) alloc h x
      ≡ ok (true, record h { count = word (h.count + 1); lists = lists' })
unfolding ht_insert
ht_insert-steps fuel alloc h x i l l' lists' e₀ e₁ e₂ e₃ e₄ e₅ e₆ e₇ =
    rw (e₁, e₂, e₃, e₄, sym e₀, e₅, e₆, e₇)

-- In a valid table that is not above its load limit, ht_insert of a datum that is not NULL and
-- that ht_find does not find, into a list of at most 2^63 - 1 slots and with memory for it,
-- returns TRUE and a valid table with one more datum; there ht_find and ht_get of any key that is
-- not NULL give the new datum when the old table has no match, the key falls into the same list
-- and matches the datum, and else what they gave before.
pub ht_insert-lookup :
    (fuel : ℕ) (alloc : Alloc) (h : HtT) (uss fss : ℕ → List ℕ) (l : ListT) (x key : ℕ)
    → IsTable h uss fss
    → get_elem? h.lists (h.hfn x % h.size) ≡ some l
    → l.size + 1 ≤ 2 ^ 63
    → 0 < x
    → 0 < key
    → alloc.item x ≡ true
    → ht_find h x ≡ ok ht_itr_end
    → h.limit.exceeded_by (h.count / h.size) ≡ false
    → Returns (ht_insert (suc fuel) alloc h x) λ r.
      (r.0 ≡ true)
      × (r.1.count ≡ word (h.count + 1))
      × ((uss' : ℕ → List ℕ) × (fss' : ℕ → List ℕ) × IsTable r.1 uss' fss')
      × ((ht_find r.1 key >>= ht_get r.1)
          ≡ (ht_find h key >>= ht_get h >>= λ found. ok (with_new h x key found)))
ht_insert-lookup fuel alloc h uss fss l x key t here small some_x some_key memory absent light =
    let i = h.hfn x % h.size in
    let inside : i < h.size = omega (arith, t.some_lists) in
    let (k, at, dk) = t.lists_at i inside in
    let k' : k ≡ l = some-injective k l (sym at ∙ here) in
    let dl = subst (λ k. HoldsData k (uss i) (fss i)) k' dk in
    let (r, run, (e, us', fs', v', same, _)) = list_push-end l (uss i) (fss i) x dl.valid small in
    let d : HoldsData r.1 us' fs' = record {
      valid = v';
      no_null =
          ground
            (arith, ap (count 0) same, count-append 0 (contents l (uss i)) (x ∷ []), dl.no_null);
    } in
    let z : (x == 0) ≡ false = ground arith in
    let s : (h.size == 0) ≡ false = ground (arith, t.some_lists) in
    (
      (true, updated h uss fss t i l r.1 us' fs' here d),
      ht_insert-steps fuel alloc h x i l r.1 (set h.lists i r.1) refl z absent light s
          (list_at-here h l i x here inside)
          (ap (λ a. list_push a l x itr_end) memory ∙ run ∙ ap (λ b. ok (b, r.1)) e)
          (update_list-ok h.lists i l r.1 here),
      (
        refl,
        refl,
        (
          new_at h uss fss t i l r.1 us' fs' here d us' uss,
          new_at h uss fss t i l r.1 us' fs' here d fs' fss,
          updated-IsTable h uss fss t i l r.1 us' fs' here d,
        ),
        lookup-updated h uss fss t l r.1 x key us' fs' here d some_key same,
      ),
    )
