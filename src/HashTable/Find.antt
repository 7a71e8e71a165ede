-- ===== src/HashTable/Find.antt =====
-- `ht_find` gives the first datum of the key's list that matches the key.
use cutil.Prelude.{
  ℕ, zero, suc, ◌+◌, ◌%◌, ◌<◌, ◌≡◌, refl, sym, ◌∙◌, subst, Bool, false, Bool-cases, inl, inr, some,
  List, [], ◌∷◌, ◌++◌, append_assoc, length, lt→ltb, ◌==◌, if◌then◌else◌, get_elem?, arith, ok,
  ◌>>=◌, pos,
}
use cutil.ListItem.Fields.{payload_of}
use cutil.ListItem.Ring.{count, count-append, head_of}
use cutil.LinkedList.{ListT, list_get}
use cutil.LinkedList.Iterate.{list_itr_begin-head, list_itr_next-at, list_get-payload}
use cutil.LinkedList.Valid.{IsValid, contents}
use cutil.HashTable.{HtT, list_at, find_in, ht_find, list_of, ht_get}

-- The first datum that passes a test, 0 (NULL) if none does.
unfoldable pub first_match : (ℕ → Bool) → List ℕ → ℕ
first_match matches [] = 0
first_match matches (x ∷ xs) = if matches x then x else first_match matches xs

-- A run that ends in an iterator, and what `ht_get` gives there.
module _ (h : HtT) (l : ListT) (index key : ℕ) (here : get_elem? h.lists index ≡ some l)
    (inside : index < h.size) where
  pub list_at-here : list_at h.lists index ≡ ok l
  unfolding list_at
  list_at-here = rw (list_at, here)

  pub ht_get-here :
      (i : ℕ) → ht_get h (record { idx = pos index; itr = pos i }) ≡ list_get l (pos i)
  unfolding ht_get list_of
  ht_get-here i = rw (lt→ltb index h.size inside, list_at-here)

  find_in-first :
      (fuel : ℕ) (ys zs : List ℕ) {fs : List ℕ}
      → IsValid l (ys ++ zs) fs
      → length zs < fuel
      → (find_in fuel h l index key (head_of zs) >>= ht_get h)
        ≡ ok (first_match (h.mfn key) (contents l zs))
  unfolding find_in first_match ht_get
  find_in-first zero ys zs v few = absurd (omega arith)
  find_in-first (suc fuel) ys [] v few = refl
  find_in-first (suc fuel) ys (z ∷ zs) {fs} v few =
      let v' = subst (λ us. IsValid l us fs) (sym (append_assoc ys (z ∷ []) zs)) v in
      let held : 0 < count z (ys ++ z ∷ zs) = ground (arith, count-append z ys (z ∷ zs)) in
      let got = list_get-payload v z held in
      elim (Bool-cases (h.mfn key (payload_of l.items z))) [
        | inl e ↦ rw (got, e) (ht_get-here z ∙ got)
        | inr e ↦
            rw (got, e, list_itr_next-at ys z zs v)
              (find_in-first fuel (ys ++ z ∷ []) zs v' (omega arith))
      ]

-- In a table with lists, for a key that is not NULL and whose list is valid, ht_find ends and
-- ht_get of the iterator that it returns gives the first datum of that list, in order, that the
-- match function accepts for the key, and NULL when there is none.
pub ht_find-ht_get :
    (h : HtT) (l : ListT) (key : ℕ) (us fs : List ℕ)
    → 0 < key
    → 0 < h.size
    → get_elem? h.lists (h.hfn key % h.size) ≡ some l
    → IsValid l us fs
    → (ht_find h key >>= ht_get h) ≡ ok (first_match (h.mfn key) (contents l us))
unfolding ht_find
ht_find-ht_get h l key us fs some_key some_lists here v =
    let index = h.hfn key % h.size in
    let inside : index < h.size = omega arith in
    let k : (key == 0) ≡ false = ground arith in
    let s : (h.size == 0) ≡ false = ground arith in
    rw (k, s, list_at-here h l index key here inside, list_itr_begin-head v)
      (find_in-first h l index key here inside (l.count + 1) [] us v (omega (arith, v.counted)))
