-- ===== src/HashTable/Delete.antt =====
-- `ht_deinit` of src/hashtable.c gives the data of all lists to the delete function.
use cutil.Prelude.{
  ℕ, zero, suc, ◌+◌, ◌<◌, ◌≡◌, refl, sym, ap, ap₂, ◌∙◌, Bool, true, some, List, [], ◌++◌, ◌==◌,
  if◌then◌else◌, get_elem?, arith, ok, Bool-cases, inl, inr,
}
use cutil.LinkedList.{ListT, list_deinit}
use cutil.LinkedList.Lifecycle.{list_deinit-deletes}
use cutil.HashTable.{HtT, list_at}
use cutil.HashTable.Edit.{deinit_lists, ht_deinit}
use cutil.HashTable.Find.{list_at-here}
use cutil.HashTable.Insert.{IsTable}
use cutil.HashTable.Walk.{data_from, list_data, list_data-here}

deinit-step :
    (n i : ℕ) (lists : List ListT) (l : ListT) (r : Bool × ListT × List ℕ) (more : List ℕ)
    → list_at lists i ≡ ok l
    → list_deinit l ≡ ok r
    → deinit_lists n (i + 1) lists ≡ ok more
    → deinit_lists (suc n) i lists ≡ ok (r.2 ++ more)
unfolding deinit_lists
deinit-step n i lists l r more e f g = rw (e, f, g) refl

-- What is deleted: nothing without a delete function.
abbrev deleted_by : ℕ → List ℕ → List ℕ
deleted_by dfn xs = if dfn == 0 then [] else xs

deleted_by-append :
    (dfn : ℕ) (xs ys : List ℕ) → deleted_by dfn xs ++ deleted_by dfn ys ≡ deleted_by dfn (xs ++ ys)
deleted_by-append dfn xs ys = elim (Bool-cases (dfn == 0)) [ inl e ↦ rw e refl | inr e ↦ rw e refl ]

module _ (h : HtT) (uss fss : ℕ → List ℕ) (t : IsTable h uss fss)
    (same_dfn : (i : ℕ) (l : ListT) → get_elem? h.lists i ≡ some l → l.dfn ≡ h.dfn) where
  deinit_lists-data :
      (n i : ℕ)
      → i + n ≡ h.size
      → deinit_lists n i h.lists ≡ ok (deleted_by h.dfn (data_from h uss n i))
  unfolding deinit_lists data_from
  deinit_lists-data zero i e = elim (Bool-cases (h.dfn == 0)) [
    | inl d ↦ rw d refl
    | inr d ↦ rw d refl
  ]
  deinit_lists-data (suc n) i e =
      let inside : i < h.size = omega (arith, e) in
      let (l, here, d) = t.lists_at i inside in
      let (r, run, (done, v, z, deleted)) = list_deinit-deletes l (uss i) (fss i) d.valid in
      let same = ap₂ deleted_by (same_dfn i l here) (sym (list_data-here h uss i l here)) in
      deinit-step n i h.lists l r (deleted_by h.dfn (data_from h uss n (i + 1)))
        (list_at-here h l i 0 here inside) run (deinit_lists-data n (i + 1) (omega (arith, e)))
      ∙ ap (λ xs. ok (xs ++ deleted_by h.dfn (data_from h uss n (i + 1)))) (deleted ∙ same)
      ∙ ap ok (deleted_by-append h.dfn (list_data h uss i) (data_from h uss n (i + 1)))

-- In a valid table whose lists have the delete function of the table, ht_deinit returns TRUE and
-- has called that function, where there is one, on each datum once: on those of each list in
-- order, list after list.
pub ht_deinit-deletes :
    (h : HtT) (uss fss : ℕ → List ℕ)
    → IsTable h uss fss
    → ((i : ℕ) (l : ListT) → get_elem? h.lists i ≡ some l → l.dfn ≡ h.dfn)
    → ht_deinit h ≡ ok (true, (if h.dfn == 0 then [] else data_from h uss h.size 0))
unfolding ht_deinit
ht_deinit-deletes h uss fss t same_dfn =
    rw (deinit_lists-data h uss fss t same_dfn h.size 0 (omega arith)) refl
