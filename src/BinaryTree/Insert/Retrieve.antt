-- ===== src/BinaryTree/Insert/Retrieve.antt =====
-- `bt_add` and then `bt_find`.
use cutil.Prelude.{
  ℕ, subst, ◌+◌, ◌<◌, ◌≡◌, inl, inr, refl, sym, ap, ◌∙◌, Bool, true, false, List, [], ◌∷◌, ◌++◌,
  if◌then◌else◌, Bool-cases, ◌^◌, arith, ok, fault, out_of_fuel, ℤ,
}
use cutil.BinaryTree.{BtT, bt_find}
use cutil.BinaryTree.Edit.{bt_add}
use cutil.BinaryTree.Order.{equal_keys}
use cutil.BinaryTree.Shape.{Tree}
use cutil.BinaryTree.Insert.Entry.{Inserted}
use cutil.BinaryTree.Valid.{IsValid, entries, lookup, bt_find-lookup}
use cutil.BinaryTree.Insert.Add.{bt_add-Added}

lookup-other :
    (cmp : ℕ → ℕ → ℤ) (k : ℕ) (low : List (ℕ × ℕ)) (e : ℕ × ℕ) (high : List (ℕ × ℕ))
    → equal_keys cmp k e.0 ≡ false
    → lookup cmp k (low ++ e ∷ high) ≡ lookup cmp k (low ++ high)
lookup-other cmp k [] e high h = rw h refl
lookup-other cmp k (x ∷ low) e high h =
    ap (λ r. if equal_keys cmp k x.0 then x.1 else r) (lookup-other cmp k low e high h)

lookup-Inserted :
    (btree b : BtT) (T T' : Tree) (key value k : ℕ)
    → Inserted btree b T T' key value
    → lookup btree.kcfn k (entries b T')
      ≡ (if equal_keys btree.kcfn k key then value else lookup btree.kcfn k (entries btree T))
lookup-Inserted btree b T T' key value k w = elim (Bool-cases (equal_keys btree.kcfn k key)) [
  | inl e ↦ rw (w.new, e) (w.below k ((key, value) ∷ w.high) e ∙ rw e refl)
  | inr e ↦ rw (w.new, e, w.old) (lookup-other btree.kcfn k w.low (key, value) w.high e)
]

find-Inserted :
    (btree b : BtT) (T T' : Tree) (fs fs' : List ℕ) (key value k : ℕ)
    → IsValid btree T fs
    → IsValid b T' fs'
    → 0 < k
    → Inserted btree b T T' key value
    → bt_find b k ≡ (if equal_keys btree.kcfn k key then ok value else bt_find btree k)
find-Inserted btree b T T' fs fs' key value k v v' h w =
    bt_find-lookup b T' fs' k v' h
    ∙ rw (w.kcfn, lookup-Inserted btree b T T' key value k w, bt_find-lookup btree T fs k v h)
        (ok_if (equal_keys btree.kcfn k key) value (lookup btree.kcfn k (entries btree T)))
  where
    ok_if : (b : Bool) (x y : ℕ) → ok (if b then x else y) ≡ (if b then ok x else ok y)
    ok_if true x y = refl
    ok_if false x y = refl

ok-injective : {A : Type 0} (x y : A) → ok x ≡ ok y → x ≡ y
ok-injective x y e = ap (λ r. elim r [ ok z ↦ z | fault ↦ x | out_of_fuel ↦ x ]) e

-- After bt_add of a key and a value that are not NULL has returned TRUE on a valid tree of fewer
-- than 2^64 - 1 nodes, bt_find of any key that is not NULL gives the new value if the keys compare
-- as equal, and else what it gave before.
pub bt_add-bt_find :
    (alloc_list alloc_block : Bool) (btree b : BtT) (T : Tree) (fs : List ℕ) (key value k : ℕ)
    → IsValid btree T fs
    → 0 < key
    → 0 < value
    → 0 < k
    → btree.size + 1 < 2 ^ 64
    → bt_add alloc_list alloc_block btree key value ≡ ok (true, b)
    → bt_find b k ≡ (if equal_keys btree.kcfn k key then ok value else bt_find btree k)
bt_add-bt_find alloc_list alloc_block btree b T fs key value k v hk hv h small run =
    let (r, run', (T', fs', v', out)) =
      bt_add-Added alloc_list alloc_block btree T fs key value v hk hv small in
    let e : r ≡ (true, b) = ok-injective r (true, b) (sym run' ∙ run) in
    elim out [
      | inl (_, w) ↦
          find-Inserted btree b T T' fs fs' key value k v (subst (λ x. IsValid x.1 T' fs') e v') h
            (subst (λ x. Inserted btree x.1 T T' key value) e w)
      | inr (added, _, _) ↦ absurd (let e₀ = ap (λ x. x.0) e in ground arith)
    ]
