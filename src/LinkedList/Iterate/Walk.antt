-- ===== src/LinkedList/Iterate/Walk.antt =====
-- Loops over a list with its iterators, as callers write them: `for (itr = list_itr_begin(l);
-- itr != list_itr_end(l); itr = list_itr_next(l, itr))`, and the same from the tail.
use cutil.Prelude.{
  ℕ, zero, suc, ◌+◌, ◌<◌, ◌≡◌, ◌⊎◌, inl, inr, refl, sym, ap, ◌∙◌, List, [], ◌∷◌, ◌++◌, map-append,
  append_assoc, append-nil, length, length-append, arith, ok, out_of_fuel, ℤ, pos, ◌==ℤ◌, ◌>>=◌,
  Result, if◌then◌else◌, subst,
}
use cutil.ListItem.{itr_end}
use cutil.ListItem.Ring.{count, count-append, head_of, last-append}
use cutil.LinkedList.{ListT, list_itr_begin, list_itr_tail, list_itr_next, list_itr_rnext, list_get}
use cutil.LinkedList.Iterate.{
  last_of, list_get-payload, list_itr_begin-head, list_itr_tail-last, list_itr_next-at,
  list_itr_rnext-at,
}
use cutil.LinkedList.Valid.{IsValid, contents}

pub walk : ℕ → ListT → ℤ → Result (List ℕ)
walk zero l itr = out_of_fuel
walk (suc fuel) l itr =
    if itr ==ℤ itr_end
    then ok []
    else do x ← list_get l itr; itr' ← list_itr_next l itr; xs ← walk fuel l itr'; ok (x ∷ xs)

-- From the tail; `later` is what the loop has seen.
pub walk_back : ℕ → ListT → ℤ → List ℕ → Result (List ℕ)
walk_back zero l itr later = out_of_fuel
walk_back (suc fuel) l itr later =
    if itr ==ℤ itr_end
    then ok later
    else do x ← list_get l itr; itr' ← list_itr_rnext l itr; walk_back fuel l itr' (x ∷ later)

in_middle : (i : ℕ) (ys zs : List ℕ) → 0 < count i (ys ++ i ∷ zs)
in_middle i ys zs = ground (arith, count-append i ys (i ∷ zs))

walk-contents :
    (fuel : ℕ) {l : ListT} (ys zs : List ℕ) {fs : List ℕ}
    → IsValid l (ys ++ zs) fs
    → length zs < fuel
    → walk fuel l (head_of zs) ≡ ok (contents l zs)
unfolding walk
walk-contents zero ys zs v h = absurd (omega arith)
walk-contents (suc fuel) ys [] v h = refl
walk-contents (suc fuel) {l} ys (z ∷ zs) {fs} v h =
    let v' = subst (λ us. IsValid l us fs) (sym (append_assoc ys (z ∷ []) zs)) v in
    rw (
      list_get-payload v z (in_middle z ys zs),
      list_itr_next-at ys z zs v,
      walk-contents fuel (ys ++ z ∷ []) zs v' (omega arith),
    )

pub Snoc-cases : (ys : List ℕ) → (ys ≡ []) ⊎ ((xs : List ℕ) × (y : ℕ) × (ys ≡ xs ++ y ∷ []))
Snoc-cases [] = inl refl
Snoc-cases (x ∷ xs) = elim (Snoc-cases xs) [
  | inl e ↦ inr ([], x, ap (λ ws. x ∷ ws) e)
  | inr (ws, y, e) ↦ inr (x ∷ ws, y, ap (λ ws. x ∷ ws) e)
]

pub last_of-append : (xs : List ℕ) (y : ℕ) → last_of (xs ++ y ∷ []) ≡ pos y
last_of-append [] y = refl
last_of-append (x ∷ xs) y = ap pos (last-append x xs y)

walk_back-contents :
    (fuel : ℕ) {l : ListT} (ys zs : List ℕ) {fs : List ℕ} (later : List ℕ)
    → IsValid l (ys ++ zs) fs
    → length ys < fuel
    → walk_back fuel l (last_of ys) later ≡ ok (contents l ys ++ later)
unfolding walk_back
walk_back-contents zero ys zs later v h = absurd (omega arith)
walk_back-contents (suc fuel) {l} ys zs {fs} later v h = elim (Snoc-cases ys) [
  | inl e ↦ rw e
  | inr (xs, y, e) ↦
      let v' : IsValid l (xs ++ y ∷ zs) fs =
        subst (λ us. IsValid l us fs) (ap (λ ws. ws ++ zs) e ∙ append_assoc xs (y ∷ []) zs) v in
      let short : length xs < fuel = omega (arith, length-append xs (y ∷ []), ap length e) in
      rw (
        e,
        last_of-append xs y,
        list_get-payload v' y (in_middle y xs zs),
        list_itr_rnext-at xs y zs v',
        walk_back-contents fuel xs (y ∷ zs) _ v' short,
        map-append,
        append_assoc,
      )
]

module _ {l : ListT} {us fs : List ℕ} (v : IsValid l us fs) where
  -- In a valid list, the loop from list_itr_begin by list_itr_next ends within count + 1 tests,
  -- and list_get gives the contents in order.
  pub walk_forward : walk (l.count + 1) l (list_itr_begin l) ≡ ok (contents l us)
  walk_forward =
      rw (list_itr_begin-head v) (walk-contents (l.count + 1) [] us v (omega (arith, v.counted)))

  -- In a valid list, the loop from list_itr_tail by list_itr_rnext ends within count + 1 tests,
  -- and the values that list_get gives, each put in front of those before it, are the contents.
  pub walk_backward :
      (list_itr_tail l >>= λ itr. walk_back (l.count + 1) l itr []) ≡ ok (contents l us)
  walk_backward =
      let v' : IsValid l (us ++ []) fs = rw append-nil v in
      let run = walk_back-contents (l.count + 1) us [] [] v' (omega (arith, v.counted)) in
      rw (list_itr_tail-last v) (run ∙ rw append-nil)
