-- ===== src/LinkedList/Grow/Size.antt =====
-- The size of the new array: the doubling ends, does not wrap, and gives room.
use cutil.Prelude.{
  ℕ, zero, suc, ◌+◌, ◌*◌, ◌^◌, ◌≤◌, ◌<◌, ◌≡◌, sym, ap, ◌∙◌, ltb, ◌==◌, Bool-cases, inl, inr, arith,
  Returns, ltb→lt,
}
use native.Mathlib.Nat.{pow-succ', mul_assoc}
use cutil.LinkedList.{word, double_size, grow_size}

double_pow : (n fuel : ℕ) → n * 2 ^ suc fuel ≡ n * 2 * 2 ^ fuel
double_pow n fuel = rw (pow-succ' 2 fuel) (sym (mul_assoc n 2 (2 ^ fuel)))

double_size-bounds :
    (fuel n wanted : ℕ)
    → n < wanted
    → wanted ≤ 2 ^ 63
    → wanted ≤ n * 2 ^ fuel
    → Returns (double_size fuel n wanted) λ r. (wanted ≤ r) × (r < 2 * wanted)
unfolding double_size
double_size-bounds zero n wanted small fits enough = absurd (omega arith)
double_size-bounds (suc fuel) n wanted small fits enough =
    let e : word (n * 2) ≡ n * 2 = omega arith in
    elim (Bool-cases (ltb (n * 2) wanted)) [
      | inl more ↦
          let (r, run, b) =
            double_size-bounds fuel (n * 2) wanted (ltb→lt _ _ more) fits
              (rw (double_pow n fuel) at enough) in
          (r, rw (e, more) run, b)
      | inr done ↦ (n * 2, rw (e, done), (ground arith, omega arith))
    ]

-- For a positive amount and a sum of size and amount of at most 2^63, the size of the new array is
-- found within 65 doublings without wrapping, is at least the sum and less than twice the sum.
pub grow_size-bounds :
    (size amount : ℕ)
    → 0 < amount
    → size + amount ≤ 2 ^ 63
    → Returns (grow_size size amount) λ r. (size + amount ≤ r) × (r < 2 * (size + amount))
unfolding grow_size
grow_size-bounds size amount pos fits = elim (Bool-cases (size == 0)) [
  | inl e ↦ (amount, rw e, (ground arith, omega arith))
  | inr e ↦
      let nonzero : 0 < size = ground arith in
      let w : word (size + amount) ≡ size + amount = omega arith in
      let (r, run, b) =
        double_size-bounds 65 size (size + amount) (omega arith) fits (omega arith) in
      (r, rw e (ap (double_size 65 size) w ∙ run), b)
]
