-- ===== src/Prelude/Bits.antt =====
-- The binary digits of a number, and what `|` and `&` do to them.
use Prim.Native.Nat.{
  ℕ, zero, suc, ◌+◌, ◌-◌, ◌*◌, ◌/◌, ◌%◌, ◌^◌, ◌≤◌, ◌<◌, min, max, digits, bit_and, bit_or,
  bit_and-bitwise, bit_or-bitwise,
}
use mathlib.Core.Path.{◌≡◌, refl, sym, ◌∙◌, ap}
use mathlib.Core.Bool.{Bool, true, ◌&&◌}
use native.Mathlib.Omega.{arith}
use cutil.Prelude.Tests.{◌==◌, if◌then◌else◌}

-- The digit of weight 2 ^ j.
unfoldable pub digit : ℕ → ℕ → ℕ
digit w zero = w % 2
digit w (suc j) = digit (w / 2) j

pub digit-zero : (j : ℕ) → digit 0 j ≡ 0
unfolding digit
digit-zero zero = refl
digit-zero (suc j) = digit-zero j

pub digit-lt : (w j : ℕ) → digit w j < 2
unfolding digit
digit-lt w zero = omega arith
digit-lt w (suc j) = digit-lt (w / 2) j

-- An operation on numbers works digit by digit.
digit-digits :
    (z : ℕ → ℕ) (f : ℕ → ℕ → ℕ)
    → ((b j : ℕ) → digit (z b) j ≡ f 0 (digit b j))
    → ((x y : ℕ) → x < 2 → y < 2 → f x y < 2)
    → (n a b j : ℕ) → a ≤ n
    → digit (digits z f n a b) j ≡ f (digit a j) (digit b j)
unfolding digit
digit-digits z f ends small zero zero b j h = rw (digit-zero j) (ends b j)
digit-digits z f ends small zero (suc a) b j h = absurd (omega arith)
digit-digits z f ends small (suc n) zero b j h = rw (digit-zero j) (ends b j)
digit-digits z f ends small (suc n) (suc a) b zero h =
    omega (arith, small (suc a % 2) (b % 2) (omega arith) (omega arith))
digit-digits z f ends small (suc n) (suc a) b (suc j) h =
    let shifted : (digits z f n (suc a / 2) (b / 2) * 2 + f (suc a % 2) (b % 2)) / 2
        ≡ digits z f n (suc a / 2) (b / 2) =
      omega (arith, small (suc a % 2) (b % 2) (omega arith) (omega arith)) in
    ap (λ w. digit w j) shifted ∙ digit-digits z f ends small n (suc a / 2) (b / 2) j (omega arith)

pub digit-and : (a b j : ℕ) → digit (bit_and a b) j ≡ min (digit a j) (digit b j)
digit-and a b j =
    ap (λ w. digit w j) (bit_and-bitwise a b)
    ∙ digit-digits (λ b. 0) min (λ b j. omega (arith, digit-zero j)) (λ x y p q. omega arith) a a b
        j (omega arith)

pub digit-or : (a b j : ℕ) → digit (bit_or a b) j ≡ max (digit a j) (digit b j)
digit-or a b j =
    ap (λ w. digit w j) (bit_or-bitwise a b)
    ∙ digit-digits (λ b. b) max (λ b j. omega arith) (λ x y p q. omega arith) a a b j (omega arith)

-- A number is known by its digits.
digits_ext : (n a b : ℕ) → a ≤ n → b ≤ n → ((j : ℕ) → digit a j ≡ digit b j) → a ≡ b
unfolding digit
digits_ext zero a b p q same = omega arith
digits_ext (suc n) a b p q same =
    omega
      (arith, same 0, digits_ext n (a / 2) (b / 2) (omega arith) (omega arith) (λ j. same (suc j)))

abbrev lowest : ℕ → ℕ → ℕ
lowest a b = bit_and (a / 2) (b / 2) * 2 + min (a % 2) (b % 2)

digit-lowest : (a b j : ℕ) → digit (bit_and a b) j ≡ digit (lowest a b) j
unfolding digit
digit-lowest a b zero = digit-and a b 0 ∙ omega arith
digit-lowest a b (suc j) =
    digit-and a b (suc j) ∙ sym (digit-and (a / 2) (b / 2) j) ∙ ap (λ w. digit w j) (omega arith)

and_step : (a b : ℕ) → bit_and a b ≡ bit_and (a / 2) (b / 2) * 2 + min (a % 2) (b % 2)
and_step a b =
    digits_ext (bit_and a b + lowest a b) (bit_and a b) (lowest a b) (omega arith) (omega arith)
      (digit-lowest a b)

and-zero : (a : ℕ) → bit_and a 0 ≡ 0
and-zero a =
    digits_ext (bit_and a 0) (bit_and a 0) 0 (omega arith) (omega arith)
      λ j. omega (arith, digit-and a 0 j, digit-zero j)

-- A mask of k ones leaves the low k digits of a number.
pub and_ones : (k a : ℕ) → a < 2 ^ k → bit_and a (2 ^ k - 1) ≡ a
and_ones zero a h = omega (arith, and-zero a)
and_ones (suc k) a h =
    let half : (2 ^ suc k - 1) / 2 ≡ 2 ^ k - 1 = omega arith in
    omega (
      arith,
      and_step a (2 ^ suc k - 1),
      ap (bit_and (a / 2)) half,
      and_ones k (a / 2) (omega arith),
    )

pub and_31 : (a : ℕ) → bit_and a 0x1f ≡ a % 32
and_31 a = omega (
  arith,
  and_step a 31,
  and_step (a / 2) 15,
  and_step (a / 2 / 2) 7,
  and_step (a / 2 / 2 / 2) 3,
  and_step (a / 2 / 2 / 2 / 2) 1,
  and-zero (a / 2 / 2 / 2 / 2 / 2),
)

-- The mask `~0x1f` of a 64-bit word clears the five lowest digits.
pub and_not_31 : (a : ℕ) → a < 2 ^ 64 → bit_and a (2 ^ 64 - 32) ≡ a - a % 32
and_not_31 a h = omega (
  arith,
  and_step a (2 ^ 64 - 32),
  and_step (a / 2) (2 ^ 63 - 16),
  and_step (a / 2 / 2) (2 ^ 62 - 8),
  and_step (a / 2 / 2 / 2) (2 ^ 61 - 4),
  and_step (a / 2 / 2 / 2 / 2) (2 ^ 60 - 2),
  and_ones 59 (a / 2 / 2 / 2 / 2 / 2) (omega arith),
)

half_power : (i : ℕ) → 2 ^ suc i / 2 ≡ 2 ^ i
half_power i = omega arith

-- A test of one digit by a mask.
pub and_power :
    (i a : ℕ)
    → (digit a i ≡ 0 → bit_and a (2 ^ i) ≡ 0) × (digit a i ≡ 1 → bit_and a (2 ^ i) ≡ 2 ^ i)
unfolding digit
and_power zero a = (
  λ e. omega (arith, and_step a 1, and-zero (a / 2)),
  λ e. omega (arith, and_step a 1, and-zero (a / 2)),
)
and_power (suc i) a =
    let same = ap (bit_and (a / 2)) (half_power i) in
    (
      λ e. omega (arith, and_step a (2 ^ suc i), same, (and_power i (a / 2)).0 e),
      λ e. omega (arith, and_step a (2 ^ suc i), same, (and_power i (a / 2)).1 e),
    )

-- Over a small range, a check of every value by evaluation.
all_below : ℕ → (ℕ → Bool) → Bool
all_below zero p = true
all_below (suc n) p = p n && all_below n p

all_below-at : (n : ℕ) (p : ℕ → Bool) (x : ℕ) → all_below n p ≡ true → x < n → p x ≡ true
unfolding all_below
all_below-at zero p x h lt = absurd (omega arith)
all_below-at (suc n) p x h lt = ground (arith, all_below-at n p x)

-- The 32-bit word with the digit `i` alone, and its complement.
masks_hold : ℕ → ℕ → Bool
masks_hold i j =
    (digit (2 ^ i) j == (if i == j then 1 else 0))
    && (digit (2 ^ 32 - 1 - 2 ^ i) j == (if i == j then 0 else 1))

masks_table : all_below 32 (λ i. all_below 32 (masks_hold i)) ≡ true
unfolding all_below masks_hold digit
masks_table = refl

pub digit-masks :
    (i j : ℕ)
    → i < 32
    → j < 32
    → (digit (2 ^ i) j ≡ (if i == j then 1 else 0))
      × (digit (2 ^ 32 - 1 - 2 ^ i) j ≡ (if i == j then 0 else 1))
unfolding masks_hold
digit-masks i j p q =
    let found = all_below-at 32 (masks_hold i) j (all_below-at 32 _ i masks_table p) q in
    (ground (arith, found), ground (arith, found))

ones_table : all_below 32 (λ j. digit 0xFFFFFFFF j == 1) ≡ true
unfolding all_below digit
ones_table = refl

pub digit-ones : (j : ℕ) → j < 32 → digit 0xFFFFFFFF j ≡ 1
digit-ones j h = ground (arith, all_below-at 32 (λ j. digit 0xFFFFFFFF j == 1) j ones_table h)
