-- ===== src/Bitset/Valid.antt =====
-- The well-formedness of a bit set, and what a test of a bit reads.
use cutil.Prelude.{
  ℕ, zero, suc, ◌-◌, ◌%◌, ◌^◌, ◌≤◌, ◌<◌, ◌≡◌, ap, ◌∙◌, arith, bit_and, and_power, digit, digit-lt,
  List, some, length, get_or, ok, Bool, not, ◌==◌, lt→ltb,
}
use cutil.Bitset.{BitsetT, dwords_needed, dword_index, bit_mask, bset_test}
use cutil.Bitset.Words.{bit_mask-eq, dword_index-lt, word_at-ok}

-- `ws` are the words of a set of at least one bit.
pub record IsValid (b : BitsetT) (ws : List ℕ) : Type 0 where
  pub bits : b.bits ≡ some ws
  pub many : length ws ≡ dwords_needed b.num_bits
  pub fits : b.num_bits ≤ 2 ^ 64 - 32
  pub not_empty : 0 < b.num_bits

abbrev pub bit_in : List ℕ → ℕ → Bool
bit_in ws j = digit (get_or ws (dword_index j) 0) (j % 32) == 1

power_pos : (i : ℕ) → 0 < 2 ^ i
power_pos zero = omega arith
power_pos (suc i) = omega (arith, power_pos i)

pub mask-digit : (w x : ℕ) → not (bit_and w (bit_mask x) == 0) ≡ (digit w (x % 32) == 1)
mask-digit w x =
    ap (λ m. not (bit_and w m == 0)) (bit_mask-eq x)
    ∙ ground (arith, and_power (x % 32) w, digit-lt w (x % 32), power_pos (x % 32))

module _ {b : BitsetT} {ws : List ℕ} (v : IsValid b ws) (j : ℕ) (h : j < b.num_bits) where
  pub index-lt : dword_index j < length ws
  index-lt = omega (arith, v.many, dword_index-lt b.num_bits j v.fits h)

  pub bset_test-bit_in : bset_test b j ≡ ok (bit_in ws j)
  unfolding bset_test
  bset_test-bit_in = rw (
    lt→ltb j b.num_bits h,
    v.bits,
    word_at-ok ws (dword_index j) index-lt,
    mask-digit (get_or ws (dword_index j) 0) j,
  )
