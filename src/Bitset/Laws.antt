-- ===== src/Bitset/Laws.antt =====
-- What a caller of src/bitset.c may rely on: a set of bits is a function from the bits to Booleans.
use cutil.Prelude.{
  ℕ, ◌-◌, ◌%◌, ◌^◌, ◌≤◌, ◌<◌, ◌≡◌, refl, ap, ◌∙◌, arith, bit_and, bit_or, digit, digit-lt,
  digit-and, digit-or, digit-masks, List, some, length-set, get_or, set, get_or-set, ok, Returns,
  true, false, ◌==◌, ltb, lt→ltb, ltb→lt, le→not_ltb, Bool-cases, inl, inr, if◌then◌else◌,
}
use cutil.Bitset.{BitsetT, dword_index, bit_mask, bset_test, bset_set, bset_clear}
use cutil.Bitset.Words.{bit_mask-eq, dword_index-eq, word_at-ok, update_word-ok}
use cutil.Bitset.Valid.{IsValid, bit_in, index-lt, bset_test-bit_in}

digit-set :
    (w i j : ℕ)
    → digit (bit_or w (bit_mask i)) (j % 32) ≡ (if i % 32 == j % 32 then 1 else digit w (j % 32))
digit-set w i j =
    ap (λ m. digit (bit_or w m) (j % 32)) (bit_mask-eq i)
    ∙ ground (
      arith,
      digit-or w (2 ^ (i % 32)) (j % 32),
      digit-lt w (j % 32),
      digit-masks (i % 32) (j % 32) (omega arith) (omega arith),
    )

digit-clear :
    (w i j : ℕ)
    → digit (bit_and w (2 ^ 32 - 1 - bit_mask i)) (j % 32)
      ≡ (if i % 32 == j % 32 then 0 else digit w (j % 32))
digit-clear w i j =
    ap (λ m. digit (bit_and w (2 ^ 32 - 1 - m)) (j % 32)) (bit_mask-eq i)
    ∙ ground (
      arith,
      digit-and w (2 ^ 32 - 1 - 2 ^ (i % 32)) (j % 32),
      digit-lt w (j % 32),
      digit-masks (i % 32) (j % 32) (omega arith) (omega arith),
    )

-- A write of a word `x` that differs from the old one in the digit of bit `i` alone.
bit_in-set :
    {b : BitsetT} {ws : List ℕ} (v : IsValid b ws) (i : ℕ) (x d : ℕ)
    → i < b.num_bits
    → ((j : ℕ)
        → digit x (j % 32)
          ≡ (if i % 32 == j % 32 then d else digit (get_or ws (dword_index i) 0) (j % 32)))
    → (j : ℕ) → j < b.num_bits
    → bit_in (set ws (dword_index i) x) j ≡ (if i == j then d == 1 else bit_in ws j)
bit_in-set {b} {ws} v i x d hi word j hj =
    let found = get_or-set ws (dword_index i) (dword_index j) x 0 (index-lt v i hi) in
    rw found (
      ground (
        arith,
        word j,
        dword_index-eq i (omega (arith, v.fits)),
        dword_index-eq j (omega (arith, v.fits)),
      ))

pub bset_test-outside : (b : BitsetT) (j : ℕ) → b.num_bits ≤ j → bset_test b j ≡ ok false
unfolding bset_test
bset_test-outside b j h = rw (le→not_ltb j b.num_bits h) refl

-- The set after such a write.
module _ {b : BitsetT} {ws : List ℕ} (v : IsValid b ws) (i : ℕ) (hi : i < b.num_bits) (x d : ℕ)
    (word : (j : ℕ)
      → digit x (j % 32)
        ≡ (if i % 32 == j % 32 then d else digit (get_or ws (dword_index i) 0) (j % 32))) where
  abbrev written : BitsetT
  written = record b { bits = some (set ws (dword_index i) x) }

  written-IsValid : IsValid written (set ws (dword_index i) x)
  written-IsValid = record {
    bits = refl;
    many = length-set ws (dword_index i) x ∙ v.many;
    fits = v.fits;
    not_empty = v.not_empty;
  }

  bset_test-written :
      (j : ℕ) → bset_test written j ≡ (if i == j then ok (d == 1) else bset_test b j)
  bset_test-written j = elim (Bool-cases (ltb j b.num_bits)) [
    | inl e ↦
        let lt = ltb→lt j b.num_bits e in
        rw
          (
            bset_test-bit_in written-IsValid j lt,
            bset_test-bit_in v j lt,
            bit_in-set v i x d hi word j lt,
          )
          (ground (arith))
    | inr e ↦
        let out : b.num_bits ≤ j = ground arith in
        let ne : (i == j) ≡ false = ground arith in
        rw (bset_test-outside written j out, bset_test-outside b j out, ne) refl
  ]

module _ (b : BitsetT) (ws : List ℕ) (i j : ℕ) (v : IsValid b ws) (h : i < b.num_bits) where
  -- In a valid bit set, bset_set of a bit below num_bits returns TRUE and a valid set of as many
  -- bits, in which bset_test of that bit is TRUE and bset_test of every other index is as before;
  -- no access leaves the array.
  pub bset_set-sets : Returns (bset_set b i) λ r.
      (r.0 ≡ true)
      × (r.1.num_bits ≡ b.num_bits)
      × ((ws' : List ℕ) × IsValid r.1 ws')
      × (bset_test r.1 j ≡ (if i == j then ok true else bset_test b j))
  unfolding bset_set
  bset_set-sets =
      let x = bit_or (get_or ws (dword_index i) 0) (bit_mask i) in
      let word = digit-set (get_or ws (dword_index i) 0) i in
      (
        (true, written v i h x 1 word),
        rw (
          lt→ltb i b.num_bits h,
          v.bits,
          word_at-ok ws (dword_index i) (index-lt v i h),
          update_word-ok ws (dword_index i) x (index-lt v i h),
        ),
        (
          refl,
          refl,
          (set ws (dword_index i) x, written-IsValid v i h x 1 word),
          bset_test-written v i h x 1 word j,
        ),
      )

  -- In a valid bit set, bset_clear of a bit below num_bits returns TRUE and a valid set of as many
  -- bits, in which bset_test of that bit is FALSE and bset_test of every other index is as before;
  -- no access leaves the array.
  pub bset_clear-clears : Returns (bset_clear b i) λ r.
      (r.0 ≡ true)
      × (r.1.num_bits ≡ b.num_bits)
      × ((ws' : List ℕ) × IsValid r.1 ws')
      × (bset_test r.1 j ≡ (if i == j then ok false else bset_test b j))
  unfolding bset_clear
  bset_clear-clears =
      let x = bit_and (get_or ws (dword_index i) 0) (2 ^ 32 - 1 - bit_mask i) in
      let word = digit-clear (get_or ws (dword_index i) 0) i in
      (
        (true, written v i h x 0 word),
        rw (
          lt→ltb i b.num_bits h,
          v.bits,
          word_at-ok ws (dword_index i) (index-lt v i h),
          update_word-ok ws (dword_index i) x (index-lt v i h),
        ),
        (
          refl,
          refl,
          (set ws (dword_index i) x, written-IsValid v i h x 0 word),
          bset_test-written v i h x 0 word j,
        ),
      )
