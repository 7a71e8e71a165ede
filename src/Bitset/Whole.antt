-- ===== src/Bitset/Whole.antt =====
-- The operations on a whole set: `bset_new`, `bset_deinitialize`, `bset_clear_all`, `bset_set_all`.
use cutil.Prelude.{
  ℕ, zero, suc, ◌+◌, ◌-◌, ◌%◌, ◌^◌, ◌≤◌, ◌<◌, ◌≡◌, refl, ap, ◌∙◌, arith, digit, digit-zero,
  digit-ones, List, some, none, length, length-set, length-replicate, get_or, set, replicate,
  get_or-set, get_or-replicate, ok, Returns, Bool, true, false, ◌==◌, ◌&&◌, leb, ltb, lt→ltb,
  ltb→lt, le→not_ltb, Bool-cases, inl, inr, if◌then◌else◌,
}
use cutil.Bitset.{
  BitsetT, dwords_needed, dword_index, bset_initialize, bset_new, bset_deinitialize, bset_test,
  bset_set, bset_clear, fill_words, fill_all, bset_clear_all, bset_set_all,
}
use cutil.Bitset.Words.{update_word-ok}
use cutil.Bitset.Valid.{IsValid, index-lt, bset_test-bit_in}
use cutil.Bitset.Laws.{bset_test-outside}

fill_words-fills :
    (rounds i w : ℕ) (ws : List ℕ)
    → i + rounds ≤ length ws
    → (ws' : List ℕ) × (fill_words rounds i w (some ws) ≡ ok (some ws'))
      × (length ws' ≡ length ws)
      × ((k : ℕ) → get_or ws' k 0 ≡ (if leb i k && ltb k (i + rounds) then w else get_or ws k 0))
unfolding fill_words
fill_words-fills zero i w ws h = (ws, refl, refl, λ k. ground arith)
fill_words-fills (suc rounds) i w ws h =
    let same = length-set ws i w in
    let (ws', run, len, each) =
      fill_words-fills rounds (i + 1) w (set ws i w) (omega (arith, same)) in
    (
      ws',
      rw (update_word-ok ws i w (omega arith)) run,
      len ∙ same,
      λ k. each k ∙ ground (arith, get_or-set ws i k w 0 (omega arith)),
    )

-- A set whose words are all `w`.
module _ {b : BitsetT} {ws : List ℕ} (v : IsValid b ws) (w d : ℕ)
    (each : (k : ℕ) → k < length ws → get_or ws k 0 ≡ w)
    (word : (j : ℕ) → digit w (j % 32) ≡ d) where
  bset_test-uniform : (j : ℕ) → bset_test b j ≡ ok (ltb j b.num_bits && (d == 1))
  bset_test-uniform j = elim (Bool-cases (ltb j b.num_bits)) [
    | inl e ↦
        let lt = ltb→lt j b.num_bits e in
        rw (bset_test-bit_in v j lt, each (dword_index j) (index-lt v j lt), word j, e) refl
    | inr e ↦ rw (bset_test-outside b j (ground arith), e) refl
  ]

-- What `fill_all` returns.
Filled : BitsetT → ℕ → ℕ → Bool × BitsetT → Type 0
Filled b d j r =
    (r.0 ≡ true)
    × (r.1.num_bits ≡ b.num_bits)
    × ((ws' : List ℕ) × IsValid r.1 ws')
    × (bset_test r.1 j ≡ ok (ltb j b.num_bits && (d == 1)))

fill_all-Filled :
    (b : BitsetT) (ws : List ℕ) (w d : ℕ)
    → IsValid b ws
    → ((j : ℕ) → digit w (j % 32) ≡ d)
    → (j : ℕ) → Returns (fill_all w b) (Filled b d j)
unfolding fill_all Filled
fill_all-Filled b ws w d v word j =
    let (ws', run, len, each) =
      fill_words-fills (dwords_needed b.num_bits) 0 w ws (omega (arith, v.many)) in
    let v' : IsValid (record b { bits = some ws' }) ws' = record {
      bits = refl;
      many = len ∙ v.many;
      fits = v.fits;
      not_empty = v.not_empty;
    } in
    (
      (true, record b { bits = some ws' }),
      rw (lt→ltb 0 b.num_bits v.not_empty, v.bits, run),
      (
        refl,
        refl,
        (ws', v'),
        bset_test-uniform v' w d (λ k h. ground (arith, each k, v.many)) word j,
      ),
    )

module _ (b : BitsetT) (ws : List ℕ) (j : ℕ) (v : IsValid b ws) where
  -- In a valid bit set, the loop of bset_clear_all stays in the array, and it returns TRUE and a
  -- valid set of as many bits, in which bset_test of every index is FALSE.
  pub bset_clear_all-clears : Returns (bset_clear_all b) λ r.
      (r.0 ≡ true)
      × (r.1.num_bits ≡ b.num_bits)
      × ((ws' : List ℕ) × IsValid r.1 ws')
      × (bset_test r.1 j ≡ ok false)
  unfolding bset_clear_all Filled
  bset_clear_all-clears =
      let (r, run, (e, n, v', t)) = fill_all-Filled b ws 0 0 v (λ j. digit-zero (j % 32)) j in
      (r, run, (e, n, v', t ∙ ap ok (ground arith)))

  -- In a valid bit set, the loop of bset_set_all stays in the array, and it returns TRUE and a
  -- valid set of as many bits, in which bset_test of an index is TRUE exactly when the index is
  -- below num_bits.
  pub bset_set_all-sets : Returns (bset_set_all b) λ r.
      (r.0 ≡ true)
      × (r.1.num_bits ≡ b.num_bits)
      × ((ws' : List ℕ) × IsValid r.1 ws')
      × (bset_test r.1 j ≡ ok (ltb j b.num_bits))
  unfolding bset_set_all Filled
  bset_set_all-sets =
      let (r, run, (e, n, v', t)) =
        fill_all-Filled b ws 0xFFFFFFFF 1 v (λ j. digit-ones (j % 32) (omega arith)) j in
      (r, run, (e, n, v', t ∙ ap ok (ground arith)))

  -- bset_deinitialize of a valid bit set returns TRUE; on the struct that it leaves, a second
  -- bset_deinitialize and every other operation return FALSE without an access and change nothing.
  pub bset_deinitialize-released :
      (r : BitsetT) × (bset_deinitialize b ≡ (true, r))
      × (bset_deinitialize r ≡ (false, r))
      × (bset_test r j ≡ ok false)
      × (bset_set r j ≡ ok (false, r))
      × (bset_clear r j ≡ ok (false, r))
      × (bset_clear_all r ≡ ok (false, r))
      × (bset_set_all r ≡ ok (false, r))
  unfolding bset_deinitialize bset_test bset_set bset_clear bset_clear_all bset_set_all fill_all
  bset_deinitialize-released = (
    record { num_bits = 0; bits = none },
    rw (lt→ltb 0 b.num_bits v.not_empty, v.bits),
    refl,
    rw (le→not_ltb j 0 (omega arith)),
    rw (le→not_ltb j 0 (omega arith)),
    rw (le→not_ltb j 0 (omega arith)),
    refl,
    refl,
  )

-- When CALLOC succeeds, bset_new of a positive number of bits, at most 2^64 - 32, gives a valid
-- set of that many bits, in which bset_test of every index is FALSE.
pub bset_new-clear :
    (num_bits j : ℕ)
    → 0 < num_bits
    → num_bits ≤ 2 ^ 64 - 32
    → (b : BitsetT) × (bset_new true true num_bits ≡ some b)
      × (b.num_bits ≡ num_bits)
      × ((ws : List ℕ) × IsValid b ws)
      × (bset_test b j ≡ ok false)
unfolding bset_new bset_initialize
bset_new-clear n j h small =
    let ws = replicate (dwords_needed n) 0 in
    let len = length-replicate (dwords_needed n) 0 in
    let v : IsValid (record { num_bits = n; bits = some ws }) ws = record {
      bits = refl;
      many = len;
      fits = small;
      not_empty = h;
    } in
    (
      record { num_bits = n; bits = some ws },
      rw (lt→ltb 0 n h) refl,
      refl,
      (ws, v),
      bset_test-uniform v 0 0 (λ k p. get_or-replicate (dwords_needed n) k 0)
            (λ j. digit-zero (j % 32)) j
          ∙ ap ok (ground arith),
    )
