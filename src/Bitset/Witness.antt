-- ===== src/Bitset/Witness.antt =====
-- The theorems on bit sets at a set of forty bits.
use cutil.Prelude.{
  ℕ, ◌≡◌, refl, arith, List, some, length-replicate, replicate, ok, Returns, true, false,
}
use cutil.Bitset.{
  BitsetT, dwords_needed, bset_new, bset_deinitialize, bset_test, bset_set, bset_clear,
  bset_clear_all, bset_set_all,
}
use cutil.Bitset.Valid.{IsValid}
use cutil.Bitset.Laws.{bset_set-sets, bset_clear-clears}
use cutil.Bitset.Whole.{
  bset_new-clear, bset_clear_all-clears, bset_set_all-sets, bset_deinitialize-released,
}

abbrev forty : BitsetT
forty = record { num_bits = 40; bits = some (replicate (dwords_needed 40) 0) }

forty-IsValid : IsValid forty (replicate (dwords_needed 40) 0)
forty-IsValid = record {
  bits = refl;
  many = length-replicate (dwords_needed 40) 0;
  fits = omega arith;
  not_empty = omega arith;
}

bset_set-sets_example : Returns (bset_set forty 33) λ r.
    (r.0 ≡ true)
    × (r.1.num_bits ≡ 40)
    × ((ws' : List ℕ) × IsValid r.1 ws')
    × (bset_test r.1 33 ≡ ok true)
bset_set-sets_example =
    bset_set-sets forty (replicate (dwords_needed 40) 0) 33 33 forty-IsValid (omega arith)

bset_clear-clears_example : Returns (bset_clear forty 33) λ r.
    (r.0 ≡ true)
    × (r.1.num_bits ≡ 40)
    × ((ws' : List ℕ) × IsValid r.1 ws')
    × (bset_test r.1 5 ≡ bset_test forty 5)
bset_clear-clears_example =
    bset_clear-clears forty (replicate (dwords_needed 40) 0) 33 5 forty-IsValid (omega arith)

bset_new-clear_example :
    (b : BitsetT) × (bset_new true true 40 ≡ some b)
    × (b.num_bits ≡ 40)
    × ((ws : List ℕ) × IsValid b ws)
    × (bset_test b 7 ≡ ok false)
bset_new-clear_example = bset_new-clear 40 7 (omega arith) (omega arith)

bset_clear_all-clears_example : Returns (bset_clear_all forty) λ r.
    (r.0 ≡ true)
    × (r.1.num_bits ≡ 40)
    × ((ws' : List ℕ) × IsValid r.1 ws')
    × (bset_test r.1 7 ≡ ok false)
bset_clear_all-clears_example =
    bset_clear_all-clears forty (replicate (dwords_needed 40) 0) 7 forty-IsValid

bset_set_all-sets_example : Returns (bset_set_all forty) λ r.
    (r.0 ≡ true)
    × (r.1.num_bits ≡ 40)
    × ((ws' : List ℕ) × IsValid r.1 ws')
    × (bset_test r.1 39 ≡ ok true)
bset_set_all-sets_example =
    bset_set_all-sets forty (replicate (dwords_needed 40) 0) 39 forty-IsValid

bset_deinitialize-released_example :
    (r : BitsetT) × (bset_deinitialize forty ≡ (true, r))
    × (bset_deinitialize r ≡ (false, r))
    × (bset_test r 7 ≡ ok false)
    × (bset_set r 7 ≡ ok (false, r))
    × (bset_clear r 7 ≡ ok (false, r))
    × (bset_clear_all r ≡ ok (false, r))
    × (bset_set_all r ≡ ok (false, r))
bset_deinitialize-released_example =
    bset_deinitialize-released forty (replicate (dwords_needed 40) 0) 7 forty-IsValid
