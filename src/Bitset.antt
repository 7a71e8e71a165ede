-- ===== src/Bitset.antt =====
-- src/bitset.c: a set of bits in an array of 32-bit words. The `bset` argument is a pointer that is
-- not NULL; a function that changes `*bset` returns the new value beside its result. `alloc` says
-- whether a call of CALLOC succeeds. A read or write outside the array is a fault. The macros shift
-- an int: `1 << 31` is taken for 2 ^ 31, as compilers do.
pub mod Words
pub mod Valid
pub mod Laws
pub mod Whole
mod Witness
use cutil.Prelude.{
  ℕ, zero, suc, ◌+◌, ◌-◌, ◌%◌, ◌^◌, bit_and, bit_or, Bool, true, false, not, Option, none, some,
  List, [], ◌∷◌, ltb, ◌==◌, if◌then◌else◌, get_elem?, set, replicate, Result, ok, fault, ◌>>=◌,
}

-- `bits` is `none` for NULL.
pub record BitsetT : Type 0 where
  pub num_bits : ℕ
  pub bits : Option (List ℕ)

-- `~0x1f` as a size_t.
pub not_31 : ℕ
not_31 = 2 ^ 64 - 32

-- `DWORDS_NEEDED`, `DWORD_INDEX` and `BIT`.
pub dwords_needed : ℕ → ℕ
dwords_needed x = bit_and ((x + 0x1f) % 2 ^ 64) not_31

pub dword_index : ℕ → ℕ
dword_index x = bit_and x not_31

pub bit_mask : ℕ → ℕ
bit_mask x = 2 ^ bit_and x 0x1f

-- `bits[i]`, read and written.
pub word_at : Option (List ℕ) → ℕ → Result ℕ
word_at none i = fault
word_at (some ws) i = elim (get_elem? ws i) [ none ↦ fault | some w ↦ ok w ]

pub update_word : Option (List ℕ) → ℕ → ℕ → Result (Option (List ℕ))
update_word none i w = fault
update_word (some ws) i w = elim (get_elem? ws i) [ none ↦ fault | some _ ↦ ok (some (set ws i w)) ]

pub bset_initialize : Bool → BitsetT → ℕ → Bool × BitsetT
bset_initialize alloc bset num_bits =
    if ltb 0 num_bits
    then (if alloc
        then (
          true,
          record { num_bits = num_bits; bits = some (replicate (dwords_needed num_bits) 0) },
        )
        else (false, record bset { bits = none }))
    else (true, record { num_bits = num_bits; bits = none })

-- CALLOC gives the new struct with all its bytes zero.
pub bset_new : Bool → Bool → ℕ → Option BitsetT
bset_new alloc_struct alloc num_bits =
    if not (ltb 0 num_bits)
    then none
    else if not alloc_struct
    then none
    else let r = bset_initialize alloc (record { num_bits = 0; bits = none }) num_bits in
      if not r.0 then none else some r.1

pub bset_deinitialize : BitsetT → Bool × BitsetT
bset_deinitialize bset = if not (ltb 0 bset.num_bits) then (false, bset) else elim bset.bits [
  | none ↦ (false, bset)
  | some _ ↦ (true, record { num_bits = 0; bits = none })
]

-- The struct that `bset_delete` then frees.
pub bset_delete : BitsetT → BitsetT
bset_delete bset = (bset_deinitialize bset).1

pub bset_set : BitsetT → ℕ → Result (Bool × BitsetT)
bset_set bset bit = if not (ltb bit bset.num_bits) then ok (false, bset) else do
  w ← word_at bset.bits (dword_index bit)
  bits' ← update_word bset.bits (dword_index bit) (bit_or w (bit_mask bit))
  ok (true, record bset { bits = bits' })

-- `~BIT(bit)` is the complement in 32 bits.
pub bset_clear : BitsetT → ℕ → Result (Bool × BitsetT)
bset_clear bset bit = if not (ltb bit bset.num_bits) then ok (false, bset) else do
  w ← word_at bset.bits (dword_index bit)
  bits' ← update_word bset.bits (dword_index bit) (bit_and w (2 ^ 32 - 1 - bit_mask bit))
  ok (true, record bset { bits = bits' })

pub bset_test : BitsetT → ℕ → Result Bool
bset_test bset bit =
    if not (ltb bit bset.num_bits)
    then ok false
    else do w ← word_at bset.bits (dword_index bit); ok (not (bit_and w (bit_mask bit) == 0))

-- `for ( i = 0; i < DWORDS_NEEDED( bset->num_bits ); i++ ) bset->bits[i] = w`; the first argument
-- counts the rounds left.
pub fill_words : ℕ → ℕ → ℕ → Option (List ℕ) → Result (Option (List ℕ))
fill_words zero i w bits = ok bits
fill_words (suc rounds) i w bits = do
  bits' ← update_word bits i w
  fill_words rounds (i + 1) w bits'

-- What `bset_clear_all` and `bset_set_all` have in common.
pub fill_all : ℕ → BitsetT → Result (Bool × BitsetT)
fill_all w bset = if not (ltb 0 bset.num_bits) then ok (false, bset) else elim bset.bits [
  | none ↦ ok (false, bset)
  | some ws ↦ do
    bits' ← fill_words (dwords_needed bset.num_bits) 0 w (some ws)
    ok (true, record bset { bits = bits' })
]

pub bset_clear_all : BitsetT → Result (Bool × BitsetT)
bset_clear_all bset = fill_all 0 bset

pub bset_set_all : BitsetT → Result (Bool × BitsetT)
bset_set_all bset = fill_all 0xFFFFFFFF bset
