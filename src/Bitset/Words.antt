-- ===== src/Bitset/Words.antt =====
-- Where a bit lies: the word and the digit.
use cutil.Prelude.{
  ℕ, ◌+◌, ◌-◌, ◌%◌, ◌^◌, ◌≤◌, ◌<◌, ◌≡◌, ap, arith, and_31, and_not_31, List, some, length, get_or,
  set, get_elem?-eq-get_or, ok,
}
use cutil.Bitset.{not_31, dwords_needed, dword_index, bit_mask, word_at, update_word}

pub dword_index-eq : (x : ℕ) → x < 2 ^ 64 → dword_index x ≡ x - x % 32
unfolding dword_index not_31
dword_index-eq x h = and_not_31 x h

pub dwords_needed-eq : (x : ℕ) → x ≤ 2 ^ 64 - 32 → dwords_needed x ≡ x + 31 - (x + 31) % 32
unfolding dwords_needed not_31
dwords_needed-eq x h = rw (and_not_31 ((x + 31) % 2 ^ 64) (omega arith)) (omega arith)

pub bit_mask-eq : (x : ℕ) → bit_mask x ≡ 2 ^ (x % 32)
unfolding bit_mask
bit_mask-eq x = ap (λ k. 2 ^ k) (and_31 x)

-- The array that is allocated has a word for each bit of the set.
pub dword_index-lt :
    (num_bits x : ℕ)
    → num_bits ≤ 2 ^ 64 - 32
    → x < num_bits
    → dword_index x < dwords_needed num_bits
dword_index-lt num_bits x small h =
    omega (arith, dword_index-eq x (omega arith), dwords_needed-eq num_bits small)

pub word_at-ok : (ws : List ℕ) (i : ℕ) → i < length ws → word_at (some ws) i ≡ ok (get_or ws i 0)
unfolding word_at
word_at-ok ws i h = rw (word_at, get_elem?-eq-get_or ws i 0 h)

pub update_word-ok :
    (ws : List ℕ) (i w : ℕ) → i < length ws → update_word (some ws) i w ≡ ok (some (set ws i w))
unfolding update_word
update_word-ok ws i w h = rw (update_word, get_elem?-eq-get_or ws i 0 h)
