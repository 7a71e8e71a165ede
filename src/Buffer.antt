-- ===== src/Buffer.antt =====
-- src/buffer.c: a growing array of bytes. The `b` argument is a pointer that is not NULL; a function
-- that changes `*b` returns the new value beside its result. `alloc` says whether the call of
-- CALLOC or REALLOC succeeds, and `fresh` has the bytes, of any value, by which `realloc` makes a
-- block larger. The caller's data does not lie in the block of the buffer itself.
pub mod Laws
mod Witness
use cutil.Prelude.{
  ℕ, zero, suc, ◌+◌, ◌-◌, ◌%◌, ◌^◌, Bool, true, false, not, Option, none, some, List, [], ◌∷◌, ◌++◌,
  ltb, if◌then◌else◌, get_elem?, set, replicate, length, Result, ok, fault, ◌>>=◌,
}

-- `struct iovec`; the base is NULL, or the start of a block of bytes.
pub record BufferT : Type 0 where
  pub iov_base : Option (List ℕ)
  pub iov_len : ℕ

-- The bytes of a block; NULL has none.
abbrev pub block : Option (List ℕ) → List ℕ
block none = []
block (some bytes) = bytes

pub first_bytes : ℕ → List ℕ → List ℕ
first_bytes zero bytes = []
first_bytes (suc n) [] = []
first_bytes (suc n) (x ∷ bytes) = x ∷ first_bytes n bytes

pub unset_bytes : (ℕ → ℕ) → ℕ → List ℕ
unset_bytes fresh zero = []
unset_bytes fresh (suc n) = fresh n ∷ unset_bytes fresh n

-- A `realloc` that succeeds.
pub realloc : (ℕ → ℕ) → Option (List ℕ) → ℕ → List ℕ
realloc fresh base n = first_bytes n (block base) ++ unset_bytes fresh (n - length (block base))

-- `*(base + i) = x`
pub store : List ℕ → ℕ → ℕ → Result (List ℕ)
store bytes i x = elim (get_elem? bytes i) [ none ↦ fault | some _ ↦ ok (set bytes i x) ]

-- `memcpy(base + i, p, len)`; it faults when it leaves either block.
pub copy_bytes : ℕ → List ℕ → ℕ → List ℕ → Result (List ℕ)
copy_bytes zero bytes i p = ok bytes
copy_bytes (suc len) bytes i [] = fault
copy_bytes (suc len) bytes i (x ∷ p) = do bytes' ← store bytes i x; copy_bytes len bytes' (i + 1) p

-- `memset(base + i, x, len)`
pub set_bytes : ℕ → List ℕ → ℕ → ℕ → Result (List ℕ)
set_bytes zero bytes i x = ok bytes
set_bytes (suc len) bytes i x = do bytes' ← store bytes i x; set_bytes len bytes' (i + 1) x

-- Without data of the caller and without a length, the base stays what it was.
pub buffer_initialize : Bool → BufferT → Option (List ℕ) → ℕ → Bool × BufferT
buffer_initialize alloc b (some p) len = (true, record { iov_base = some p; iov_len = len })
buffer_initialize alloc b none len =
    if ltb 0 len
    then (if alloc
        then (true, record { iov_base = some (replicate len 0); iov_len = len })
        else (false, record b { iov_base = none }))
    else (true, record b { iov_len = len })

-- CALLOC gives the new struct with all its bytes zero.
pub buffer_new : Bool → Bool → Option (List ℕ) → ℕ → Option BufferT
buffer_new alloc_struct alloc p len =
    if not alloc_struct
    then none
    else let r = buffer_initialize alloc (record { iov_base = none; iov_len = 0 }) p len in
      if not r.0 then none else some r.1

pub buffer_deinitialize : BufferT → Bool × BufferT
buffer_deinitialize b = (true, record { iov_base = none; iov_len = 0 })

-- The struct that `buffer_delete` then frees.
pub buffer_delete : BufferT → BufferT
buffer_delete b = (buffer_deinitialize b).1

-- Fills the new part: with the caller's data, or with zeros.
pub fill_new : List ℕ → ℕ → Option (List ℕ) → ℕ → Result (List ℕ)
fill_new bytes i (some p) len = copy_bytes len bytes i p
fill_new bytes i none len = set_bytes len bytes i 0

-- The pointer that is returned is given by its distance from the base; `none` is NULL.
pub buffer_append : Bool → (ℕ → ℕ) → BufferT → Option (List ℕ) → ℕ → Result (Option ℕ × BufferT)
buffer_append alloc fresh b p len =
    if not (ltb 0 len) then ok (none, b) else if not alloc then ok (none, b) else do
      let new_memory = realloc fresh b.iov_base ((b.iov_len + len) % 2 ^ 64)
      bytes ← fill_new new_memory b.iov_len p len
      let iov_len = (b.iov_len + len) % 2 ^ 64
      ok (some iov_len, record { iov_base = some bytes; iov_len = iov_len })
