-- ===== src/Buffer/Laws.antt =====
-- What a caller of src/buffer.c may rely on: the buffer holds the bytes put into it, in order.
use cutil.Prelude.{
  ℕ, zero, suc, ◌+◌, ◌-◌, ◌%◌, ◌^◌, ◌≤◌, ◌<◌, ◌≡◌, refl, sym, ap, ◌∙◌, arith, true, Option, none,
  some, List, [], ◌∷◌, ◌++◌, append_assoc, length, length-append, get_elem?, set, replicate,
  length-replicate, ok, Returns, lt→ltb,
}
use cutil.Buffer.{
  BufferT, block, first_bytes, unset_bytes, realloc, store, copy_bytes, set_bytes,
  buffer_initialize, buffer_new, buffer_append, fill_new,
}

-- The block is as long as `iov_len` says.
abbrev pub IsValid : BufferT → Type 0
IsValid b = length (block b.iov_base) ≡ b.iov_len

-- The caller's bytes, or zeros where there are none.
pub appended : Option (List ℕ) → ℕ → List ℕ
appended none len = replicate len 0
appended (some p) len = first_bytes len p

-- The caller's block has at least `len` bytes.
abbrev pub HasRoom : Option (List ℕ) → ℕ → Type 0
HasRoom none len = 0 ≤ len
HasRoom (some p) len = len ≤ length p

get_elem?-append :
    (xs : List ℕ) (y : ℕ) (zs : List ℕ) → get_elem? (xs ++ y ∷ zs) (length xs) ≡ some y
get_elem?-append [] y zs = refl
get_elem?-append (x ∷ xs) y zs = get_elem?-append xs y zs

set-append :
    (xs : List ℕ) (y : ℕ) (zs : List ℕ) (v : ℕ) → set (xs ++ y ∷ zs) (length xs) v ≡ xs ++ v ∷ zs
set-append [] y zs v = refl
set-append (x ∷ xs) y zs v = ap (λ l. x ∷ l) (set-append xs y zs v)

store-ok :
    (bytes : List ℕ) (i x y : ℕ) → get_elem? bytes i ≡ some y → store bytes i x ≡ ok (set bytes i x)
unfolding store
store-ok bytes i x y h = rw (store, h)

store-append :
    (xs : List ℕ) (y : ℕ) (zs : List ℕ) (v i : ℕ)
    → i ≡ length xs
    → store (xs ++ y ∷ zs) i v ≡ ok ((xs ++ v ∷ []) ++ zs)
store-append xs y zs v i e =
    ap (λ k. store (xs ++ y ∷ zs) k v) e
    ∙ store-ok (xs ++ y ∷ zs) (length xs) v y (get_elem?-append xs y zs)
    ∙ ap ok (set-append xs y zs v ∙ sym (append_assoc xs (v ∷ []) zs))

next_index : (xs : List ℕ) (v i : ℕ) → i ≡ length xs → i + 1 ≡ length (xs ++ v ∷ [])
next_index xs v i e = omega (arith, length-append xs (v ∷ []))

-- A fill of the last `len` bytes of a block.
fill_new-end :
    (p : Option (List ℕ)) (len : ℕ) (xs zs : List ℕ) (i : ℕ)
    → HasRoom p len
    → i ≡ length xs
    → length zs ≡ len
    → fill_new (xs ++ zs) i p len ≡ ok (xs ++ appended p len)
unfolding fill_new copy_bytes set_bytes appended first_bytes
fill_new-end none zero xs [] i room e h = refl
fill_new-end (some p) zero xs [] i room e h = refl
fill_new-end p zero xs (z ∷ zs) i room e h = absurd (omega arith)
fill_new-end p (suc len) xs [] i room e h = absurd (omega arith)
fill_new-end none (suc len) xs (z ∷ zs) i room e h = rw (store-append xs z zs 0 i e) (
    fill_new-end none len (xs ++ 0 ∷ []) zs (i + 1) (omega arith) (next_index xs 0 i e)
      (omega arith)
    ∙ ap ok (append_assoc xs (0 ∷ []) (replicate len 0)))
fill_new-end (some []) (suc len) xs (z ∷ zs) i room e h = absurd (omega arith)
fill_new-end (some (x ∷ p)) (suc len) xs (z ∷ zs) i room e h = rw (store-append xs z zs x i e) (
    fill_new-end (some p) len (xs ++ x ∷ []) zs (i + 1) (omega arith) (next_index xs x i e)
      (omega arith)
    ∙ ap ok (append_assoc xs (x ∷ []) (first_bytes len p)))

first_bytes-all : (n : ℕ) (xs : List ℕ) → length xs ≤ n → first_bytes n xs ≡ xs
unfolding first_bytes
first_bytes-all zero [] h = refl
first_bytes-all zero (x ∷ xs) h = absurd (omega arith)
first_bytes-all (suc n) [] h = refl
first_bytes-all (suc n) (x ∷ xs) h = ap (λ l. x ∷ l) (first_bytes-all n xs (omega arith))

length-unset_bytes : (fresh : ℕ → ℕ) (n : ℕ) → length (unset_bytes fresh n) ≡ n
unfolding unset_bytes
length-unset_bytes fresh zero = refl
length-unset_bytes fresh (suc n) = ap suc (length-unset_bytes fresh n)

length-appended : (p : Option (List ℕ)) (len : ℕ) → HasRoom p len → length (appended p len) ≡ len
unfolding appended first_bytes
length-appended none len h = length-replicate len 0
length-appended (some p) zero h = refl
length-appended (some []) (suc len) h = absurd (omega arith)
length-appended (some (x ∷ p)) (suc len) h = ap suc (length-appended (some p) len (omega arith))

-- When REALLOC succeeds, buffer_append to a valid buffer of a positive number len of bytes, given
-- in a block of at least len bytes or by NULL, so that the new length is below 2^64, stays inside
-- the blocks and leaves a valid buffer with the old bytes followed by the caller's, or by zeros;
-- it returns the address len bytes behind the start of the new part, the end of the buffer.
pub buffer_append-appends :
    (fresh : ℕ → ℕ) (b : BufferT) (p : Option (List ℕ)) (len : ℕ)
    → IsValid b
    → HasRoom p len
    → 0 < len
    → b.iov_len + len < 2 ^ 64
    → Returns (buffer_append true fresh b p len) λ r.
      IsValid r.1
      × (r.1.iov_len ≡ b.iov_len + len)
      × (block r.1.iov_base ≡ block b.iov_base ++ appended p len)
      × (r.0 ≡ some (b.iov_len + len))
unfolding buffer_append realloc
buffer_append-appends fresh b p len v room some_bytes small =
    let total : (b.iov_len + len) % 2 ^ 64 ≡ b.iov_len + len = omega arith in
    let old = block b.iov_base in
    let spare = unset_bytes fresh (b.iov_len + len - length old) in
    (
      (
        some (b.iov_len + len),
        record { iov_base = some (old ++ appended p len); iov_len = b.iov_len + len },
      ),
      rw (
        lt→ltb 0 len some_bytes,
        total,
        first_bytes-all (b.iov_len + len) old (omega arith),
        fill_new-end p len old spare b.iov_len room (sym v)
            (omega (arith, length-unset_bytes fresh (b.iov_len + len - length old))),
      ),
      (
        omega (arith, length-append old (appended p len), length-appended p len room),
        refl,
        refl,
        refl,
      ),
    )

-- When CALLOC succeeds, buffer_new gives a valid buffer of len bytes: the caller's block, which
-- has len bytes, or len zeros when there is none.
pub buffer_new-IsValid :
    (p : Option (List ℕ)) (len : ℕ)
    → ((bytes : List ℕ) → p ≡ some bytes → length bytes ≡ len)
    → (b : BufferT) × (buffer_new true true p len ≡ some b)
      × IsValid b
      × (b.iov_len ≡ len)
      × (block b.iov_base ≡ appended p len)
unfolding buffer_new buffer_initialize appended
buffer_new-IsValid none zero given =
    (record { iov_base = none; iov_len = 0 }, refl, refl, refl, refl)
buffer_new-IsValid none (suc len) given = (
  record { iov_base = some (replicate (suc len) 0); iov_len = suc len },
  rw (lt→ltb 0 (suc len) (omega arith)) refl,
  length-replicate (suc len) 0,
  refl,
  refl,
)
buffer_new-IsValid (some p) len given = (
  record { iov_base = some p; iov_len = len },
  refl,
  given p refl,
  refl,
  sym (first_bytes-all len p (omega (arith, given p refl))),
)
