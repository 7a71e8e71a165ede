-- ===== src/Buffer/Witness.antt =====
-- The theorems on buffers at a buffer of three bytes.
use cutil.Prelude.{ℕ, ◌≡◌, refl, arith, true, Option, some, none, List, [], ◌∷◌, ◌++◌, Returns}
use cutil.Buffer.{BufferT, block, buffer_new, buffer_append}
use cutil.Buffer.Laws.{IsValid, HasRoom, appended, buffer_append-appends, buffer_new-IsValid}

abbrev abc : BufferT
abc = record { iov_base = some (97 ∷ 98 ∷ 99 ∷ []); iov_len = 3 }

abbrev junk : ℕ → ℕ
junk i = 7

abbrev de : Option (List ℕ)
de = some (100 ∷ 101 ∷ [])

abc-IsValid : IsValid abc
abc-IsValid = refl

de-HasRoom : HasRoom de 2
de-HasRoom = omega arith

buffer_append-appends_example : Returns (buffer_append true junk abc de 2) λ r.
    IsValid r.1
    × (r.1.iov_len ≡ 5)
    × (block r.1.iov_base ≡ block abc.iov_base ++ appended de 2)
    × (r.0 ≡ some 5)
buffer_append-appends_example =
    buffer_append-appends junk abc de 2 abc-IsValid de-HasRoom (omega arith) (omega arith)

buffer_new-IsValid_example :
    (b : BufferT) × (buffer_new true true none 3 ≡ some b)
    × IsValid b
    × (b.iov_len ≡ 3)
    × (block b.iov_base ≡ appended none 3)
buffer_new-IsValid_example = buffer_new-IsValid none 3 (λ bytes e. ground arith)
