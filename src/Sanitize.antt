-- ===== src/Sanitize.antt =====
-- src/sanitize.c: `build_clean_environ`, the environment for a new program. A string is its bytes
-- without the NUL at the end; an array of strings has `none` for NULL. `getenv` is an argument, and
-- so is `std_path`, the `_PATH_STDPATH` of the C library. The new block has two parts, the array of
-- pointers and the bytes behind it; a pointer into it is the offset of a byte. An access outside an
-- array, or outside its part of the block, is a fault.
pub mod Strings
pub mod Count
pub mod Copy
pub mod Loops
pub mod Laws
pub mod Environment
mod Witness
use cutil.Prelude.{
  ℕ, zero, suc, ◌+◌, ◌-◌, ◌*◌, ◌%◌, ◌^◌, Bool, true, false, not, Option, none, some, List, [], ◌∷◌,
  ◌++◌, if◌then◌else◌, replicate, length, Result, ok, fault, ◌>>=◌, ℤ, pos, negsuc,
}

-- The size of the array of pointers, and that of the block.
pub record Sizes : Type 0 where
  pub arr_size : ℕ
  pub new_size : ℕ

-- A loop that counts strings, at most `n` of them and up to NULL.
unfoldable pub count_strings : ℕ → List (Option (List ℕ)) → Sizes → Result Sizes
count_strings zero vars s = ok s
count_strings (suc n) [] s = fault
count_strings (suc n) (none ∷ vars) s = ok s
count_strings (suc n) (some var ∷ vars) s = count_strings n vars (record {
  arr_size = (s.arr_size + 1) % 2 ^ 64;
  new_size = (s.new_size + (length var + 1)) % 2 ^ 64;
})

-- A loop that counts variables with their values.
unfoldable pub count_values :
    (List ℕ → Option (List ℕ)) → ℕ → List (Option (List ℕ)) → Sizes → Result Sizes
count_values getenv zero vars s = ok s
count_values getenv (suc n) [] s = fault
count_values getenv (suc n) (none ∷ vars) s = ok s
count_values getenv (suc n) (some var ∷ vars) s = elim (getenv var) [
  | none ↦ count_values getenv n vars s
  | some value ↦ count_values getenv n vars (record {
    arr_size = (s.arr_size + 1) % 2 ^ 64;
    new_size = (s.new_size + (length var + length value + 2)) % 2 ^ 64;
  })
]

-- The loops over the caller's arrays: `(count > 0) && (v != NULL)`.
unfoldable pub over_client {ℓ} :
    {S : Type ℓ}
    → ℤ
    → Option (List (Option (List ℕ)))
    → (ℕ → List (Option (List ℕ)) → S → Result S)
    → S
    → Result S
over_client (pos zero) v loop s = ok s
over_client (negsuc n) v loop s = ok s
over_client (pos (suc n)) none loop s = ok s
over_client (pos (suc n)) (some vars) loop s = loop (suc n) vars s

-- The block: the pointers, with `none` for NULL, and the bytes, with the places of the next ones.
pub record Environ : Type 0 where
  pub new_environ : List (Option ℕ)
  pub bytes : List ℕ
  pub arr_ptr : ℕ
  pub ptr : ℕ

-- Entries from number `i` on are overwritten.
unfoldable pub write_at {ℓ} : {A : Type ℓ} → List A → ℕ → List A → Result (List A)
write_at xs zero [] = ok xs
write_at [] zero (y ∷ ys) = fault
write_at (x ∷ xs) zero (y ∷ ys) = do rest ← write_at xs zero ys; ok (y ∷ rest)
write_at [] (suc i) ys = fault
write_at (x ∷ xs) (suc i) ys = do rest ← write_at xs i ys; ok (x ∷ rest)

-- The body of a loop that copies strings.
unfoldable pub copy_string : List ℕ → Environ → Result Environ
copy_string var e = do
  slots ← write_at e.new_environ e.arr_ptr (some e.ptr ∷ [])
  bytes ← write_at e.bytes e.ptr (var ++ 0 ∷ [])
  ok (record {
    new_environ = slots;
    bytes = bytes;
    arr_ptr = e.arr_ptr + 1;
    ptr = e.ptr + (length var + 1);
  })

-- The body of a loop that copies variables with their values; 61 is '='.
unfoldable pub copy_value : List ℕ → List ℕ → Environ → Result Environ
copy_value var value e = do
  slots ← write_at e.new_environ e.arr_ptr (some e.ptr ∷ [])
  bytes₁ ← write_at e.bytes e.ptr var
  bytes₂ ← write_at bytes₁ (e.ptr + length var) (61 ∷ [])
  bytes₃ ← write_at bytes₂ (e.ptr + length var + 1) (value ++ 0 ∷ [])
  ok (record {
    new_environ = slots;
    bytes = bytes₃;
    arr_ptr = e.arr_ptr + 1;
    ptr = e.ptr + (length var + length value + 2);
  })

unfoldable pub copy_strings : ℕ → List (Option (List ℕ)) → Environ → Result Environ
copy_strings zero vars e = ok e
copy_strings (suc n) [] e = fault
copy_strings (suc n) (none ∷ vars) e = ok e
copy_strings (suc n) (some var ∷ vars) e = do e' ← copy_string var e; copy_strings n vars e'

unfoldable pub copy_values :
    (List ℕ → Option (List ℕ)) → ℕ → List (Option (List ℕ)) → Environ → Result Environ
copy_values getenv zero vars e = ok e
copy_values getenv (suc n) [] e = fault
copy_values getenv (suc n) (none ∷ vars) e = ok e
copy_values getenv (suc n) (some var ∷ vars) e = elim (getenv var) [
  | none ↦ copy_values getenv n vars e
  | some value ↦ do e' ← copy_value var value e; copy_values getenv n vars e'
]

-- `"IFS= \t\n"`, and `"PATH="` before the standard path.
abbrev pub clean_environ : List ℕ → List (Option (List ℕ))
clean_environ std_path =
    some (73 ∷ 70 ∷ 83 ∷ 61 ∷ 32 ∷ 9 ∷ 10 ∷ [])
    ∷ some (80 ∷ 65 ∷ 84 ∷ 72 ∷ 61 ∷ std_path)
    ∷ none
    ∷ []

-- `"TZ"`
abbrev pub preserve_environ : List (Option (List ℕ))
preserve_environ = some (84 ∷ 90 ∷ []) ∷ none ∷ []

-- The first pass. The loops over the two arrays of the program itself have no bound but their NULL.
unfoldable pub count_environ :
    (List ℕ → Option (List ℕ))
    → List ℕ
    → ℤ
    → Option (List (Option (List ℕ)))
    → ℤ
    → Option (List (Option (List ℕ)))
    → Result Sizes
count_environ getenv std_path preservec preservev addc addv = do
  s₁ ← count_strings 3 (clean_environ std_path) (record { arr_size = 1; new_size = 0 })
  s₂ ← count_values getenv 2 preserve_environ s₁
  s₃ ← over_client preservec preservev (count_values getenv) s₂
  over_client addc addv count_strings s₃

-- The second pass.
unfoldable pub copy_environ :
    (List ℕ → Option (List ℕ))
    → List ℕ
    → ℤ
    → Option (List (Option (List ℕ)))
    → ℤ
    → Option (List (Option (List ℕ)))
    → Environ
    → Result Environ
copy_environ getenv std_path preservec preservev addc addv e = do
  e₁ ← copy_strings 3 (clean_environ std_path) e
  e₂ ← copy_values getenv 2 preserve_environ e₁
  e₃ ← over_client preservec preservev (copy_values getenv) e₂
  over_client addc addv copy_strings e₃

-- `alloc` says whether CALLOC succeeds; the new block has all its bytes zero. A pointer has 8 bytes.
unfoldable pub build_clean_environ :
    Bool
    → (List ℕ → Option (List ℕ))
    → List ℕ
    → ℤ
    → Option (List (Option (List ℕ)))
    → ℤ
    → Option (List (Option (List ℕ)))
    → Result (Option Environ)
build_clean_environ alloc getenv std_path preservec preservev addc addv = do
  s ← count_environ getenv std_path preservec preservev addc addv
  let new_size = (s.new_size + s.arr_size * 8) % 2 ^ 64
  if not alloc then ok none else do
    e ← copy_environ getenv std_path preservec preservev addc addv (record {
      new_environ = replicate s.arr_size none;
      bytes = replicate (new_size - s.arr_size * 8) 0;
      arr_ptr = 0;
      ptr = 0;
    })
    ok (some e)
