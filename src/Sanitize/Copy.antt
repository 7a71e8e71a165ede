-- ===== src/Sanitize/Copy.antt =====
-- The bodies of the loops of `build_clean_environ` that copy.
use cutil.Prelude.{
  ℕ, zero, suc, ◌+◌, ◌≡◌, refl, sym, ap, ◌∙◌, Option, none, some, List, [], ◌∷◌, ◌++◌, append_assoc,
  replicate, length, length-append, ok, arith,
}
use cutil.Sanitize.{Environ, write_at, copy_string, copy_value}

-- A block of which `slots` and `bytes` are written, with room for `r` pointers and `z` bytes.
abbrev pub written : List (Option ℕ) → List ℕ → ℕ → ℕ → Environ
written slots bytes r z = record {
  new_environ = slots ++ replicate r none;
  bytes = bytes ++ replicate z 0;
  arr_ptr = length slots;
  ptr = length bytes;
}

write_at-nothing {ℓ} : {A : Type ℓ} (xs : List A) → write_at xs 0 [] ≡ ok xs
unfolding write_at
write_at-nothing [] = refl
write_at-nothing (x ∷ xs) = refl

write_at-replicate {ℓ} :
    {A : Type ℓ} (a : A) (ys : List A) (k z : ℕ)
    → k ≡ length ys + z
    → write_at (replicate k a) 0 ys ≡ ok (ys ++ replicate z a)
unfolding write_at
write_at-replicate a [] k z e =
    write_at-nothing (replicate k a) ∙ ap (λ j. ok (replicate j a)) (omega (arith, e))
write_at-replicate a (y ∷ ys) zero z e = absurd (omega (arith, e))
write_at-replicate a (y ∷ ys) (suc k) z e = rw (write_at-replicate a ys k z (omega (arith, e))) refl

write_at-after {ℓ} :
    {A : Type ℓ} (a : A) (xs ys : List A) (k z : ℕ)
    → k ≡ length ys + z
    → write_at (xs ++ replicate k a) (length xs) ys ≡ ok (xs ++ (ys ++ replicate z a))
unfolding write_at
write_at-after a [] ys k z e = write_at-replicate a ys k z e
write_at-after a (x ∷ xs) ys k z e = rw (write_at-after a xs ys k z e) refl

-- Writing at the end of what is written.
pub write_at-end {ℓ} :
    {A : Type ℓ} (a : A) (xs ys : List A) (i k z : ℕ)
    → i ≡ length xs
    → k ≡ length ys + z
    → write_at (xs ++ replicate k a) i ys ≡ ok ((xs ++ ys) ++ replicate z a)
write_at-end a xs ys i k z e f =
    ap (λ j. write_at (xs ++ replicate k a) j ys) e
    ∙ write_at-after a xs ys k z f
    ∙ ap ok (sym (append_assoc xs ys (replicate z a)))

string-steps :
    (var : List ℕ) (e : Environ) (slots : List (Option ℕ)) (bytes : List ℕ)
    → write_at e.new_environ e.arr_ptr (some e.ptr ∷ []) ≡ ok slots
    → write_at e.bytes e.ptr (var ++ 0 ∷ []) ≡ ok bytes
    → copy_string var e
      ≡ ok (record {
        new_environ = slots;
        bytes = bytes;
        arr_ptr = e.arr_ptr + 1;
        ptr = e.ptr + (length var + 1);
      })
unfolding copy_string
string-steps var e slots bytes h k = rw (h, k) refl

value-steps :
    (var value : List ℕ) (e : Environ) (slots : List (Option ℕ)) (b₁ b₂ b₃ : List ℕ)
    → write_at e.new_environ e.arr_ptr (some e.ptr ∷ []) ≡ ok slots
    → write_at e.bytes e.ptr var ≡ ok b₁
    → write_at b₁ (e.ptr + length var) (61 ∷ []) ≡ ok b₂
    → write_at b₂ (e.ptr + length var + 1) (value ++ 0 ∷ []) ≡ ok b₃
    → copy_value var value e
      ≡ ok (record {
        new_environ = slots;
        bytes = b₃;
        arr_ptr = e.arr_ptr + 1;
        ptr = e.ptr + (length var + length value + 2);
      })
unfolding copy_value
value-steps var value e slots b₁ b₂ b₃ h₁ h₂ h₃ h₄ = rw (h₁, h₂, h₃, h₄) refl

abbrev environ : List (Option ℕ) → List ℕ → ℕ → ℕ → Environ
environ slots bytes i p = record { new_environ = slots; bytes = bytes; arr_ptr = i; ptr = p }

Environ-ext :
    (slots : List (Option ℕ)) (b b' : List ℕ) (i i' p p' : ℕ)
    → b ≡ b'
    → i ≡ i'
    → p ≡ p'
    → environ slots b i p ≡ environ slots b' i' p'
Environ-ext slots b b' i i' p p' e f g =
    ap (λ x. environ slots x i p) e
    ∙ ap (λ x. environ slots b' x p) f
    ∙ ap (λ x. environ slots b' i' x) g

-- One more string, with its NUL.
abbrev pub next_slots : List (Option ℕ) → List ℕ → List (Option ℕ)
next_slots slots bytes = slots ++ some (length bytes) ∷ []

pub copy_string-written :
    (var : List ℕ) (slots : List (Option ℕ)) (bytes : List ℕ) (k l r z : ℕ)
    → k ≡ 1 + r
    → l ≡ length var + 1 + z
    → copy_string var (written slots bytes k l)
      ≡ ok (written (next_slots slots bytes) (bytes ++ (var ++ 0 ∷ [])) r z)
copy_string-written var slots bytes k l r z e f =
    string-steps var (written slots bytes k l) (next_slots slots bytes ++ replicate r none)
      ((bytes ++ (var ++ 0 ∷ [])) ++ replicate z 0)
      (write_at-end none slots (some (length bytes) ∷ []) (length slots) k r refl e)
      (write_at-end 0 bytes (var ++ 0 ∷ []) (length bytes) l z refl
        (omega (arith, f, length-append var (0 ∷ []))))
    ∙ ap ok (
        Environ-ext (next_slots slots bytes ++ replicate r none)
          ((bytes ++ (var ++ 0 ∷ [])) ++ replicate z 0)
          ((bytes ++ (var ++ 0 ∷ [])) ++ replicate z 0) (length slots + 1)
          (length (next_slots slots bytes)) (length bytes + (length var + 1))
          (length (bytes ++ (var ++ 0 ∷ []))) refl
          (omega (arith, length-append slots (some (length bytes) ∷ [])))
          (omega (arith, length-append bytes (var ++ 0 ∷ []), length-append var (0 ∷ []))))

pub copy_value-written :
    (var value : List ℕ) (slots : List (Option ℕ)) (bytes : List ℕ) (k l r z : ℕ)
    → k ≡ 1 + r
    → l ≡ length var + length value + 2 + z
    → copy_value var value (written slots bytes k l)
      ≡ ok (written (next_slots slots bytes) (bytes ++ ((var ++ 61 ∷ value) ++ 0 ∷ [])) r z)
copy_value-written var value slots bytes k l r z e f =
    let b₁ = bytes ++ var in
    let b₂ = b₁ ++ 61 ∷ [] in
    let b₃ = b₂ ++ (value ++ 0 ∷ []) in
    let l₁ = length-append bytes var in
    let l₂ = length-append b₁ (61 ∷ []) in
    let lv = length-append value (0 ∷ []) in
    let l₃ = length-append b₂ (value ++ 0 ∷ []) in
    let same : b₃ ≡ bytes ++ ((var ++ 61 ∷ value) ++ 0 ∷ []) = simp append_assoc in
    value-steps var value (written slots bytes k l) (next_slots slots bytes ++ replicate r none)
      (b₁ ++ replicate (length value + 2 + z) 0) (b₂ ++ replicate (length value + 1 + z) 0)
      (b₃ ++ replicate z 0)
      (write_at-end none slots (some (length bytes) ∷ []) (length slots) k r refl e)
      (write_at-end 0 bytes var (length bytes) l (length value + 2 + z) refl (omega (arith, f)))
      (write_at-end 0 b₁ (61 ∷ []) (length bytes + length var) (length value + 2 + z)
        (length value + 1 + z) (omega (arith, l₁)) (omega arith))
      (write_at-end 0 b₂ (value ++ 0 ∷ []) (length bytes + length var + 1) (length value + 1 + z) z
        (omega (arith, l₁, l₂)) (omega (arith, lv)))
    ∙ ap ok (
        Environ-ext (next_slots slots bytes ++ replicate r none) (b₃ ++ replicate z 0)
          ((bytes ++ ((var ++ 61 ∷ value) ++ 0 ∷ [])) ++ replicate z 0) (length slots + 1)
          (length (next_slots slots bytes)) (length bytes + (length var + length value + 2))
          (length (bytes ++ ((var ++ 61 ∷ value) ++ 0 ∷ []))) (ap (λ b. b ++ replicate z 0) same)
          (omega (arith, length-append slots (some (length bytes) ∷ [])))
          (omega (arith, ap length same, l₁, l₂, lv, l₃)))
