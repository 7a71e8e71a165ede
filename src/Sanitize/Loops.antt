-- ===== src/Sanitize/Loops.antt =====
-- The loops that copy strings: each string behind the last one.
use cutil.Prelude.{
  ℕ, zero, suc, ◌+◌, subst, ◌≡◌, refl, sym, ap, ap₂, ◌∙◌, true, Option, none, some, List, [], ◌∷◌,
  ◌++◌, append_assoc, append-nil, map, Option-cases, inl, inr, length, length-append, Result, ok,
  ◌>>=◌, arith,
}
use cutil.Sanitize.{Environ, copy_value, copy_strings, copy_values}
use cutil.Sanitize.Strings.{listed, readable, preserved, flat, offsets}
use cutil.Sanitize.Count.{value_of}
use cutil.Sanitize.Copy.{written, next_slots, copy_string-written, copy_value-written}

-- The pointers and the bytes with the strings `ws` behind.
abbrev pub slots_of : List (Option ℕ) → List ℕ → List (List ℕ) → List (Option ℕ)
slots_of slots bytes ws = slots ++ map some (offsets (length bytes) ws)

-- Room for a string and those behind it.
module _ (w : List ℕ) (ws : List (List ℕ)) (slots : List (Option ℕ)) (bytes : List ℕ) where
  pub slots-next :
      slots_of (next_slots slots bytes) (bytes ++ (w ++ 0 ∷ [])) ws ≡ slots_of slots bytes (w ∷ ws)
  slots-next =
      append_assoc slots (some (length bytes) ∷ [])
        (map some (offsets (length (bytes ++ (w ++ 0 ∷ []))) ws))
      ∙ ap (λ p. slots ++ some (length bytes) ∷ map some (offsets p ws))
          (omega (arith, length-append bytes (w ++ 0 ∷ []), length-append w (0 ∷ [])))

  pub bytes-next : (bytes ++ (w ++ 0 ∷ [])) ++ flat ws ≡ bytes ++ flat (w ∷ ws)
  bytes-next = simp append_assoc

finish :
    (slots : List (Option ℕ)) (bytes : List ℕ) (k l r z : ℕ)
    → k ≡ 0 + r
    → l ≡ 0 + z
    → ok (written slots bytes k l) ≡ ok (written (slots ++ []) (bytes ++ []) r z)
finish slots bytes k l r z e f =
    ap₂ (λ x y. ok (written slots bytes x y)) (omega (arith, e)) (omega (arith, f))
    ∙ ap₂ (λ x y. ok (written x y r z)) (sym (append-nil slots)) (sym (append-nil bytes))

pub copy_strings-written :
    (n : ℕ) (vars : List (Option (List ℕ))) (slots : List (Option ℕ)) (bytes : List ℕ) (k l r z : ℕ)
    → readable n vars ≡ true
    → k ≡ length (listed n vars) + r
    → l ≡ length (flat (listed n vars)) + z
    → copy_strings n vars (written slots bytes k l)
      ≡ ok (written (slots_of slots bytes (listed n vars)) (bytes ++ flat (listed n vars)) r z)
unfolding copy_strings
copy_strings-written zero vars slots bytes k l r z h e f = finish slots bytes k l r z e f
copy_strings-written (suc n) [] slots bytes k l r z h e f = absurd (ground arith)
copy_strings-written (suc n) (none ∷ vars) slots bytes k l r z h e f =
    finish slots bytes k l r z e f
copy_strings-written (suc n) (some var ∷ vars) slots bytes k l r z h e f =
    let ws = listed n vars in
    let l₁ = length-append var (0 ∷ flat ws) in
    rw
      (copy_string-written var slots bytes k l (length ws + r) (length (flat ws) + z)
        (omega (arith, e)) (omega (arith, f, l₁)))
      (copy_strings-written n vars (next_slots slots bytes) (bytes ++ (var ++ 0 ∷ []))
          (length ws + r) (length (flat ws) + z) r z h refl refl
        ∙ ap₂ (λ x y. ok (written x y r z)) (slots-next var ws slots bytes)
            (bytes-next var ws slots bytes))

-- What the loop over variables leaves of the strings `ws`.
abbrev Copied : List (Option ℕ) → List ℕ → ℕ → ℕ → List (List ℕ) → Result Environ → Type 0
Copied slots bytes r z ws result =
    result ≡ ok (written (slots_of slots bytes ws) (bytes ++ flat ws) r z)

values-step :
    (getenv : List ℕ → Option (List ℕ)) (n : ℕ) (vars : List (Option (List ℕ))) (var : List ℕ)
    (e : Environ) (o : Option (List ℕ))
    → getenv var ≡ o
    → copy_values getenv (suc n) (some var ∷ vars) e ≡ elim o [
      | none ↦ copy_values getenv n vars e
      | some value ↦ (copy_value var value e >>= λ e'. copy_values getenv n vars e')
    ]
unfolding copy_values
values-step getenv n vars var e o h =
    ap
      (λ o'. elim o' [
        | none ↦ copy_values getenv n vars e
        | some value ↦ (copy_value var value e >>= λ e'. copy_values getenv n vars e')
      ])
      h

value-Copied :
    (getenv : List ℕ → Option (List ℕ)) (n : ℕ) (vars : List (Option (List ℕ))) (var value : List ℕ)
    (slots : List (Option ℕ)) (bytes : List ℕ) (k l r z : ℕ)
    → k ≡ length ((var ++ 61 ∷ value) ∷ preserved getenv (listed n vars)) + r
    → l ≡ length (flat ((var ++ 61 ∷ value) ∷ preserved getenv (listed n vars))) + z
    → ((slots' : List (Option ℕ)) (bytes' : List ℕ) (k' l' : ℕ)
        → k' ≡ length (preserved getenv (listed n vars)) + r
        → l' ≡ length (flat (preserved getenv (listed n vars))) + z
        → Copied slots' bytes' r z
            (preserved getenv (listed n vars))
            (copy_values getenv n vars (written slots' bytes' k' l')))
    → Copied slots bytes r z
        ((var ++ 61 ∷ value) ∷ preserved getenv (listed n vars))
        (copy_value var value (written slots bytes k l) >>= λ e'. copy_values getenv n vars e')
value-Copied getenv n vars var value slots bytes k l r z e f rest =
    let ws = preserved getenv (listed n vars) in
    let w = var ++ 61 ∷ value in
    let l₁ = length-append w (0 ∷ flat ws) in
    let l₂ = length-append var (61 ∷ value) in
    rw
      (copy_value-written var value slots bytes k l (length ws + r) (length (flat ws) + z)
        (omega (arith, e)) (omega (arith, f, l₁, l₂)))
      (rest (next_slots slots bytes) (bytes ++ (w ++ 0 ∷ [])) (length ws + r) (length (flat ws) + z)
          refl refl
        ∙ ap₂ (λ x y. ok (written x y r z)) (slots-next w ws slots bytes)
            (bytes-next w ws slots bytes))

pub copy_values-written :
    (getenv : List ℕ → Option (List ℕ)) (n : ℕ) (vars : List (Option (List ℕ)))
    (slots : List (Option ℕ)) (bytes : List ℕ) (k l r z : ℕ)
    → readable n vars ≡ true
    → k ≡ length (preserved getenv (listed n vars)) + r
    → l ≡ length (flat (preserved getenv (listed n vars))) + z
    → Copied slots bytes r z
        (preserved getenv (listed n vars))
        (copy_values getenv n vars (written slots bytes k l))
unfolding copy_values
copy_values-written getenv zero vars slots bytes k l r z h e f = finish slots bytes k l r z e f
copy_values-written getenv (suc n) [] slots bytes k l r z h e f = absurd (ground arith)
copy_values-written getenv (suc n) (none ∷ vars) slots bytes k l r z h e f =
    finish slots bytes k l r z e f
copy_values-written getenv (suc n) (some var ∷ vars) slots bytes k l r z h e f =
    elim (Option-cases (getenv var)) [
      | inl q ↦
          values-step getenv n vars var (written slots bytes k l) none q
          ∙ copy_values-written getenv n vars slots bytes k l r z h
              (subst (λ o. k ≡ length (value_of getenv var vars n o) + r) q e)
              (subst (λ o. l ≡ length (flat (value_of getenv var vars n o)) + z) q f)
          ∙ ap
              (λ o. ok (
                written (slots_of slots bytes (value_of getenv var vars n o))
                  (bytes ++ flat (value_of getenv var vars n o)) r z))
              (sym q)
      | inr (value, q) ↦
          values-step getenv n vars var (written slots bytes k l) (some value) q
          ∙ value-Copied getenv n vars var value slots bytes k l r z
              (subst (λ o. k ≡ length (value_of getenv var vars n o) + r) q e)
              (subst (λ o. l ≡ length (flat (value_of getenv var vars n o)) + z) q f)
              (λ slots' bytes' k' l' e' f'.
                copy_values-written getenv n vars slots' bytes' k' l' r z h e' f')
          ∙ ap
              (λ o. ok (
                written (slots_of slots bytes (value_of getenv var vars n o))
                  (bytes ++ flat (value_of getenv var vars n o)) r z))
              (sym q)
    ]
