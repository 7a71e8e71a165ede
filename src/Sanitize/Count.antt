-- ===== src/Sanitize/Count.antt =====
-- The loops of `build_clean_environ` that count.
use cutil.Prelude.{
  ℕ, zero, suc, ◌+◌, ◌%◌, ◌^◌, ◌<◌, subst, ◌≡◌, sym, ap, ap₂, ◌∙◌, true, Option, none, some, List,
  [], ◌∷◌, ◌++◌, Option-cases, inl, inr, length, length-append, ok, arith,
}
use cutil.Sanitize.{Sizes, count_strings, count_values}
use cutil.Sanitize.Strings.{listed, readable, preserved, flat}

abbrev pub sized : Sizes → List (List ℕ) → Sizes
sized s ws = record { arr_size = s.arr_size + length ws; new_size = s.new_size + length (flat ws) }

unfoldable pub Fits : Sizes → List (List ℕ) → Type 0
Fits s ws = (s.arr_size + length ws < 2 ^ 64) × (s.new_size + length (flat ws) < 2 ^ 64)

Sizes-ext : (s s' : Sizes) → s.arr_size ≡ s'.arr_size → s.new_size ≡ s'.new_size → s ≡ s'
Sizes-ext s s' e f = ap₂ (λ x y. record { arr_size = x; new_size = y }) e f

pub count_strings-listed :
    (n : ℕ) (vars : List (Option (List ℕ))) (s : Sizes)
    → readable n vars ≡ true
    → Fits s (listed n vars)
    → count_strings n vars s ≡ ok (sized s (listed n vars))
unfolding count_strings Fits
count_strings-listed zero vars s h (f, g) =
    ap ok (Sizes-ext s (sized s []) (omega arith) (omega arith))
count_strings-listed (suc n) [] s h (f, g) = absurd (ground arith)
count_strings-listed (suc n) (none ∷ vars) s h (f, g) =
    ap ok (Sizes-ext s (sized s []) (omega arith) (omega arith))
count_strings-listed (suc n) (some var ∷ vars) s h (f, g) =
    let s₁ : Sizes = record {
      arr_size = (s.arr_size + 1) % 2 ^ 64;
      new_size = (s.new_size + (length var + 1)) % 2 ^ 64;
    } in
    let ws = listed n vars in
    let l = length-append var (0 ∷ flat ws) in
    let e : s₁.arr_size ≡ s.arr_size + 1 = omega arith in
    let e' : s₁.new_size ≡ s.new_size + (length var + 1) = omega arith in
    count_strings-listed n vars s₁ h (omega arith, omega arith)
    ∙ ap ok (Sizes-ext (sized s₁ ws) (sized s (var ∷ ws)) (omega arith) (omega arith))

abbrev pub value_of :
    (List ℕ → Option (List ℕ))
    → List ℕ
    → List (Option (List ℕ))
    → ℕ
    → Option (List ℕ)
    → List (List ℕ)
value_of getenv var vars n o = elim o [
  | none ↦ preserved getenv (listed n vars)
  | some value ↦ (var ++ 61 ∷ value) ∷ preserved getenv (listed n vars)
]

count-step :
    (getenv : List ℕ → Option (List ℕ)) (n : ℕ) (vars : List (Option (List ℕ))) (var : List ℕ)
    (s : Sizes) (o : Option (List ℕ))
    → getenv var ≡ o
    → count_values getenv (suc n) (some var ∷ vars) s ≡ elim o [
      | none ↦ count_values getenv n vars s
      | some value ↦ count_values getenv n vars (record {
        arr_size = (s.arr_size + 1) % 2 ^ 64;
        new_size = (s.new_size + (length var + length value + 2)) % 2 ^ 64;
      })
    ]
unfolding count_values
count-step getenv n vars var s o e =
    ap
      (λ o'. elim o' [
        | none ↦ count_values getenv n vars s
        | some value ↦ count_values getenv n vars (record {
          arr_size = (s.arr_size + 1) % 2 ^ 64;
          new_size = (s.new_size + (length var + length value + 2)) % 2 ^ 64;
        })
      ])
      e

some_value :
    (getenv : List ℕ → Option (List ℕ)) (n : ℕ) (vars : List (Option (List ℕ))) (var value : List ℕ)
    (s : Sizes)
    → readable n vars ≡ true
    → Fits s ((var ++ 61 ∷ value) ∷ preserved getenv (listed n vars))
    → ((s₁ : Sizes)
        → Fits s₁ (preserved getenv (listed n vars))
        → count_values getenv n vars s₁ ≡ ok (sized s₁ (preserved getenv (listed n vars))))
    → count_values getenv n vars (record {
      arr_size = (s.arr_size + 1) % 2 ^ 64;
      new_size = (s.new_size + (length var + length value + 2)) % 2 ^ 64;
    })
      ≡ ok (sized s ((var ++ 61 ∷ value) ∷ preserved getenv (listed n vars)))
unfolding Fits
some_value getenv n vars var value s h (f, g) rest =
    let s₁ : Sizes = record {
      arr_size = (s.arr_size + 1) % 2 ^ 64;
      new_size = (s.new_size + (length var + length value + 2)) % 2 ^ 64;
    } in
    let ws = preserved getenv (listed n vars) in
    let w = var ++ 61 ∷ value in
    let l = length-append w (0 ∷ flat ws) in
    let l' = length-append var (61 ∷ value) in
    let e : s₁.arr_size ≡ s.arr_size + 1 = omega arith in
    let e' : s₁.new_size ≡ s.new_size + (length var + length value + 2) = omega arith in
    rest s₁ (omega arith, omega arith)
    ∙ ap ok (Sizes-ext (sized s₁ ws) (sized s (w ∷ ws)) (omega arith) (omega arith))

pub count_values-preserved :
    (getenv : List ℕ → Option (List ℕ)) (n : ℕ) (vars : List (Option (List ℕ))) (s : Sizes)
    → readable n vars ≡ true
    → Fits s (preserved getenv (listed n vars))
    → count_values getenv n vars s ≡ ok (sized s (preserved getenv (listed n vars)))
unfolding count_values Fits
count_values-preserved getenv zero vars s h (f, g) =
    ap ok (Sizes-ext s (sized s []) (omega arith) (omega arith))
count_values-preserved getenv (suc n) [] s h (f, g) = absurd (ground arith)
count_values-preserved getenv (suc n) (none ∷ vars) s h (f, g) =
    ap ok (Sizes-ext s (sized s []) (omega arith) (omega arith))
count_values-preserved getenv (suc n) (some var ∷ vars) s h fits =
    elim (Option-cases (getenv var)) [
      | inl e ↦
          count-step getenv n vars var s none e
          ∙ count_values-preserved getenv n vars s h
              (subst (λ o. Fits s (value_of getenv var vars n o)) e fits)
          ∙ ap (λ o. ok (sized s (value_of getenv var vars n o))) (sym e)
      | inr (value, e) ↦
          count-step getenv n vars var s (some value) e
          ∙ some_value getenv n vars var value s h
              (subst (λ o. Fits s (value_of getenv var vars n o)) e fits)
              (λ s₁ k. count_values-preserved getenv n vars s₁ h k)
          ∙ ap (λ o. ok (sized s (value_of getenv var vars n o))) (sym e)
    ]
