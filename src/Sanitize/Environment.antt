-- ===== src/Sanitize/Environment.antt =====
-- `build_clean_environ`: the environment that it builds.
use cutil.Prelude.{
  ℕ, ◌+◌, ◌-◌, ◌*◌, ◌%◌, ◌^◌, ◌<◌, ◌≡◌, refl, ap, ap₂, ◌∙◌, true, Option, some, List, [], ◌++◌,
  length, length-append, ok, Returns, arith, ℤ,
}
use cutil.Sanitize.{
  Sizes, Environ, count_strings, count_values, copy_strings, copy_values, clean_environ,
  preserve_environ, count_environ, copy_environ, build_clean_environ,
}
use cutil.Sanitize.Strings.{listed, readable, preserved, flat}
use cutil.Sanitize.Count.{sized, Fits, count_strings-listed, count_values-preserved}
use cutil.Sanitize.Copy.{written}
use cutil.Sanitize.Loops.{slots_of, copy_strings-written, copy_values-written}
use cutil.Sanitize.Laws.{
  flat-append, slots-append, bytes-append, over_client-loop, strings_at-flat, strings_at,
  client_bound, client_vars, NoNul,
}

-- The strings that the environment is to have.
abbrev pub environment :
    (List ℕ → Option (List ℕ))
    → List ℕ
    → ℤ
    → Option (List (Option (List ℕ)))
    → ℤ
    → Option (List (Option (List ℕ)))
    → List (List ℕ)
environment getenv std_path pc pv ac av =
    listed 3 (clean_environ std_path)
    ++ (preserved getenv (listed 2 preserve_environ)
        ++ (preserved getenv (listed (client_bound pc pv) (client_vars pv))
            ++ listed (client_bound ac av) (client_vars av)))

-- Loops of no rounds.
count_nothing :
    (getenv : List ℕ → Option (List ℕ)) (vars : List (Option (List ℕ))) (s : Sizes)
    → count_values getenv 0 vars s ≡ ok s
unfolding count_values
count_nothing getenv vars s = refl

count_no_strings : (vars : List (Option (List ℕ))) (s : Sizes) → count_strings 0 vars s ≡ ok s
unfolding count_strings
count_no_strings vars s = refl

copy_nothing :
    (getenv : List ℕ → Option (List ℕ)) (vars : List (Option (List ℕ))) (e : Environ)
    → copy_values getenv 0 vars e ≡ ok e
unfolding copy_values
copy_nothing getenv vars e = refl

copy_no_strings : (vars : List (Option (List ℕ))) (e : Environ) → copy_strings 0 vars e ≡ ok e
unfolding copy_strings
copy_no_strings vars e = refl

module _ (getenv : List ℕ → Option (List ℕ)) (std_path : List ℕ) (pc : ℤ)
    (pv : Option (List (Option (List ℕ)))) (ac : ℤ) (av : Option (List (Option (List ℕ))))
    (rp : readable (client_bound pc pv) (client_vars pv) ≡ true)
    (ra : readable (client_bound ac av) (client_vars av) ≡ true) where
  abbrev w₁ : List (List ℕ)
  w₁ = listed 3 (clean_environ std_path)

  abbrev w₂ : List (List ℕ)
  w₂ = preserved getenv (listed 2 preserve_environ)

  abbrev w₃ : List (List ℕ)
  w₃ = preserved getenv (listed (client_bound pc pv) (client_vars pv))

  abbrev w₄ : List (List ℕ)
  w₄ = listed (client_bound ac av) (client_vars av)

  abbrev all : List (List ℕ)
  all = environment getenv std_path pc pv ac av

  many : length all ≡ length w₁ + (length w₂ + (length w₃ + length w₄))
  many =
      length-append w₁ (w₂ ++ (w₃ ++ w₄))
      ∙ ap (λ x. length w₁ + x)
          (length-append w₂ (w₃ ++ w₄) ∙ ap (λ x. length w₂ + x) (length-append w₃ w₄))

  flat_size :
      (xs ys : List (List ℕ)) → length (flat (xs ++ ys)) ≡ length (flat xs) + length (flat ys)
  flat_size xs ys = ap length (flat-append xs ys) ∙ length-append (flat xs) (flat ys)

  large :
      length (flat all)
      ≡ length (flat w₁) + (length (flat w₂) + (length (flat w₃) + length (flat w₄)))
  large =
      flat_size w₁ (w₂ ++ (w₃ ++ w₄))
      ∙ ap (λ x. length (flat w₁) + x)
          (flat_size w₂ (w₃ ++ w₄) ∙ ap (λ x. length (flat w₂) + x) (flat_size w₃ w₄))

  abbrev s₀ : Sizes
  s₀ = record { arr_size = 1; new_size = 0 }

  Small : Type 0
  Small = length (flat all) + (length all + 1) * 8 < 2 ^ 64

  count-all :
      Small
      → count_environ getenv std_path pc pv ac av
        ≡ ok (sized (sized (sized (sized s₀ w₁) w₂) w₃) w₄)
  unfolding count_environ Fits Small
  count-all h =
      rw
        (
          count_strings-listed 3 (clean_environ std_path) s₀ refl
              (omega (arith, h, many, large), omega (arith, h, many, large)),
          count_values-preserved getenv 2 preserve_environ (sized s₀ w₁) refl
              (omega (arith, h, many, large), omega (arith, h, many, large)),
          over_client-loop pc pv (count_values getenv) (sized (sized s₀ w₁) w₂)
                (λ vars. count_nothing getenv vars (sized (sized s₀ w₁) w₂))
              ∙ count_values-preserved getenv (client_bound pc pv) (client_vars pv)
                  (sized (sized s₀ w₁) w₂) rp
                  (omega (arith, h, many, large), omega (arith, h, many, large)),
        )
        (over_client-loop ac av count_strings (sized (sized (sized s₀ w₁) w₂) w₃)
            (λ vars. count_no_strings vars (sized (sized (sized s₀ w₁) w₂) w₃))
          ∙ count_strings-listed (client_bound ac av) (client_vars av)
              (sized (sized (sized s₀ w₁) w₂) w₃) ra
              (omega (arith, h, many, large), omega (arith, h, many, large)))

  abbrev e₀ : Environ
  e₀ =
      written [] [] (length w₁ + (length w₂ + (length w₃ + (length w₄ + 1))))
        (length (flat w₁) + (length (flat w₂) + (length (flat w₃) + (length (flat w₄) + 0))))

  copy-all :
      copy_environ getenv std_path pc pv ac av e₀
      ≡ ok (written (slots_of [] [] all) ([] ++ flat all) 1 0)
  unfolding copy_environ
  copy-all =
      let k₂ = length w₂ + (length w₃ + (length w₄ + 1)) in
      let k₃ = length w₃ + (length w₄ + 1) in
      let k₄ = length w₄ + 1 in
      let l₂ = length (flat w₂) + (length (flat w₃) + (length (flat w₄) + 0)) in
      let l₃ = length (flat w₃) + (length (flat w₄) + 0) in
      let l₄ = length (flat w₄) + 0 in
      let x₁ = slots_of [] [] w₁ in
      let b₁ = [] ++ flat w₁ in
      let x₂ = slots_of x₁ b₁ w₂ in
      let b₂ = b₁ ++ flat w₂ in
      let x₃ = slots_of x₂ b₂ w₃ in
      let b₃ = b₂ ++ flat w₃ in
      let e₂ = written x₂ b₂ k₃ l₃ in
      let e₃ = written x₃ b₃ k₄ l₄ in
      rw
        (
          copy_strings-written 3 (clean_environ std_path) [] [] (length w₁ + k₂)
              (length (flat w₁) + l₂) k₂ l₂ refl refl refl,
          copy_values-written getenv 2 preserve_environ x₁ b₁ k₂ l₂ k₃ l₃ refl refl refl,
          over_client-loop pc pv (copy_values getenv) e₂ (λ vars. copy_nothing getenv vars e₂)
              ∙ copy_values-written getenv (client_bound pc pv) (client_vars pv) x₂ b₂ k₃ l₃ k₄ l₄
                  rp refl refl,
        )
        (over_client-loop ac av copy_strings e₃ (λ vars. copy_no_strings vars e₃)
          ∙ copy_strings-written (client_bound ac av) (client_vars av) x₃ b₃ k₄ l₄ 1 0 ra refl refl
          ∙ ap₂ (λ x b. ok (written x b 1 0)) joined_slots joined_bytes)
    where
      joined_slots :
          slots_of
            (slots_of
              (slots_of (slots_of [] [] w₁) ([] ++ flat w₁) w₂)
              (([] ++ flat w₁) ++ flat w₂)
              w₃)
            ((([] ++ flat w₁) ++ flat w₂) ++ flat w₃)
            w₄
          ≡ slots_of [] [] all
      joined_slots =
          slots-append (slots_of (slots_of [] [] w₁) ([] ++ flat w₁) w₂)
            (([] ++ flat w₁) ++ flat w₂) w₃ w₄
          ∙ slots-append (slots_of [] [] w₁) ([] ++ flat w₁) w₂ (w₃ ++ w₄)
          ∙ slots-append [] [] w₁ (w₂ ++ (w₃ ++ w₄))

      joined_bytes : (((([] ++ flat w₁) ++ flat w₂) ++ flat w₃) ++ flat w₄) ≡ [] ++ flat all
      joined_bytes =
          bytes-append (([] ++ flat w₁) ++ flat w₂) w₃ w₄
          ∙ bytes-append ([] ++ flat w₁) w₂ (w₃ ++ w₄)
          ∙ bytes-append [] w₁ (w₂ ++ (w₃ ++ w₄))

  -- The block that the first pass asks for is the one that the second pass fills.
  block-written :
      (s : Sizes)
      → s ≡ sized (sized (sized (sized s₀ w₁) w₂) w₃) w₄
      → Small
      → written [] [] s.arr_size ((s.new_size + s.arr_size * 8) % 2 ^ 64 - s.arr_size * 8) ≡ e₀
  unfolding Small
  block-written s e h =
      let a = ap (λ x. x.arr_size) e in
      let b = ap (λ x. x.new_size) e in
      ap₂ (λ x y. written [] [] x y) (omega (arith, a)) (omega (arith, a, b, h, many, large))

  build-steps :
      (s : Sizes) (e : Environ)
      → count_environ getenv std_path pc pv ac av ≡ ok s
      → copy_environ getenv std_path pc pv ac av
          (written [] [] s.arr_size ((s.new_size + s.arr_size * 8) % 2 ^ 64 - s.arr_size * 8))
        ≡ ok e
      → build_clean_environ true getenv std_path pc pv ac av ≡ ok (some e)
  unfolding build_clean_environ
  build-steps s e h k = rw (h, k) refl

  build_clean_environ-built :
      Small
      → build_clean_environ true getenv std_path pc pv ac av
        ≡ ok (some (written (slots_of [] [] all) ([] ++ flat all) 1 0))
  build_clean_environ-built h =
      let s = sized (sized (sized (sized s₀ w₁) w₂) w₃) w₄ in
      build-steps s (written (slots_of [] [] all) ([] ++ flat all) 1 0) (count-all h)
        (ap (copy_environ getenv std_path pc pv ac av) (block-written s refl h) ∙ copy-all)

-- When CALLOC succeeds, the caller's arrays have an entry or NULL wherever they are read, the
-- strings have no NUL byte and need with the pointers less than 2^64 bytes, build_clean_environ
-- stays inside its new block and returns an array of pointers that ends with NULL, at which stand
-- the clean environment, the default variables and then the caller's variables that have a value,
-- each as name=value, and the caller's additions.
pub build_clean_environ-environment :
    (getenv : List ℕ → Option (List ℕ)) (std_path : List ℕ) (preservec : ℤ)
    (preservev : Option (List (Option (List ℕ)))) (addc : ℤ)
    (addv : Option (List (Option (List ℕ))))
    → readable (client_bound preservec preservev) (client_vars preservev) ≡ true
    → readable (client_bound addc addv) (client_vars addv) ≡ true
    → length (flat (environment getenv std_path preservec preservev addc addv))
        + (length (environment getenv std_path preservec preservev addc addv) + 1) * 8
      < 2 ^ 64
    → NoNul (environment getenv std_path preservec preservev addc addv)
    → Returns (build_clean_environ true getenv std_path preservec preservev addc addv) λ r.
      (e : Environ) × (r ≡ some e)
      × (strings_at e.new_environ e.bytes
          ≡ ok (environment getenv std_path preservec preservev addc addv))
unfolding Small
build_clean_environ-environment getenv std_path pc pv ac av rp ra h clean =
    let ws = environment getenv std_path pc pv ac av in
    let e = written (slots_of [] [] ws) ([] ++ flat ws) 1 0 in
    (
      some e,
      build_clean_environ-built getenv std_path pc pv ac av rp ra h,
      (e, refl, strings_at-flat [] ws [] clean),
    )
