-- ===== src/Sanitize/Strings.antt =====
-- The strings that `build_clean_environ` takes, and how they lie in memory.
use cutil.Prelude.{
  ℕ, zero, suc, ◌+◌, Bool, true, false, Option, none, some, List, [], ◌∷◌, ◌++◌, length,
}

-- The strings of an array, at most `n` of them and up to NULL.
abbrev pub listed : ℕ → List (Option (List ℕ)) → List (List ℕ)
listed zero vars = []
listed (suc n) [] = []
listed (suc n) (none ∷ vars) = []
listed (suc n) (some var ∷ vars) = var ∷ listed n vars

-- The array has as many entries, or NULL.
abbrev pub readable : ℕ → List (Option (List ℕ)) → Bool
readable zero vars = true
readable (suc n) [] = false
readable (suc n) (none ∷ vars) = true
readable (suc n) (some var ∷ vars) = readable n vars

-- The variables that have a value, each as `var=value`.
abbrev pub preserved : (List ℕ → Option (List ℕ)) → List (List ℕ) → List (List ℕ)
preserved getenv [] = []
preserved getenv (var ∷ vars) = elim (getenv var) [
  | none ↦ preserved getenv vars
  | some value ↦ (var ++ 61 ∷ value) ∷ preserved getenv vars
]

-- The strings one behind the other, each with its NUL.
abbrev pub flat : List (List ℕ) → List ℕ
flat [] = []
flat (w ∷ ws) = w ++ 0 ∷ flat ws

-- Where they begin, if the first one is at `p`.
abbrev pub offsets : ℕ → List (List ℕ) → List ℕ
offsets p [] = []
offsets p (w ∷ ws) = p ∷ offsets (p + (length w + 1)) ws
