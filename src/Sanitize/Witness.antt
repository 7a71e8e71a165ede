-- ===== src/Sanitize/Witness.antt =====
-- The theorem on `build_clean_environ` at an environment with a time zone and a terminal.
use cutil.Prelude.{
  Bool, ◌&&◌, ℕ, ◌≡◌, refl, Option, none, some, List, [], ◌∷◌, Returns, ok, arith, pos, ◌==◌,
  if◌then◌else◌, true, false,
}
use cutil.Sanitize.{Environ, build_clean_environ}
use cutil.Sanitize.Laws.{strings_at}
use cutil.Sanitize.Environment.{environment, build_clean_environ-environment}

-- `TZ` is "UTC", and `TERM` is "xt"; the other variables have no value.
abbrev same_string : List ℕ → List ℕ → Bool
same_string [] [] = true
same_string [] (y ∷ ys) = false
same_string (x ∷ xs) [] = false
same_string (x ∷ xs) (y ∷ ys) = (x == y) && same_string xs ys

abbrev some_getenv : List ℕ → Option (List ℕ)
some_getenv var =
    if same_string var (84 ∷ 90 ∷ [])
    then some (85 ∷ 84 ∷ 67 ∷ [])
    else if same_string var (84 ∷ 69 ∷ 82 ∷ 77 ∷ [])
    then some (120 ∷ 116 ∷ [])
    else none

-- "/bin", and the arrays { "TERM", "LANG" } and { "A=1", NULL }
abbrev some_path : List ℕ
some_path = 47 ∷ 98 ∷ 105 ∷ 110 ∷ []

abbrev kept_names : List (Option (List ℕ))
kept_names = some (84 ∷ 69 ∷ 82 ∷ 77 ∷ []) ∷ some (76 ∷ 65 ∷ 78 ∷ 71 ∷ []) ∷ []

abbrev added_strings : List (Option (List ℕ))
added_strings = some (65 ∷ 61 ∷ 49 ∷ []) ∷ none ∷ []

build_clean_environ-environment_example :
    Returns
      (build_clean_environ true some_getenv some_path
        (pos 2)
        (some kept_names)
        (pos 9)
        (some added_strings))
      λ r.
        (e : Environ) × (r ≡ some e)
        × (strings_at e.new_environ e.bytes
            ≡ ok (
                environment some_getenv some_path
                  (pos 2)
                  (some kept_names)
                  (pos 9)
                  (some added_strings)))
build_clean_environ-environment_example =
    build_clean_environ-environment some_getenv some_path (pos 2) (some kept_names) (pos 9)
      (some added_strings) refl refl (omega arith) (refl, (refl, (refl, (refl, (refl, tt)))))
