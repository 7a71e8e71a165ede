-- ===== src/Sanitize/Laws.antt =====
-- `build_clean_environ`: the two passes agree, and what the new program reads.
use cutil.Prelude.{
  ℕ, zero, suc, ◌+◌, ◌≡◌, refl, sym, ap, ap₂, ◌∙◌, Bool, true, false, not, ◌&&◌, Option, none, some,
  List, [], ◌∷◌, ◌++◌, append_assoc, map, map-append, length, length-append, Result, ok, fault,
  ◌>>=◌, arith, if◌then◌else◌, ◌==◌, ℤ, pos, negsuc,
}
use cutil.Sanitize.{over_client}
use cutil.Sanitize.Strings.{flat, offsets}
use cutil.Sanitize.Loops.{slots_of}

pub flat-append : (xs ys : List (List ℕ)) → flat (xs ++ ys) ≡ flat xs ++ flat ys
flat-append [] ys = refl
flat-append (x ∷ xs) ys =
    ap (λ u. x ++ 0 ∷ u) (flat-append xs ys) ∙ sym (append_assoc x (0 ∷ flat xs) (flat ys))

offsets-append :
    (p : ℕ) (xs ys : List (List ℕ))
    → offsets p (xs ++ ys) ≡ offsets p xs ++ offsets (p + length (flat xs)) ys
offsets-append p [] ys = ap (λ q. offsets q ys) (omega arith)
offsets-append p (x ∷ xs) ys =
    ap (λ u. p ∷ u)
      (offsets-append (p + (length x + 1)) xs ys
        ∙ ap (λ q. offsets (p + (length x + 1)) xs ++ offsets q ys)
            (omega (arith, length-append x (0 ∷ flat xs))))

pub slots-append :
    (slots : List (Option ℕ)) (bytes : List ℕ) (xs ys : List (List ℕ))
    → slots_of (slots_of slots bytes xs) (bytes ++ flat xs) ys ≡ slots_of slots bytes (xs ++ ys)
slots-append slots bytes xs ys =
    append_assoc slots (map some (offsets (length bytes) xs))
      (map some (offsets (length (bytes ++ flat xs)) ys))
    ∙ ap (λ u. slots ++ u)
        (sym (map-append some (offsets (length bytes) xs) (offsets (length (bytes ++ flat xs)) ys))
          ∙ ap (λ q. map some (offsets (length bytes) xs ++ offsets q ys))
              (length-append bytes (flat xs))
          ∙ ap (map some) (sym (offsets-append (length bytes) xs ys)))

pub bytes-append :
    (bytes : List ℕ) (xs ys : List (List ℕ))
    → (bytes ++ flat xs) ++ flat ys ≡ bytes ++ flat (xs ++ ys)
bytes-append bytes xs ys =
    append_assoc bytes (flat xs) (flat ys) ∙ ap (λ u. bytes ++ u) (sym (flat-append xs ys))

-- The caller's array as a loop over its entries.
abbrev pub client_bound : ℤ → Option (List (Option (List ℕ))) → ℕ
client_bound (pos zero) v = 0
client_bound (negsuc n) v = 0
client_bound (pos (suc n)) none = 0
client_bound (pos (suc n)) (some vars) = suc n

abbrev pub client_vars : Option (List (Option (List ℕ))) → List (Option (List ℕ))
client_vars none = []
client_vars (some vars) = vars

pub over_client-loop {ℓ} :
    {S : Type ℓ} (c : ℤ) (v : Option (List (Option (List ℕ))))
    (loop : ℕ → List (Option (List ℕ)) → S → Result S) (s : S)
    → ((vars : List (Option (List ℕ))) → loop 0 vars s ≡ ok s)
    → over_client c v loop s ≡ loop (client_bound c v) (client_vars v) s
unfolding over_client
over_client-loop (pos zero) v loop s h = sym (h (client_vars v))
over_client-loop (negsuc n) v loop s h = sym (h (client_vars v))
over_client-loop (pos (suc n)) none loop s h = sym (h [])
over_client-loop (pos (suc n)) (some vars) loop s h = refl

-- What the new program reads: the string at each pointer, up to NULL.
pub from : ℕ → List ℕ → List ℕ
from zero bytes = bytes
from (suc p) [] = []
from (suc p) (x ∷ bytes) = from p bytes

pub c_string : List ℕ → Result (List ℕ)
c_string [] = fault
c_string (x ∷ bytes) =
    let rest = c_string bytes in if x == 0 then ok [] else do w ← rest; ok (x ∷ w)

pub strings_at : List (Option ℕ) → List ℕ → Result (List (List ℕ))
strings_at [] bytes = fault
strings_at (none ∷ slots) bytes = ok []
strings_at (some p ∷ slots) bytes = do
  w ← c_string (from p bytes)
  ws ← strings_at slots bytes
  ok (w ∷ ws)

-- No byte of the strings is NUL.
abbrev pub no_nul : List ℕ → Bool
no_nul [] = true
no_nul (x ∷ w) = not (x == 0) && no_nul w

abbrev pub NoNul : List (List ℕ) → Type 0
NoNul [] = Unit
NoNul (w ∷ ws) = (no_nul w ≡ true) × NoNul ws

from-length : (xs ys : List ℕ) → from (length xs) (xs ++ ys) ≡ ys
unfolding from
from-length [] ys = refl
from-length (x ∷ xs) ys = from-length xs ys

c_string-nul : (w ys : List ℕ) → no_nul w ≡ true → c_string (w ++ 0 ∷ ys) ≡ ok w
unfolding c_string
c_string-nul [] ys h = refl
c_string-nul (x ∷ w) ys h =
    let e : (x == 0) ≡ false = ground arith in rw (e, c_string-nul w ys (ground arith)) refl

pub strings_at-flat :
    (pre : List ℕ) (ws : List (List ℕ)) (ys : List ℕ)
    → NoNul ws
    → strings_at (map some (offsets (length pre) ws) ++ none ∷ []) (pre ++ (flat ws ++ ys)) ≡ ok ws
unfolding strings_at
strings_at-flat pre [] ys h = refl
strings_at-flat pre (w ∷ ws) ys (h, hs) =
    let here : from (length pre) (pre ++ (flat (w ∷ ws) ++ ys)) ≡ w ++ 0 ∷ (flat ws ++ ys) =
      from-length pre (flat (w ∷ ws) ++ ys) ∙ append_assoc w (0 ∷ flat ws) ys in
    let rest : strings_at (map some (offsets (length pre + (length w + 1)) ws) ++ none ∷ [])
          (pre ++ (flat (w ∷ ws) ++ ys))
        ≡ ok ws =
      ap₂ (λ p b. strings_at (map some (offsets p ws) ++ none ∷ []) b)
        (omega (arith, length-append pre (w ++ 0 ∷ []), length-append w (0 ∷ [])))
        (simp append_assoc)
      ∙ strings_at-flat (pre ++ (w ++ 0 ∷ [])) ws ys hs in
    rw (here, c_string-nul w (flat ws ++ ys) h, rest) refl
