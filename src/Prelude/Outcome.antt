-- ===== src/Prelude/Outcome.antt =====
-- The outcome of a piece of C code: it needs more rounds of a loop than its fuel, its behaviour is
-- undefined (`fault`), or it has a result.
use mathlib.Core.Path.{◌≡◌}

pub data Result {u} (X : Type u) : Type u where
  out_of_fuel : Result X
  fault : Result X
  ok : X → Result X

-- Neither a fault nor too little fuel: there is a result, and `Good` holds of it.
abbrev pub Returns {u v} : {X : Type u} → Result X → (X → Type v) → Type (u ⊔ v)
Returns {X} outcome Good = (x : X) × (outcome ≡ ok x) × Good x

infixl 5 ◌>>=◌
abbrev pub ◌>>=◌ {u v} : {X : Type u} {Y : Type v} → Result X → (X → Result Y) → Result Y
out_of_fuel >>= next = out_of_fuel
fault >>= next = fault
ok x >>= next = next x
