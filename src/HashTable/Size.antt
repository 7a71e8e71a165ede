-- ===== src/HashTable/Size.antt =====
-- The size that `ht_grow` chooses.
use cutil.Prelude.{ℕ, ◌<◌, ◌≡◌, ◌⊎◌, true, false, List, [], ◌∷◌, ◌++◌}
use cutil.ListItem.Ring.{count}
use cutil.HashTable.{Limit}

-- The size is the first of the primes, in the order of the table, that keeps the load within the
-- limit; it may be above the limit only where no prime is left.
pub IsFirstFit : ℕ → Limit → List ℕ → ℕ → Type 0
IsFirstFit n limit table size =
    (before : List ℕ) × (after : List ℕ) × (table ≡ before ++ size ∷ after)
    × ((j : ℕ) → 0 < count j before → limit.exceeded_by_ratio n j ≡ true)
    × ((limit.exceeded_by_ratio n size ≡ false) ⊎ (after ≡ []))
