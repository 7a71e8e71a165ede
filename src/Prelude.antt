-- ===== src/Prelude.antt =====
-- The names that the other modules share: the libraries', passed on, and those of the children.
pub mod Tests
pub mod Arrays
pub mod Outcome
pub mod Int
pub mod Bits
pub use Tests.{
  ltb, leb, ◌==◌, if◌then◌else◌, ltb→lt, lt→ltb, le→not_ltb, ==_refl, ne→==_false, ==_iff,
  Bool-cases, Option-cases,
}
pub use Arrays.{
  length, get_elem?, get_or, set, replicate, length-append, length-set, length-replicate,
  get_elem?-eq-get_or, get_or-set, get_or-replicate, length-map,
}
pub use Outcome.{Result, ok, fault, out_of_fuel, ◌>>=◌, Returns}
pub use Bits.{
  digit, digit-lt, digit-zero, digit-ones, digit-and, digit-or, and_31, and_not_31, and_power,
  digit-masks,
}
pub use Int.{ℤ, pos, negsuc, ◌==ℤ◌, ==ℤ_refl}
pub use Prim.Native.Nat.{
  ℕ, zero, suc, ◌+◌, ◌-◌, ◌*◌, ◌/◌, ◌%◌, ◌^◌, ◌≤◌, ◌<◌, bit_and, bit_or, min, max,
}
pub use mathlib.Core.Path.{◌≡◌, refl, sym, ap, ap₂, ◌∙◌, subst}
pub use mathlib.Core.Logic.{◌≢◌, ◌↔◌, ◌⊎◌, inl, inr}
pub use mathlib.Core.Bool.{Bool, true, false, not, ◌&&◌, ◌||◌}
pub use mathlib.Core.Option.{Option, none, some}
pub use mathlib.Core.List.{List, [], ◌∷◌, ◌++◌, map, append_assoc, append-nil, map-append}
pub use native.Mathlib.Omega.{arith}
