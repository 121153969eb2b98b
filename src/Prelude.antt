-- ===== src/Prelude.antt =====
-- The names that the other modules share: the libraries', passed on, and those of the children.
mod Tests
mod Lists
mod Maps
mod Text
mod Member
mod Strings
mod Decimal
pub mod Int
pub mod Float
pub mod Sorted
pub mod Exec
pub use Tests.*
pub use Lists.*
pub use Member.*
unfoldable pub use Maps.{lookup, insert, remove, retain}
pub use Maps.{
  Key, Map, keys, values, Distinct, lookup-insert, lookup-insert_self, lookup-insert_ne,
  lookup-remove, lookup-retain, insert-Distinct, remove-Distinct, retain-Distinct, any-values-false,
  any-values-true,
}
unfoldable pub use Strings.{strip_prefix, strip_suffix, split_first, trim}
pub use Strings.{
  empty_text, strip_prefix_sound, strip_suffix_sound, split_first_sound, split_first-count,
}
unfoldable pub use Decimal.{parse_uint}
pub use Decimal.{parse_uint-display}
unfoldable pub use Text.{string_discrete, display}
pub use Text.{str_eq, str_eq_iff, string_key, nat_key, ◌<>◌}
pub use Prim.Native.Nat.{ℕ, zero, suc, ◌+◌, ◌-◌, ◌*◌, ◌/◌, ◌%◌, ◌^◌, ◌≤◌, ◌<◌, max}
pub use Prim.Native.String.{String}
pub use mathlib.Core.Path.{ap₂, ◌≡◌, refl, sym, ap, ◌∙◌, subst}
pub use mathlib.Core.Logic.{◌≢◌, ◌↔◌, ◌⊎◌, inl, inr, ite, if_pos, if_neg}
pub use mathlib.Core.Bool.{Bool, true, false, not, ◌&&◌, ◌||◌}
pub use mathlib.Core.Option.{Option, none, some}
pub use mathlib.Core.List.{List, [], ◌∷◌, ◌++◌, map, Mem, Perm}
pub use native.Mathlib.Omega.{arith}
unfoldable pub use native.Mathlib.Decide.{dec_lt, dec_le, ℕ_discrete}
