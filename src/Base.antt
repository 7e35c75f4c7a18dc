-- ===== src/Base.antt =====
-- The names that the other modules share: the libraries', passed on, and those of the children.
mod Tests
mod Lists
mod Int
mod ListLaws
mod Strings
mod Assoc
pub use Tests.*
pub use Lists.*
pub use ListLaws.*
unfoldable pub use Int.{◌+ℤ◌, ◌-ℤ◌}
pub use Int.{
  ℤ, pos, negsuc, pos_part, neg_part, sub_ℕ, ◌≤ℤ◌, ◌<ℤ◌, ltb_ℤ, leb_ℤ, eq_ℤ, min_ℤ, max_ℤ, +ℤ_parts,
  -ℤ_parts, eq_of_parts, pos_injective, pos_add, int_laws,
}
unfoldable pub use Assoc.{find, assign}
pub use Assoc.{find-assign}
unfoldable pub use Strings.{
  text_eq, starts_with, ends_with, to_lower, contains, trim_start, trimmed,
}
pub use Strings.{
  Text, codes, is_empty, is_some, is_blank, chop, text_eq_refl, text_eq_iff, starts_with-append,
}
pub use Prim.Native.Nat.{ℕ, zero, suc, ◌+◌, ◌-◌, ◌*◌, ◌/◌, ◌%◌, ◌^◌, ◌≤◌, ◌<◌, min, max}
pub use mathlib.Core.Path.{◌≡◌, refl, sym, ap, ◌∙◌, subst}
pub use mathlib.Core.Logic.{◌≢◌, ◌↔◌, ◌⊎◌, inl, inr}
pub use mathlib.Core.Bool.{Bool, true, false, not, ◌&&◌, ◌||◌}
pub use mathlib.Core.Option.{Option, none, some}
pub use mathlib.Core.List.{List, [], ◌∷◌, ◌++◌, map, append-nil, append_assoc, reverse}
pub use native.Mathlib.Omega.{arith}
pub use native.Mathlib.Nat.{
  suc-mul, mul-suc, div-add-mod, mod-lt, le-div_iff_mul-le, add_comm, add_assoc,
}
