-- ===== src/Base.antt =====
-- The names that the other modules share: the libraries', passed on, and those of the children.
mod Tests
mod Lists
mod Results
mod Strings
mod Unicode
mod Sort
mod Int
mod Decimals
pub use Tests.*
pub use Lists.*
pub use Results.*
pub use Int.*
pub use Decimals.{Decimal, mul_decimal}
unfoldable pub use Decimals.{lt_decimal, format_decimal}
pub use Strings.{Text, codes, concat, join}
unfoldable pub use Strings.{str_int}
pub use Unicode.{same_text, same_text-eq, same_text_self, is_surrogate}
unfoldable pub use Unicode.{is_space, is_control, split, strip, utf8_size}
unfoldable pub use Sort.{sorted_set, sorted_list, sorted_items}
pub use Prim.Native.Nat.{ℕ, zero, suc, ◌+◌, ◌-◌, ◌*◌, ◌/◌, ◌%◌, ◌^◌, ◌≤◌, ◌<◌}
pub use Prim.Native.String.{String}
pub use mathlib.Core.Path.{◌≡◌, refl, sym, ap, ◌∙◌, subst}
pub use mathlib.Core.Logic.{◌≢◌, ◌↔◌, ◌⊎◌, inl, inr}
pub use mathlib.Core.Bool.{Bool, true, false, not, ◌&&◌, ◌||◌}
pub use mathlib.Core.Option.{Option, none, some}
pub use mathlib.Core.List.{List, [], ◌∷◌, ◌++◌, map, append_assoc, append-nil}
pub use native.Mathlib.Omega.{arith}
pub use text.Mathlib.Text.{◌==◌ as str_eq}
pub use text.Mathlib.TextEquality.{eq_iff}
