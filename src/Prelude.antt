-- ===== src/Prelude.antt =====
-- The names that the modules share: the libraries', passed on, and those of the children.
mod Tests
mod Lists
mod Text
mod Results
mod Span
pub use Tests.*
pub use Lists.*
unfoldable pub use Text.{same, contains, format_digits, format_uint}
pub use Text.{
  Bytes, codes, same→eq, same_refl, eq→same, same_iff, contains_iff, same→ne, ne→same, is_empty,
  cut_last, append_cancel, format_uint_injective, format_uint_no_colon,
}
pub use Results.*
unfoldable pub use Span.{span}
pub use Span.{span-append, span-All, Stops, span-Stops, span_of_stop, span-before_stop}
pub use Prim.Native.Nat.{ℕ, zero, suc, ◌+◌, ◌-◌, ◌*◌, ◌/◌, ◌%◌, ◌^◌, ◌≤◌, ◌<◌}
pub use Prim.Native.String.{String}
pub use mathlib.Core.Path.{◌≡◌, refl, sym, ap, ◌∙◌, subst, fun_ext}
pub use mathlib.Core.Logic.{◌≢◌, ◌↔◌, ◌⊎◌, inl, inr}
pub use mathlib.Core.Bool.{Bool, true, false, not, ◌&&◌, ◌||◌}
pub use mathlib.Core.Option.{Option, none, some}
pub use mathlib.Core.List.{List, [], ◌∷◌, ◌++◌, map, append_assoc, append-nil}
pub use native.Mathlib.Omega.{arith}
