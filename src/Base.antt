-- ===== src/Base.antt =====
-- The names that the other modules share: the libraries', passed on, and those of the children.
mod Tests
mod Lists
mod Padding
mod Texts
mod Maps
mod Decimal
mod Errors
pub use Tests.*
pub use Lists.*
pub use Padding.{take-length, drop-length, get_or-padded, get_or-take, append_cancel}
unfoldable pub use Texts.{Text, str, same, is_empty, after_prefix, trim_prefix}
pub use Texts.{same_iff, same_refl, same_ne, trim_prefix-append}
unfoldable pub use Maps.{Map, lookup, insert, delete}
pub use Maps.{lookup-insert, lookup-insert_self, lookup-delete, lookup-delete_self}
unfoldable pub use Decimal.{decimal, pad_three}
pub use Decimal.{pad_three-digits}
pub use Errors.*
pub use Prim.Native.Nat.{ℕ, zero, suc, ◌+◌, ◌-◌, ◌*◌, ◌/◌, ◌%◌, ◌^◌, ◌≤◌, ◌<◌, min}
pub use mathlib.Core.Path.{◌≡◌, refl, sym, ap, subst, ◌∙◌}
pub use mathlib.Core.Logic.{◌≢◌, ◌↔◌, ◌⊎◌, inl, inr}
pub use mathlib.Core.Bool.{Bool, true, false, not, ◌&&◌, ◌||◌}
pub use mathlib.Core.Option.{Option, none, some}
pub use mathlib.Core.List.{List, [], ◌∷◌, ◌++◌, map}
pub use native.Mathlib.Omega.{arith}
