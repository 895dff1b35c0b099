-- ===== src/Base.antt =====
-- Names that every part shares: the libraries' types and tactics, Boolean tests, lists measured by
-- native numbers, and signed integers.
pub mod Strings
mod Tests
mod Lists
mod Tables
mod Texts
mod Results
pub mod Int
pub mod UniqueKeys
pub mod Keyset
pub use Tests.*
pub use Lists.*
pub use Tables.*
pub use Results.*
pub use Texts.{text_eq_sound, text_eq_refl}
unfoldable pub use Texts.{text_eq, has_slash, after_slash, before_slash, strip_provider, lower}
pub use Prim.Native.Nat.{ℕ, zero, suc, ◌+◌, ◌-◌, ◌*◌, ◌/◌, ◌%◌, ◌^◌, ◌≤◌, ◌<◌}
pub use mathlib.Core.Path.{◌≡◌, refl, sym, ap, ◌∙◌}
pub use mathlib.Core.Logic.{◌≢◌, ◌↔◌, ◌⊎◌, inl, inr}
pub use mathlib.Core.Bool.{Bool, true, false, not, ◌&&◌, ◌||◌}
pub use mathlib.Core.Option.{Option, none, some}
pub use mathlib.Core.List.{List, [], ◌∷◌, ◌++◌, map}
pub use native.Mathlib.Omega.{arith}
