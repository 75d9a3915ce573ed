-- ===== src/Prelude.antt =====
-- The names that every module shares: the libraries' and those of the children.
pub mod Tests
pub mod Keys
pub mod Lists
pub mod Outside
pub mod Order
pub mod Dict
pub mod Int
pub mod Float
pub use Prim.Native.Nat.{ℕ, zero, suc, ◌+◌, ◌-◌, ◌*◌, ◌/◌, ◌%◌, ◌^◌, ◌≤◌, ◌<◌}
pub use Prim.Native.String.{String}
pub use mathlib.Core.Path.{◌≡◌, refl, sym, ap, ap₂, ◌∙◌}
pub use mathlib.Core.Logic.{◌≢◌, ◌↔◌, ◌⊎◌, inl, inr}
pub use mathlib.Core.Bool.{Bool, true, false, not, ◌&&◌, ◌||◌}
pub use mathlib.Core.Option.{Option, none, some}
pub use mathlib.Core.List.{List, [], ◌∷◌, ◌++◌, map, map-append, append-nil, append_assoc, Sublistᴰ}
pub use native.Mathlib.Omega.{arith}
pub use Tests.*
pub use Keys.*
pub use Lists.*
