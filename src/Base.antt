-- ===== src/Base.antt =====
-- Names that every module shares: the library's, passed on, and those of the two children.
pub mod Tests
pub mod Text
pub use Tests.{ltb, leb, ◌==◌, if◌then◌else◌, Bool-cases, ==_iff}
pub use Text.{Str, codes, length, length-append, str_eq_refl, str_eq-ne, str_eq→eq}
unfoldable pub use Text.{str_eq}
pub use Prim.Native.Nat.{ℕ, zero, suc, ◌+◌, ◌-◌, ◌*◌, ◌/◌, ◌%◌, ◌^◌, ◌≤◌, ◌<◌}
pub use mathlib.Core.Path.{◌≡◌, refl, sym, ap, subst, ◌∙◌}
pub use mathlib.Core.Logic.{◌≢◌, ◌↔◌, ◌⊎◌, inl, inr}
pub use mathlib.Core.Bool.{Bool, true, false, ◌&&◌, ◌||◌, not}
pub use mathlib.Core.Option.{Option, none, some}
pub use mathlib.Core.List.{List, [], ◌∷◌, ◌++◌, append-nil, append_assoc}
pub use native.Mathlib.Omega.{arith}
