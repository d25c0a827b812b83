-- ===== src/Shared.antt =====
-- The names that the other modules share: the libraries', passed on, and those of the children.
mod Tests
mod Lists
mod Fail
mod Channels
mod Decimal
mod Ints
pub use Tests.*
pub use Lists.*
pub use Fail.{Error, error, wrap, eof, Result, ok, err, ◌>>=◌}
pub use Channels.{Chan, make_chan, send, room, IsBounded, send-IsBounded}
pub use Decimal.{Text, codes, value, itoa_value, itoa-injective, itoa-All-IsDigit, IsDigit}
unfoldable pub use Decimal.{itoa}
pub use Prim.Native.Nat.{ℕ, zero, suc, ◌+◌, ◌-◌, ◌*◌, ◌/◌, ◌%◌, ◌^◌, ◌≤◌, ◌<◌}
pub use Ints.{ℤ, pos, negsuc, minus}
pub use Prim.Native.String.{String}
pub use mathlib.Core.Path.{◌≡◌, refl, sym, ap, ap₂, ◌∙◌}
pub use mathlib.Core.Logic.{◌≢◌, ◌↔◌, ◌⊎◌, inl, inr}
pub use mathlib.Core.Bool.{Bool, true, false, not, ◌&&◌, ◌||◌}
pub use mathlib.Core.Option.{Option, none, some}
pub use mathlib.Core.List.{List, [], ◌∷◌, ◌++◌, map, append-nil, append_assoc}
pub use native.Mathlib.Omega.{arith}
