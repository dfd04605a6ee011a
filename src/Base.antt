-- ===== src/Base.antt =====
-- The names that the models of the modem subsystem share: numbers, tests, lists, options, bytes,
-- and the interface of the Zephyr code that the sources call.
pub mod Tests
mod Lists
pub mod Gives
pub mod Bits
pub mod Zephyr
pub mod Net
pub use Tests.*
pub use Lists.*
pub use Prim.Native.Nat.{ℕ, zero, suc, ◌+◌, ◌-◌, ◌*◌, ◌/◌, ◌%◌, ◌^◌, ◌≤◌, ◌<◌, min}
pub use Zephyr.{
  taken_first, RingBuf, Crc8, Crc16, Ret, ret, fail, negative, Errno, eperm, eagain, enomem, ebusy,
  einval, ealready, enodata, eprotonosupport,
}
pub use Prim.Native.Nat.{bit_and, bit_or, bit_xor}
pub use mathlib.Core.Path.{◌≡◌, refl, sym, ap, ◌∙◌}
pub use mathlib.Core.Logic.{◌≢◌, ◌↔◌, ◌⊎◌, inl, inr}
pub use mathlib.Core.Bool.{Bool, true, false, not, ◌&&◌, ◌||◌}
pub use mathlib.Core.Option.{Option, none, some}
pub use mathlib.Core.List.{List, [], ◌∷◌, ◌++◌, append-nil, append_assoc}
pub use native.Mathlib.Omega.{arith}
