-- ===== src/Base.antt =====
-- What the other modules share: the libraries' names, passed on, and those of the children.
mod Tests
mod Lists
mod Loops
mod Int
mod Results
mod Order
mod Text
mod Hex
pub use Tests.*
pub use Lists.*
pub use Int.*
pub use Loops.{Event, ticks_before, is_positive}
unfoldable pub use Loops.{loop, run_every}
pub use Results.*
pub use Order.{
  digits_from-cons, digits_from, order_by, insert_by, order_by-perm, All-insert_by, All-order_by,
  All-take,
}
unfoldable pub use Order.{decimal}
pub use Text.{Bytes, bytes_eq_refl, bytes_eq-eq, is_space, to_lower, to_upper, Addresses}
unfoldable pub use Text.{bytes_eq, trim_left, trim_space, after_prefix, before_suffix}
pub use Text.{after_prefix-append, after_prefix_sound}
pub use Hex.{IsByte, hex_decode-hex_encode}
unfoldable pub use Hex.{hex_encode, hex_decode}
pub use Prim.Native.Nat.{ℕ, zero, suc, ◌+◌, ◌-◌, ◌*◌, ◌/◌, ◌%◌, ◌^◌, ◌≤◌, ◌<◌}
pub use Prim.Native.String.{String}
pub use mathlib.Core.Path.{◌≡◌, refl, sym, ap, subst, ◌∙◌}
pub use mathlib.Core.Logic.{◌≢◌, ◌↔◌, ◌⊎◌, inl, inr}
pub use mathlib.Core.Bool.{Bool, true, false, not, ◌&&◌, ◌||◌}
pub use mathlib.Core.Option.{Option, none, some}
pub use mathlib.Core.List.{reverse, List, [], ◌∷◌, ◌++◌, map}
pub use native.Mathlib.Omega.{arith}
use Prim.Native.Char.{code}

-- The bytes of an ASCII literal.
abbrev pub bytes : String → Bytes
bytes String.[] = []
bytes (String.◌∷◌ c s) = code c ∷ bytes s
