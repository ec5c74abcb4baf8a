-- ===== src/Words.antt =====
-- Limbs (`mp_limb_t`, 64 bits) as native numbers below 2 ^ 64, with the operators that the code
-- applies to them. The build modelled has `GMP_NUMB_BITS` 64, as on every 64-bit host.
mod Step
mod Bits
mod Split
pub mod Limb
pub mod Longlong
pub mod Value
pub mod Reference
pub mod Update
mod BitAt
pub use Bits.*
pub use Split.*
pub use BitAt.*
unfoldable pub use Limb.*
