-- ===== src/Base/Lists.antt =====
-- The lists of the kernel, arrays and slices: the operations and their laws.
mod Ops
mod Split
mod Index
mod Overwrite
pub use Ops.*
pub use Split.*
pub use Index.*
pub use Overwrite.*
