-- ===== src/Tool/State.antt =====
-- The state that the tool acts on, and its two halves.
mod Defs
pub mod Halves
pub use Defs.{Sys}
unfoldable pub use Defs.{on_world, on_meta}
