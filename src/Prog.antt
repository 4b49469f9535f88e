-- ===== src/Prog.antt =====
-- Methods that change the state and return `(value, error)`, and how their runs are taken apart.
mod Defs
pub mod Laws
pub mod Steady
pub mod After
pub mod Failing
pub use Defs.{Prog, pure, raise, crash, get_state, lift, continue, ◌>>◌}
unfoldable pub use Defs.{◌>>=◌, attempt, annotate, unless_ok, unless_err}
