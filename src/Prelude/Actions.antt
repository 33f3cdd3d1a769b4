-- ===== src/Prelude/Actions.antt =====
-- Fallible steps on a world that they change, and rules to reason about them.
mod Steps
mod Kept
mod Ensured
mod Left
mod Succeeding
pub use Steps.*
pub use Kept.*
pub use Ensured.*
pub use Left.*
pub use Succeeding.*
