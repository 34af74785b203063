-- ===== src/State.antt =====
-- What the services share: the database, the two stores in memory, the calls to other systems, and
-- the world that answers them.
mod Calls
mod Answers
mod Actions
pub mod Frame
pub use Calls.*
pub use Answers.*
pub use Actions.*
unfoldable pub use Actions.{call, transaction}
