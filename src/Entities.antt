-- ===== src/Entities.antt =====
-- The rows of the database, as the TypeORM entities of src/**/entities declare them. An id, a hash
-- and an address are texts, a date is a number of milliseconds, and a nullable column is an Option.
mod Auth
mod Lottery
mod Seats
mod Tickets
mod Gate
mod Events
mod Logs
pub use Auth.*
pub use Lottery.*
pub use Seats.*
pub use Tickets.*
pub use Gate.*
pub use Events.*
pub use Logs.*
