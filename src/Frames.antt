-- ===== src/Frames.antt =====
-- What the operations of the services leave alone in the database.
pub mod Records
pub mod Reads
pub mod Chain
pub mod People
pub mod Admins
pub mod Draws
pub mod Sales
pub mod Entry
