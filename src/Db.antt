-- ===== src/Db.antt =====
-- The database (internal/db): the tables that the program decides on, a list of rows in the
-- order of their ids for each, and the statements of queries.go on them. A transaction is one step
-- (WriteTx holds a mutex and rolls back on an error). A time is a number of nanoseconds; a stored
-- time is a number of seconds, as RFC 3339 text is written and compared. Faults of the engine are
-- left out.
pub mod Models
pub mod Vms
pub mod Owners
pub mod Select
pub mod Counts
pub mod ApiTokens
pub mod Domains
pub mod Shares
pub mod Tokens
mod Tests
