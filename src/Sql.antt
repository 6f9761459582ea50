-- ===== src/Sql.antt =====
-- What the code asks of the database, and the rules to reason about it.
mod Rows
mod Statements
mod Invariants
mod Atomicity
mod Success
mod Queries
mod Triples
mod Fuel
unfoldable pub use Rows.*
unfoldable pub use Statements.*
pub use Invariants.*
pub use Atomicity.*
pub use Success.*
pub use Queries.*
pub use Triples.*
pub use Fuel.*
