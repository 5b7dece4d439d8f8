-- ===== src/Base/Lists.antt =====
-- Lists measured by native numbers, tested by Boolean predicates, and read as tables: what
-- SELECT, UPDATE and DELETE with a WHERE clause do to a list of rows.
mod Measure
mod Table
mod Sort
mod Every
mod Keys
mod Find
mod Constraints
mod Lookup
pub use Measure.*
pub use Table.*
pub use Sort.*
pub use Every.*
pub use Keys.*
pub use Find.*
pub use Lookup.*
pub use Constraints.*
