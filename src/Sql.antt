-- ===== src/Sql.antt =====
-- The database as the stores use it: calls of the driver and transactions, and the reading of rows.
mod Core
mod Rows
pub mod Laws
pub mod Reading
pub mod Choice
pub mod Keeps
pub use Core.{Tables, Postgres, Conn}
unfoldable pub use Core.{
  Sql, Statement, SameOthers, quiet, beside, reading, query, touch, transaction,
}
unfoldable pub use Rows.{violation, out_of_range, one_row, chosen, limit_one, or_not_found}
