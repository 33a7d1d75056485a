-- ===== src/Db.antt =====
-- The database under the bank's modules (bank/db.js, bank/schema.sql): rows, tables, and the
-- monad in which their operations are written.
mod Rows
mod CoinRows
mod Monad
mod Outcome
pub use Rows.*
pub use CoinRows.*
pub use Monad.*
pub use Outcome.*
