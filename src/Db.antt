-- ===== src/Db.antt =====
-- The Postgres database that every service shares (db/migrations), and the statements and
-- transactions that `DatabaseService` (src/db/database.service.ts) runs on it.
mod Rows
mod Sql
pub mod Statements
pub use Rows.*
pub use Sql.*
