-- ===== src/Tests.antt =====
-- Examples: each theorem of the library applied to concrete inputs.
mod Statements
pub mod Values
mod SqliteRuns
pub mod MysqlRuns
mod MysqlResults
mod PgsqlRuns
mod PgsqlResults
mod PgsqlPrints
mod DatabaseRuns
