-- ===== src/Database.antt =====
-- The database behind the repositories of internal/repository: its statements as a parameter,
-- transactions over them, and an in-memory database that meets the laws.
pub mod Outcome
pub mod Table
pub mod Rows
pub mod Statement
pub mod Transaction
pub mod Keeping
pub mod InMemory
