-- ===== src/Db.antt =====
-- The package internal/db: the tables, every statement that writes them, the row queries, the listing
-- and the claims. The tables are those of migrations/000001_initial.up.sql.
pub mod Tables
pub mod Change
pub mod Store
pub mod Transaction
pub mod Create
pub mod Claims
pub mod Listing
pub mod Pool
