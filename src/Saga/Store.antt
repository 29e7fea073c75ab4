-- ===== src/Saga/Store.antt =====
-- saga/store.go: the operations of `PostgresStore` as functions on the tables of
-- saga/migrations/saga.sql. Each statement, and each block between BeginTx and Commit, is one step
-- on the tables, as PostgreSQL gives it; what other sessions do stands between the steps. An
-- operation takes the times that it reads: `now` for `time.Now()` of the instance and `db_now` for
-- `NOW()` of the database. That a statement can fail as a whole is in Saga/Runtime.
pub mod Tables
pub mod Transactions
pub mod Steps
pub mod PollTasks
pub mod Leases
pub mod Cas
pub mod Exclusion
pub mod Atomic
