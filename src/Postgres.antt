-- ===== src/Postgres.antt =====
-- src/consumer/postgres.rs: the row of a message, the sums of a batch, and the batches.
pub mod Row
pub mod Totals
pub mod Batch
pub mod Program
