-- ===== src/Mysql.antt =====
-- src/consumer/mysql.rs: the row of a message, and the batches that are inserted.
pub mod Row
pub mod Batch
pub mod Program
