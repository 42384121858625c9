-- ===== src/Restore.antt =====
-- Restore requests: src/restore/restore.service.ts. `Key` has the idempotency key, `Pin` the creation
-- of a request, `Terminal` its last transition, `Execution` the run of one.
pub mod Key
pub mod Lifecycle
pub mod Pin
pub mod Terminal
pub mod Execution
pub mod Taken
pub mod Once
pub mod Addressing
pub mod Claims
pub mod Steps
pub mod Finality
pub mod Serialization
pub mod Approval
