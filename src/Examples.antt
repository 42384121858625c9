-- ===== src/Examples.antt =====
-- The theorems at concrete rows, processes and tables.
pub mod Fixtures
pub mod Storing
pub mod Approving
pub mod Scheduling
pub mod Backing
pub mod Piping
pub mod Retaining
pub mod Restoring
pub mod Transacting
mod Redacting
mod Registering
pub mod Authenticating
mod Gating
mod Starting
pub mod Administering
mod Summarising
mod Discovering
