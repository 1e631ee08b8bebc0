-- ===== src/Tests.antt =====
-- Concrete runs of protocol.py, compact.py, client.py and state_store.py of the plant LED integration.
pub mod Samples
mod Wire
mod Mixes
mod Power
mod Session
mod Switches
mod Coordination
mod Transactions
mod Repositories
