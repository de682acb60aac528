-- ===== src/Supervisor.antt =====
-- Parts of scripts/a9_supervisor.py: the failure of a worker, the guard of the loop over tasks, the
-- health of the transport, the control of the runtime, the queue and the leases.
pub mod Failure
pub mod Classified
pub mod AutoLoop
pub mod Trips
pub mod Counts
pub mod Transport
pub mod Health
pub mod Gate
pub mod FlowCall
pub mod Applied
pub mod Control
pub mod Effects
pub mod Pauses
pub mod Leases
pub mod Reconciled
mod LeaseTests
mod Tests
