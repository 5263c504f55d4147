-- ===== src/State.antt =====
-- The replicated sensor state of a node: state/node_state_worker.py and
-- state/sensor_update_publisher.py.
pub mod Record
pub mod Worker
pub mod Lww
pub mod Convergence
pub mod Single
pub mod Invariant
pub mod Snapshot
pub mod Polling
pub mod Running
pub mod Dump
pub mod Log
pub mod Publisher
