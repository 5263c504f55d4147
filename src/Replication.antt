-- ===== src/Replication.antt =====
-- The parts of several nodes together: how the records of one state (state/node_state_worker.py) reach the
-- states of the other nodes by way of state/sensor_update_publisher.py and protocol/handlers.py.
pub mod Messages
pub mod Hop
pub mod Loop
pub mod Network
pub mod Safety
