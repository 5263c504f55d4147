-- ===== src/Protocol.antt =====
-- Messages and their dispatch: protocol/message.py, protocol/message_types.py, protocol/dispatcher.py,
-- protocol/handlers.py and protocol/setup.py.
pub mod Message
pub mod RoundTrip
pub mod Dispatcher
pub mod Handlers
pub mod Setup
