-- ===== src/Monitor.antt =====
-- socket/monitor: the messages, the timers and runners, the listener and the two example servers.
pub mod Message
pub mod Heartbeat
pub mod Listener
pub mod Runner
pub mod Timers
pub mod Coordinator
pub mod Forwarder
