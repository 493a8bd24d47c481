-- ===== src/Relay.antt =====
-- socket and io: the collector, its packet format, and the notifier behind the relay's pipe.
pub mod Text
pub mod Codec
pub mod Secure
pub mod Notifier
pub mod Reader
pub mod Collector
mod EndToEnd
mod StepTests
mod Tests
mod ThreadTests
pub mod Link
pub mod Ports
pub mod Topics
pub mod Logger
