-- ===== src/Extras.antt =====
-- grizzly_extras/async_message: messages to IBM MQ and to a service bus.
pub mod Rfh2
pub mod Transformers
pub mod Daemon
pub mod Messages
pub mod Mq
