-- ===== src/Amqp.antt =====
-- src/amqp/: the AMQP URIs, the broker and the result backend.
pub mod Uri
pub mod Channel
pub mod Broker
pub mod Backend
