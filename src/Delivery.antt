-- ===== src/Delivery.antt =====
-- What an export puts before a collector: from the envelopes through the encoder, the client and the HTTP
-- transport to the message that the collector reads.
pub mod Collector
pub mod Payload
pub mod Posted
pub mod Export
pub mod Batch
