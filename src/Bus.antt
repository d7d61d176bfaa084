-- ===== src/Bus.antt =====
-- src/ods_ingest/bus: producing to and consuming from Kafka.
pub mod Dlq
pub mod Consumer
pub mod Producer
mod Tests
