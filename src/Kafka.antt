-- ===== src/Kafka.antt =====
-- internal/infrastructure/kafka: the topics of an event, the producers and the consumer loop.
pub mod Routing
pub mod Configured
pub mod Producer
pub mod Consumer
pub mod Delivery
pub mod Loop
pub mod Propagation
pub mod Publishing
pub mod Pipeline
pub mod Topics
pub mod Provisioning
pub mod Attempts
