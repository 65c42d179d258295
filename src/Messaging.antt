-- ===== src/Messaging.antt =====
-- src/users_api/infrastructure/rabbitmq: what goes to the broker and what comes from it.
pub mod Publisher
pub mod AuditEvents
pub mod Consumer
pub mod Instances
