-- ===== src/Aml.antt =====
-- services/aml-service/src: screening of names against sanction lists, scoring, and the alerts; and
-- services/api-core/src/amq/aml-consumer.service.ts, which receives them.
pub mod Names
pub mod Distance
pub mod Screen
pub mod Score
pub mod Alerts
pub mod Decisions
mod Tests
