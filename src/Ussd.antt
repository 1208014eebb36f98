-- ===== src/Ussd.antt =====
-- services/ussd-service/src: the menus of *100#, the sessions, and the calls to api-core.
pub mod Menu
pub mod Session
pub mod Invariant
pub mod Language
mod Tests
