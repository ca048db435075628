-- ===== src/Model.antt =====
-- The data that the collectors, the store and the health engine exchange (threadlens/models).
-- A time is a number of microseconds, `None` is `none`.
pub mod Health
pub mod Capabilities
pub mod State
pub mod Events
