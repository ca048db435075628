-- ===== src/Health.antt =====
-- The health engine (threadlens/health): the rollup of states, the rules of each kind of entity,
-- and the report.
pub mod Rollup
pub mod Rules
pub mod Report
