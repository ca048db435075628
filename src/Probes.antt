-- ===== src/Probes.antt =====
-- The read probes of Matter nodes (threadlens/collectors/matter_probe_*.py).
pub mod Scheduler
pub mod Planner
pub mod Unsupported
pub mod Runner
