-- ===== src/Otbr.antt =====
-- The collector of the OpenThread border routers (threadlens/collectors/otbr_rest.py and
-- otbr_parse.py).
pub mod Classify
pub mod Snapshot
pub mod Parse
pub mod Action
pub mod Collector
