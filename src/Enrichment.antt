-- ===== src/Enrichment.antt =====
-- The Thread identities of Matter nodes (threadlens/enrichment/thread_matter.py).
pub mod Thread
pub mod Laws
pub mod Forgets
pub mod Shapes
