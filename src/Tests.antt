-- ===== src/Tests.antt =====
-- The theorems at concrete inputs.
mod Data
mod Health
mod Mdns
mod Otbr
mod Probes
mod Storage
mod Requests
mod Matter
mod Planner
mod Redaction
