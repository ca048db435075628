-- ===== src/Matter.antt =====
-- The Matter server observer of threadlens/collectors: the correlation of websocket requests, the
-- payload of a node, and the observer.
pub mod Requests
pub mod Parse
pub mod Observer
