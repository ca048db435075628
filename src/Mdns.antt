-- ===== src/Mdns.antt =====
-- The mDNS observer (threadlens/collectors/mdns.py and mdns_txt.py).
pub mod Txt
pub mod Record
pub mod Observer
