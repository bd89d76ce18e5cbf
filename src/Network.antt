-- ===== src/Network.antt =====
-- The network part: src/network.
pub mod Ring
pub mod Dispatcher
