-- ===== src/Multicast.antt =====
-- The multicast media server and its client (流媒体组播).
pub mod Queue
pub mod Pool
pub mod Tbf
pub mod Channels
pub mod Mlib
pub mod Sender
pub mod Player
pub mod Client
pub mod Startup
