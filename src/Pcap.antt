-- ===== src/Pcap.antt =====
-- internal/pcap.
pub mod Stream
pub mod Kernel
pub mod Live
pub mod Reader
pub mod Writer
